-- ===== src/Vhttp/Pattern/Matching.antt =====
-- What the matchers of vhttp/pattern.go decide.
use native.Mathlib.Nat.{zero-add, suc-add}
use pmesh.Base.{
  ℕ, zero, suc, ◌+◌, ◌-◌, ◌≤◌, ◌<◌, ◌≡◌, refl, ◌∙◌, sym, ap, Bool, true, false, not, ◌&&◌, [], ◌∷◌,
  ◌++◌, ◌==◌, leb, if◌then◌else◌, length, take, drop, arith, length-append, length-take,
  length-drop, Bool-cases, inl, inr,
}
use pmesh.Base.Text.{Text, text_eq, has_prefix, has_suffix, eq_of_text_eq}
use pmesh.Vhttp.Pattern.{match_prefix, match_suffix, match_exact}

has_prefix_nil : (s : Text) → has_prefix s [] ≡ true
unfolding has_prefix text_eq
has_prefix_nil s = ground arith

-- Comparing character by character, the loop that a prefix test stands for.
has_prefix-cons : (c d : ℕ) (s p : Text) → has_prefix (c ∷ s) (d ∷ p) ≡ (c == d && has_prefix s p)
unfolding has_prefix text_eq
has_prefix-cons c d s p = ground arith

has_prefix-nil_cons : (d : ℕ) (p : Text) → has_prefix [] (d ∷ p) ≡ false
unfolding has_prefix
has_prefix-nil_cons d p = ground arith

match_prefix-cons :
    (c d : ℕ) (p host path : Text)
    → match_prefix (d ∷ p) (c ∷ host) path ≡ (c == d && match_prefix p host path)
unfolding match_prefix text_eq
match_prefix-cons c d p host path = ground arith

match_prefix_at_end : (p path : Text) → match_prefix p [] path ≡ has_prefix path p
unfolding match_prefix text_eq
match_prefix_at_end [] path = sym (has_prefix_nil path)
match_prefix_at_end (d ∷ p) path = ground arith

match_prefix_empty : (host path : Text) → match_prefix [] host path ≡ true
unfolding match_prefix text_eq
match_prefix_empty host path = ground arith

-- A prefix pattern, whose code cuts it where the host ends, matches exactly the pairs whose host and
-- path together begin with it.
pub match_prefix-has_prefix :
    (p host path : Text) → match_prefix p host path ≡ has_prefix (host ++ path) p
match_prefix-has_prefix p [] path = match_prefix_at_end p path
match_prefix-has_prefix [] (c ∷ host) path =
    match_prefix_empty (c ∷ host) path ∙ sym (has_prefix_nil (c ∷ (host ++ path)))
match_prefix-has_prefix (d ∷ p) (c ∷ host) path =
    match_prefix-cons c d p host path
    ∙ ap (λ (b : Bool). c == d && b) (match_prefix-has_prefix p host path)
    ∙ sym (has_prefix-cons c d (host ++ path) p)

drop_past : (xs ys : Text) (n : ℕ) → drop (length xs + n) (xs ++ ys) ≡ drop n ys
drop_past [] ys n = rw zero-add
drop_past (x ∷ xs) ys n = rw suc-add (drop_past xs ys n)

drop_within : (n : ℕ) (xs ys : Text) → n ≤ length xs → drop n (xs ++ ys) ≡ drop n xs ++ ys
drop_within zero xs ys h = refl
drop_within (suc n) [] ys h = absurd (omega arith)
drop_within (suc n) (x ∷ xs) ys h = drop_within n xs ys (omega arith)

text_eq-append :
    (a b p : Text)
    → length a ≤ length p
    → text_eq (a ++ b) p ≡ (text_eq a (take (length a) p) && text_eq b (drop (length a) p))
unfolding text_eq
text_eq-append [] b p h = refl
text_eq-append (c ∷ a) b [] h = absurd (omega arith)
text_eq-append (c ∷ a) b (d ∷ p) h = ground (arith, text_eq-append a b p (omega arith))

text_eq-length : (s t : Text) → text_eq s t ≡ true → length s ≡ length t
text_eq-length s t e = ap (length {A = ℕ}) (eq_of_text_eq s t e)

text_eq-false :
    (p host path : Text)
    → (length p == length host + length path) ≡ false
    → text_eq (host ++ path) p ≡ false
text_eq-false p host path other = elim (Bool-cases (text_eq (host ++ path) p)) [
  | inl same ↦ ground (arith, text_eq-length (host ++ path) p same, length-append host path)
  | inr differ ↦ differ
]

-- An exact pattern matches exactly the pairs that spell it together.
pub match_exact-text_eq : (p host path : Text) → match_exact p host path ≡ text_eq (host ++ path) p
unfolding match_exact
match_exact-text_eq p host path = elim (Bool-cases (length p == length host + length path)) [
  | inl fits ↦ rw fits (sym (text_eq-append host path p (ground arith)))
  | inr other ↦ rw other (sym (text_eq-false p host path other))
]

suffix_inside :
    (p host path : Text)
    → length p ≤ length path
    → text_eq (drop (length path - length p) path) p ≡ has_suffix (host ++ path) p
unfolding has_suffix
suffix_inside p host path h =
    let fits : leb (length p) (length (host ++ path)) ≡ true =
      ground (arith, length-append host path) in
    let at : length (host ++ path) - length p ≡ length host + (length path - length p) =
      omega (arith, length-append host path) in
    rw fits (rw at (rw drop_past))

and_swap : (x y : Bool) → (x && y) ≡ (y && x)
and_swap x y = ground arith

and_false : (x : Bool) → (x && false) ≡ false
and_false x = ground arith

if_not : (x y : Bool) → (if not x then false else y) ≡ (x && y)
if_not x y = ground arith

suffix_across :
    (p host path : Text)
    → length path < length p
    → (text_eq path (drop (length p - length path) p)
        && has_suffix host (take (length p - length path) p))
      ≡ has_suffix (host ++ path) p
unfolding has_suffix
suffix_across p host path h =
    let pos = length p - length path in
    let k = length host - pos in
    let cut : length (take pos p) ≡ pos = omega (arith, length-take pos p) in
    elim (Bool-cases (leb pos (length host))) [
      | inl fits ↦
          let le : pos ≤ length host = ground arith in
          let whole : leb (length p) (length (host ++ path)) ≡ true =
            ground (arith, length-append host path, le) in
          let at : length (host ++ path) - length p ≡ k =
            omega (arith, length-append host path, le) in
          let kept : length (drop k host) ≡ pos = omega (arith, length-drop k host, le) in
          let parts = text_eq-append (drop k host) path p (omega (arith, kept)) in
          rw (cut, fits, whole, at, drop_within k host path (omega arith), parts, kept)
            (and_swap (text_eq path (drop pos p)) (text_eq (drop k host) (take pos p)))
      | inr long ↦
          let short : leb (length p) (length (host ++ path)) ≡ false =
            ground (arith, length-append host path) in
          rw (cut, long, short) (and_false (text_eq path (drop pos p)))
    ]

-- A suffix pattern, whose code cuts it where the path begins, matches exactly the pairs whose host
-- and path together end with it.
pub match_suffix-has_suffix :
    (p host path : Text) → match_suffix p host path ≡ has_suffix (host ++ path) p
unfolding match_suffix
match_suffix-has_suffix p host path = elim (Bool-cases (leb (length p) (length path))) [
  | inl fits ↦ rw fits (suffix_inside p host path (ground arith))
  | inr long ↦ rw long (
      if_not (text_eq path (drop (length p - length path) p))
        (has_suffix host (take (length p - length path) p))
      ∙ suffix_across p host path (ground arith))
]
