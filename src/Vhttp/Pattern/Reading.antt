-- ===== src/Vhttp/Pattern/Reading.antt =====
-- Reading a pattern of vhttp/pattern.go always ends, and what a set of patterns matches.
use pmesh.Base.{
  ℕ, zero, suc, ◌+◌, ◌≤◌, ◌<◌, ◌≡◌, ◌≢◌, ◌⊎◌, refl, Bool, true, false, ◌&&◌, ◌||◌, Option, none,
  some, List, [], ◌∷◌, ◌++◌, ◌==◌, length, drop, arith, length-append, Bool-cases, All, inl, inr,
  Option-cases,
}
use pmesh.Base.Text.{Text, codes, text_eq}
use pmesh.Vhttp.Pattern.{
  Matcher, Matchers, any_of, end, also, matches, matches_any, is_folded, trim_left, trim_right,
  squeeze, normalise, contains_comma, split_comma, Parsed, read, invalid, out_of_fuel, Compile,
  read_single, read_set, SetParsed, set_read, set_invalid, set_out_of_fuel, add_reading, close_set,
  unmarshal, new_pattern,
}

length-trim_left-le : (s : Text) → length (trim_left s) ≤ length s
unfolding trim_left
length-trim_left-le [] = omega arith
length-trim_left-le (c ∷ s) = ground (arith, length-trim_left-le s)

length-trim_right-le : (s : Text) → length (trim_right s) ≤ length s
unfolding trim_right
length-trim_right-le [] = omega arith
length-trim_right-le (c ∷ s) = ground (arith, length-trim_right-le s)

length-squeeze-le : (prev : Bool) (s : Text) → length (squeeze prev s) ≤ length s
unfolding squeeze
length-squeeze-le prev [] = omega arith
length-squeeze-le prev (c ∷ s) = ground (arith, length-squeeze-le (is_folded c) s)

length-normalise-le : (s : Text) → length (normalise s) ≤ length s
unfolding normalise
length-normalise-le s = omega (
  arith,
  length-squeeze-le false (trim_left (trim_right s)),
  length-trim_left-le (trim_right s),
  length-trim_right-le s,
)

abbrev Short : ℕ → Text → Type 0
Short n s = length s < n

-- Each piece of a split is no longer than the text, and shorter if there is a comma to cut at.
split_comma-le :
    (cur s : Text) (n : ℕ) → length cur + length s < n → All (Short n) (split_comma cur s)
unfolding split_comma
split_comma-le cur [] n h = (omega arith, tt)
split_comma-le cur (c ∷ []) n h = (omega (arith, length-append {0} cur (c ∷ [])), tt)
split_comma-le cur (c ∷ d ∷ s) n h = elim (Bool-cases (c == 44 && d == 32)) [
  | inl cut ↦ rw (cut, split_comma) (omega arith, split_comma-le [] s n (omega arith))
  | inr on ↦
      rw (on, split_comma)
        (split_comma-le (cur ++ c ∷ []) (d ∷ s) n (omega (arith, length-append {0} cur (c ∷ []))))
]

split_comma-lt :
    (cur s : Text) (n : ℕ)
    → contains_comma s ≡ true
    → length cur + length s ≤ n
    → All (Short n) (split_comma cur s)
unfolding split_comma contains_comma
split_comma-lt cur [] n e h = cc
split_comma-lt cur (c ∷ []) n e h = cc
split_comma-lt cur (c ∷ d ∷ s) n e h = elim (Bool-cases (c == 44 && d == 32)) [
  | inl cut ↦ rw (cut, split_comma) (omega arith, split_comma-le [] s n (omega arith))
  | inr on ↦
      rw (on, split_comma)
        (split_comma-lt (cur ++ c ∷ []) (d ∷ s) n (rw on at e)
          (omega (arith, length-append {0} cur (c ∷ []))))
]

read_single_ends : (compile : Compile) (s : Text) → read_single compile s ≢ out_of_fuel
unfolding read_single
read_single_ends compile s = elim (Option-cases (compile (drop 1 s))) [
  | inl e ↦ ground (arith, e)
  | inr (rule, e) ↦ ground (arith, e)
]

read_set_ends :
    (f : Text → Parsed) (ss : List Text) (n : ℕ)
    → ((s : Text) → length s < n → f s ≢ out_of_fuel)
    → All (Short n) ss
    → read_set f ss ≢ set_out_of_fuel
unfolding read_set
read_set_ends f [] n ends short = ground arith
read_set_ends f (s ∷ ss) n ends short =
    ground (arith, ends s short.0, read_set_ends f ss n ends short.1)

close_set_ends : (r : SetParsed) → r ≢ set_out_of_fuel → close_set r ≢ out_of_fuel
close_set_ends (set_read ms) h = ground arith
close_set_ends set_invalid h = ground arith
close_set_ends set_out_of_fuel h = absurd (h refl)

unmarshal_ends :
    (fuel : ℕ) (compile : Compile) (text : Text)
    → length text < fuel
    → unmarshal fuel compile text ≢ out_of_fuel
unfolding unmarshal
unmarshal_ends zero compile text h = elim h [ ]
unmarshal_ends (suc fuel) compile text h =
    let s = normalise text in
    let le : length s ≤ fuel = omega (arith, length-normalise-le text) in
    elim (Bool-cases (text_eq s (codes "_") || text_eq s [])) [
      | inl wild ↦ ground arith
      | inr other ↦ elim (Bool-cases (contains_comma s)) [
        | inl set ↦
            let ended = close_set_ends (read_set (unmarshal fuel compile) (split_comma [] s)) (
              read_set_ends (unmarshal fuel compile) (split_comma [] s) fuel
                (λ t. unmarshal_ends fuel compile t)
                (split_comma-lt [] s fuel set (omega (arith, le)))) in
            ground arith
        | inr single ↦ ground (arith, read_single_ends compile s)
      ]
    ]

-- The text matches what one piece reads as, or `rest`.
abbrev pub piece_or : Parsed → Text → Text → Bool → Bool
piece_or out_of_fuel host path rest = rest
piece_or invalid host path rest = rest
piece_or (read none) host path rest = rest
piece_or (read (some m)) host path rest = matches m host path || rest

-- Some piece reads as a matcher that matches; wildcards among the pieces count for nothing.
pub any_piece : (Text → Parsed) → List Text → Text → Text → Bool
any_piece f [] host path = false
any_piece f (s ∷ ss) host path =
    let rest = any_piece f ss host path in piece_or (f s) host path rest

add_matches :
    (host path : Text) (r : Parsed) (q : SetParsed) (ms : Matchers) (rest : Bool)
    → add_reading r q ≡ set_read ms
    → ((ms' : Matchers) → q ≡ set_read ms' → matches_any ms' host path ≡ rest)
    → matches_any ms host path ≡ piece_or r host path rest
unfolding matches
add_matches host path out_of_fuel q ms rest e ih = cc
add_matches host path invalid q ms rest e ih = cc
add_matches host path (read none) q ms rest e ih = ih ms e
add_matches host path (read (some m)) (set_read ms') ms rest e ih =
    let whole : also m ms' ≡ ms = cc in rw (← whole) (rw (ih ms' refl))
add_matches host path (read (some m)) set_invalid ms rest e ih = cc
add_matches host path (read (some m)) set_out_of_fuel ms rest e ih = cc

read_set_matches :
    (f : Text → Parsed) (ss : List Text) (ms : Matchers) (host path : Text)
    → read_set f ss ≡ set_read ms
    → matches_any ms host path ≡ any_piece f ss host path
unfolding read_set any_piece matches
read_set_matches f [] ms host path e = let none_left : end ≡ ms = cc in rw (← none_left)
read_set_matches f (s ∷ ss) ms host path e =
    add_matches host path (f s) (read_set f ss) ms (any_piece f ss host path) e
      (λ ms'. read_set_matches f ss ms' host path)

close_matches :
    (host path : Text) (q : SetParsed) (m : Matcher) (b : Bool)
    → close_set q ≡ read (some m)
    → ((ms : Matchers) → q ≡ set_read ms → matches_any ms host path ≡ b)
    → matches m host path ≡ b
unfolding matches
close_matches host path (set_read ms) m b e h =
    let whole : any_of ms ≡ m = cc in rw (← whole) (h ms refl)
close_matches host path set_invalid m b e h = cc
close_matches host path set_out_of_fuel m b e h = cc

-- A set of patterns, where it can be read, matches exactly what one of its pieces matches; a wildcard
-- among the pieces is left out of the set and matches nothing there.
pub read_set_lem :
    (f : Text → Parsed) (ss : List Text) (m : Matcher) (host path : Text)
    → close_set (read_set f ss) ≡ read (some m)
    → matches m host path ≡ any_piece f ss host path
read_set_lem f ss m host path e =
    close_matches host path (read_set f ss) m (any_piece f ss host path) e
      (λ ms. read_set_matches f ss ms host path)

-- Reading a pattern always ends: it gives a pattern or an error of the regexp package.
pub new_pattern_ends :
    (compile : Compile) (text : Text)
    → ((m : Option Matcher) × (new_pattern compile text ≡ read m))
      ⊎ (new_pattern compile text ≡ invalid)
unfolding new_pattern
new_pattern_ends compile text =
    ground (arith, unmarshal_ends (suc (length text)) compile text (omega arith))
