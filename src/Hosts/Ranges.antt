-- ===== src/Hosts/Ranges.antt =====
-- The pairs of `Range` and the roots of `Match` in hosts/domains.go.
use pmesh.Base.{
  ℕ, ◌+◌, ◌-◌, ◌≡◌, refl, sym, ap, ◌∙◌, true, false, Option, some, List, [], ◌∷◌, ◌++◌, ◌==◌, leb,
  length, get_elem?, take, drop, length-append, drop-append, take-append, append_assoc, All, inl,
  inr, arith, Bool-cases, Option-cases,
}
use mathlib.Core.Path.{subst}
use pmesh.Base.Text.{Text, text_eq_refl}
use pmesh.Hosts.{match_root, range_from, ranges, first_match, match_map}

get_elem?-last : (t k : Text) (c : ℕ) → get_elem? ((t ++ c ∷ []) ++ k) (length t) ≡ some c
get_elem?-last [] k c = refl
get_elem?-last (x ∷ t) k c = get_elem?-last t k c

match_root-dotted : (t k : Text) → match_root k ((t ++ 46 ∷ []) ++ k) ≡ some (t ++ 46 ∷ [])
unfolding match_root
match_root-dotted t k =
    let sub : Text = t ++ 46 ∷ [] in
    let n : length (sub ++ k) ≡ length sub + length k = length-append sub k in
    let l : length sub ≡ length t + 1 = length-append t (46 ∷ []) in
    let at : length (sub ++ k) - length k ≡ length sub = omega arith in
    let before : length (sub ++ k) - length k - 1 ≡ length t = omega arith in
    let cut : drop (length (sub ++ k) - length k) (sub ++ k) ≡ k =
      ap (λ (i : ℕ). drop i (sub ++ k)) at ∙ drop-append sub k in
    let front : take (length (sub ++ k) - length k) (sub ++ k) ≡ sub =
      ap (λ (i : ℕ). take i (sub ++ k)) at ∙ take-append sub k in
    let dot : get_elem? (sub ++ k) (length (sub ++ k) - length k - 1) ≡ some 46 =
      ap (get_elem? (sub ++ k)) before ∙ get_elem?-last t k 46 in
    let fits : leb (length k) (length (sub ++ k)) ≡ true = ground arith in
    let there : ((length (sub ++ k) - length k) == 0) ≡ false = ground arith in
    rw (cut, text_eq_refl k, fits, there, dot, front) refl

match_root_self : (k : Text) → match_root k k ≡ some []
unfolding match_root
match_root_self k =
    let at : length k - length k ≡ 0 = omega arith in
    let fits : leb (length k) (length k) ≡ true = ground arith in rw (at, fits, text_eq_refl k) refl

range_from-match :
    (s sub v : Text)
    → sub ++ s ≡ v
    → All (λ (p : Text × Text). (p.1 ++ p.0 ≡ v) × (match_root p.0 v ≡ some p.1)) (range_from sub s)
unfolding range_from
range_from-match [] sub v h = tt
range_from-match (c ∷ s) sub v h =
    let whole : (sub ++ c ∷ []) ++ s ≡ v = append_assoc sub (c ∷ []) s ∙ h in
    let rest = range_from-match s (sub ++ c ∷ []) v whole in
    elim (Bool-cases (c == 46)) [
      | inl dot ↦
          let is46 : c ≡ 46 = ground arith in
          let found : match_root s ((sub ++ c ∷ []) ++ s) ≡ some (sub ++ c ∷ []) =
            subst (λ (d : ℕ). match_root s ((sub ++ d ∷ []) ++ s) ≡ some (sub ++ d ∷ [])) (sym is46)
              (match_root-dotted sub s) in
          rw (dot, range_from) ((whole, ap (match_root s) (sym whole) ∙ found), rest)
      | inr other ↦ rw (other, range_from) rest
    ]

-- Each pair of `Range` splits the name in two, and `Match` splits the name at that root the same way.
pub ranges-match_root :
    (v : Text)
    → All (λ (p : Text × Text). (p.1 ++ p.0 ≡ v) × (match_root p.0 v ≡ some p.1)) (ranges v)
unfolding ranges
ranges-match_root v = ((refl, match_root_self v), range_from-match v [] v refl)

module _ {ℓ κ} {V : Type ℓ} where
  first_match-All :
      (P : Text × Text → Type κ) (m : Text → Option V) (l : List (Text × Text)) (k s : Text) (v : V)
      → All P l
      → first_match m l ≡ some (k, s, v)
      → (m k ≡ some v) × P (k, s)
  unfolding first_match
  first_match-All P m [] k s v a h = ground arith
  first_match-All P m ((key, sub) ∷ rest) k s v a h = elim (Option-cases (m key)) [
    | inl absent ↦ first_match-All P m rest k s v a.1 (ground arith)
    | inr (w, there) ↦
        let same : ◌≡◌ {A = Text × Text} (key, sub) (k, s) = ground arith in
        let value : w ≡ v = ground arith in
        (
          ap (λ (q : Text × Text). m q.0) (sym same) ∙ there ∙ ap some value,
          subst (λ (q : Text × Text). P q) same a.0,
        )
  ]

-- Where `MatchMap` finds a root, the root is in the map with that value, it stands in the name right
-- behind the sub, and `Match` splits the name there as well.
pub match_map_sound {ℓ} :
    {V : Type ℓ} (m : Text → Option V) (needle root sub : Text) (v : V)
    → match_map m needle ≡ some (root, sub, v)
    → (m root ≡ some v) × (sub ++ root ≡ needle) × (match_root root needle ≡ some sub)
unfolding match_map
match_map_sound m needle root sub v h =
    let found =
      first_match-All
        (λ (p : Text × Text). (p.1 ++ p.0 ≡ needle) × (match_root p.0 needle ≡ some p.1)) m
        (ranges needle) root sub v (ranges-match_root needle) h in
    (found.0, found.1.0, found.1.1)
