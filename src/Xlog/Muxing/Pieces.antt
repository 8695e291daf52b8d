-- ===== src/Xlog/Muxing/Pieces.antt =====
-- Text cut behind its line feeds, as `ReadBytes` of xlog/tail_ooo.go reads it.
use pmesh.Base.{
  ℕ, ◌≡◌, refl, ap, ◌∙◌, List, [], ◌∷◌, ◌++◌, ◌==◌, if◌then◌else◌, Bool-cases, inl, inr,
  append_assoc,
}
use pmesh.Xlog.Muxing.{Line, complete_lines}

-- One more byte before the first of the pieces.
abbrev with_first : ℕ → List Line × List ℕ → List Line × List ℕ
with_first c ([], tail) = ([], c ∷ tail)
with_first c (l ∷ ls, tail) = ((c ∷ l) ∷ ls, tail)

-- The pieces of a text that end with a line feed, and the bytes behind the last of them, built from the
-- end of the text.
abbrev pub pieces : List ℕ → List Line × List ℕ
pieces [] = ([], [])
pieces (c ∷ p) =
    let rest = pieces p in if c == 10 then ((c ∷ []) ∷ rest.0, rest.1) else with_first c rest

abbrev attach : List ℕ → List Line × List ℕ → List Line × List ℕ
attach start ([], tail) = ([], start ++ tail)
attach start (l ∷ ls, tail) = ((start ++ l) ∷ ls, tail)

attach-nil : (r : List Line × List ℕ) → (attach [] r).0 ≡ r.0
attach-nil ([], tail) = refl
attach-nil (l ∷ ls, tail) = refl

attach-with_first :
    (start : List ℕ) (c : ℕ) (r : List Line × List ℕ)
    → (attach (start ++ c ∷ []) r).0 ≡ (attach start (with_first c r)).0
attach-with_first start c ([], tail) = refl
attach-with_first start c (l ∷ ls, tail) = ap (λ k. k ∷ ls) (append_assoc start (c ∷ []) l)

complete_lines-attach : (start p : List ℕ) → complete_lines start p ≡ (attach start (pieces p)).0
unfolding complete_lines
complete_lines-attach start [] = refl
complete_lines-attach start (c ∷ p) = elim (Bool-cases (c == 10)) [
  | inl feed ↦
      rw feed
        (ap (λ ls. (start ++ c ∷ []) ∷ ls) (complete_lines-attach [] p ∙ attach-nil (pieces p)))
  | inr other ↦
      rw other (complete_lines-attach (start ++ c ∷ []) p ∙ attach-with_first start c (pieces p))
]

pub complete_lines-pieces : (p : List ℕ) → complete_lines [] p ≡ (pieces p).0
complete_lines-pieces p = complete_lines-attach [] p ∙ attach-nil (pieces p)
