-- ===== src/Urlsigner/Conditions.antt =====
-- The time and the headers that urlsigner/signer.go asks for, told without its code.
use pmesh.Base.{
  ◌≡◌, refl, sym, ap, ◌∙◌, true, false, Option, none, some, List, [], ◌∷◌, All, Bool-cases, inl,
  inr, arith,
}
use pmesh.Base.Int.{ℤ, ◌≤ℤ◌, ◌<ℤ◌}
use pmesh.Base.Text.{Text, text_eq, text_eq_refl, eq_of_text_eq}
use pmesh.Urlsigner.Digest.{Headers}
use pmesh.Urlsigner.Signer.{Request, values, first_value, get_header, expired, headers_match}

-- The time is none, or not before now.
abbrev pub IsInTime : ℤ → Option ℤ → Type 0
IsInTime now none = Unit
IsInTime now (some t) = now ≤ℤ t

pub IsInTime-expired : (now : ℤ) (t : Option ℤ) → expired now t ≡ false → IsInTime now t
IsInTime-expired now none h = tt
IsInTime-expired now (some t) h = ground arith

pub expired_after :
    (now : ℤ) (t : Option ℤ) → expired now t ≡ true → (s : ℤ) × (t ≡ some s) × (s <ℤ now)
expired_after now none h = absurd (ground arith)
expired_after now (some t) h = (t, refl, ground arith)

-- What a request has for a header: its first value, or nothing.
abbrev pub StartsWith : List Text → Text → Type 0
StartsWith [] v = v ≡ []
StartsWith (w ∷ vs) v = w ≡ v

first_value-StartsWith : (vs : List Text) (v : Text) → first_value vs ≡ v → StartsWith vs v
first_value-StartsWith [] v h = sym h
first_value-StartsWith (w ∷ vs) v h = h

StartsWith-first_value : (vs : List Text) (v : Text) → StartsWith vs v → first_value vs ≡ v
StartsWith-first_value [] v h = sym h
StartsWith-first_value (w ∷ vs) v h = h

module _ (canonical : Text → Text) where
  -- The request has each of the headers, under the canonical form of its name.
  abbrev pub HasHeaders : Request → Headers → Type 0
  HasHeaders r m = All (λ (e : Text × Text). StartsWith (values r.header (canonical e.0)) e.1) m

  pub HasHeaders-headers_match :
      (m : Headers) (r : Request) → headers_match canonical m r ≡ true → HasHeaders r m
  unfolding headers_match
  HasHeaders-headers_match [] r h = tt
  HasHeaders-headers_match ((k, v) ∷ m) r h =
      elim (Bool-cases (text_eq (get_header canonical r.header k) v)) [
        | inl same ↦ (
          first_value-StartsWith (values r.header (canonical k)) v (eq_of_text_eq _ v same),
          HasHeaders-headers_match m r (ground arith),
        )
        | inr other ↦ absurd (ground arith)
      ]

  pub headers_match-HasHeaders :
      (m : Headers) (r : Request) → HasHeaders r m → headers_match canonical m r ≡ true
  unfolding headers_match
  headers_match-HasHeaders [] r h = refl
  headers_match-HasHeaders ((k, v) ∷ m) r (h, hs) =
      let e = StartsWith-first_value (values r.header (canonical k)) v h in
      let same : text_eq (get_header canonical r.header k) v ≡ true =
        ap (λ t. text_eq t v) e ∙ text_eq_refl v in
      rw same (headers_match-HasHeaders m r hs)
