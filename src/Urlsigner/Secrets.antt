-- ===== src/Urlsigner/Secrets.antt =====
-- What the secret headers of urlsigner/signer.go make of the header of a request.
use pmesh.Base.{
  ◌≡◌, ◌⊎◌, ◌↔◌, refl, sym, ap, ◌∙◌, true, false, Option, none, some, List, [], ◌∷◌, arith,
  if◌then◌else◌, if_elim, Bool-cases, inl, inr,
}
use pmesh.Base.Text.{Text, text_eq, text_eq_refl, eq_of_text_eq}
use pmesh.Urlsigner.Digest.{Headers, before}
use pmesh.Urlsigner.Signer.{
  Request, values, set_values, behind_slash, is_empty, rewrite_request, add_secrets,
}

values-set_values_same :
    (h : List (Text × List Text)) (k v : Text) → values (set_values h k v) k ≡ v ∷ []
unfolding values set_values
values-set_values_same [] k v = rw (text_eq_refl k) refl
values-set_values_same ((l, vs) ∷ h) k v = elim (Bool-cases (text_eq l k)) [
  | inl same ↦ rw (same, text_eq_refl k) refl
  | inr other ↦ rw (other, other) (values-set_values_same h k v)
]

values-set_values_other :
    (h : List (Text × List Text)) (k j v : Text)
    → text_eq k j ≡ false
    → values (set_values h k v) j ≡ values h j
unfolding values set_values
values-set_values_other [] k j v ne = rw ne refl
values-set_values_other ((l, vs) ∷ h) k j v ne = elim (Bool-cases (text_eq l k)) [
  | inl same ↦
      let e : l ≡ k = eq_of_text_eq l k same in
      let g : text_eq l j ≡ false = rw e ne in rw (same, ne, g) refl
  | inr other ↦
      rw other (ap (λ ws. if text_eq l j then vs else ws) (values-set_values_other h k j v ne))
]

-- A rewrite leaves the header alone.
pub rewrite_request-header : (t : Text) (r : Request) → (rewrite_request t r).header ≡ r.header
unfolding rewrite_request
rewrite_request-header [] r = refl
rewrite_request-header (c ∷ s) r = by_slash (behind_slash (c ∷ s)) refl
  where
    by_slash :
        (o : Option Text) → behind_slash (c ∷ s) ≡ o → (rewrite_request (c ∷ s) r).header ≡ r.header
    by_slash none e = rw (e, rewrite_request) refl
    by_slash (some path) e =
        rw (e, rewrite_request)
          (if_elim (λ (q : Request). q.header ≡ r.header) (is_empty (before 47 (c ∷ s))) (λ t. refl)
            (λ f. refl))

-- The map has the value v for the name n.
abbrev pub HasEntry : Text → Text → Headers → Type 0
HasEntry n v [] = ⊥
HasEntry n v ((l, w) ∷ m) = ((l ≡ n) × (w ≡ v)) ⊎ HasEntry n v m

-- Going over a map meets its entries and no others, in some order.
abbrev pub IsRange : (Headers → Headers) → Type 0
IsRange range = (m : Headers) (n v : Text) → HasEntry n v (range m) ↔ HasEntry n v m

module _ (canonical : Text → Text) where
  -- The map has the value v for a name with the canonical form k.
  abbrev pub Names : Headers → Text → Text → Type 0
  Names m k v = (n : Text) × (canonical n ≡ k) × HasEntry n v m

  -- The values at a key: a value that the map has for it, alone, or what was there, if it has none.
  abbrev pub IsSetBy : Headers → Text → List Text → List Text → Type 0
  IsSetBy m k old new =
      ((v : Text) × Names m k v × (new ≡ v ∷ [])) ⊎ ((¬ ((v : Text) × Names m k v)) × (new ≡ old))

  add_secrets-IsSetBy :
      (m : Headers) (r : Request) (k : Text)
      → IsSetBy m k (values r.header k) (values (add_secrets canonical m r).header k)
  unfolding add_secrets
  add_secrets-IsSetBy [] r k = inr ((λ (v, (n, e, h)). h), refl)
  add_secrets-IsSetBy ((l, w) ∷ m) r k =
      first (add_secrets-IsSetBy m (record r { header = after }) k)
    where
      after : List (Text × List Text)
      after = set_values r.header (canonical l) w

      first :
          IsSetBy m k (values (set_values r.header (canonical l) w) k) (
            values
              (add_secrets canonical m
                (record r { header = set_values r.header (canonical l) w })).header
              k)
          → IsSetBy ((l, w) ∷ m) k (values r.header k) (
              values
                (add_secrets canonical m
                  (record r { header = set_values r.header (canonical l) w })).header
                k)
      first (inl (v, (n, e, h), new)) = inl (v, (n, e, inr h), new)
      first (inr (nothing, old)) = elim (Bool-cases (text_eq (canonical l) k)) [
        | inl same ↦
            let e = eq_of_text_eq (canonical l) k same in
            inl (
              w,
              (l, e, inl (refl, refl)),
              old
                  ∙ ap (λ j. values (set_values r.header (canonical l) w) j) (sym e)
                  ∙ values-set_values_same r.header (canonical l) w,
            )
        | inr other ↦ inr (
          λ (v, (n, e, h)). elim h [
            | inl (a, b) ↦
                let t : text_eq (canonical l) k ≡ true =
                  ap (λ x. text_eq x k) (ap canonical a ∙ e) ∙ text_eq_refl k in
                ground arith
            | inr rest ↦ nothing (v, (n, e, rest))
          ],
          old ∙ values-set_values_other r.header (canonical l) k w other,
        )
      ]

  -- The header behind the last step of `Authenticate`.
  pub accepted-IsSetBy :
      (range : Headers → Headers) (m : Headers) (t : Text) (r : Request) (k : Text)
      → IsRange range
      → IsSetBy m k
          (values r.header k)
          (values (rewrite_request t (add_secrets canonical (range m) r)).header k)
  accepted-IsSetBy range m t r k every =
      rw (rewrite_request-header t (add_secrets canonical (range m) r))
        (ordered (add_secrets-IsSetBy (range m) r k))
    where
      ordered :
          IsSetBy
            (range m)
            k
            (values r.header k)
            (values (add_secrets canonical (range m) r).header k)
          → IsSetBy m k (values r.header k) (values (add_secrets canonical (range m) r).header k)
      ordered (inl (v, (n, e, h), new)) = inl (v, (n, e, (every m n v).0 h), new)
      ordered (inr (nothing, old)) =
          inr ((λ (v, (n, e, h)). nothing (v, (n, e, (every m n v).1 h))), old)
