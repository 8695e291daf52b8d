-- ===== src/Urlsigner/Rewriting.antt =====
-- What a rewrite of urlsigner/signer.go makes of a request.
use pmesh.Base.{
  ◌≡◌, ◌≢◌, ◌⊎◌, refl, ap, ◌∙◌, true, false, none, some, [], ◌∷◌, ◌++◌, ◌==◌, arith, All,
  Bool-cases, Option-cases, inl, inr, ℕ,
}
use mathlib.Core.Path.{subst}
use pmesh.Base.Text.{Text}
use pmesh.Urlsigner.Digest.{Headers, before}
use pmesh.Urlsigner.Signer.{Request, behind_slash, is_empty, rewrite_request, add_secrets}

-- No slash in the text.
abbrev pub HasNoSlash : Text → Type 0
HasNoSlash t = All (λ (c : ℕ). c ≢ 47) t

abbrev pub HasPlace : Request → Text → Text → Text → Type 0
HasPlace r host url_host path = (r.host ≡ host) × (r.url_host ≡ url_host) × (r.path ≡ path)

-- The host and the path of a request behind a rewrite t: as they were, if t is empty; those that the first
-- slash of t divides, if there is text before it; else the host as it was, and t behind a slash.
abbrev pub IsRewritten : Text → Request → Request → Type 0
IsRewritten t r q =
    ((t ≡ []) × HasPlace q r.host r.url_host r.path)
    ⊎ ((host path : Text) × (t ≡ host ++ 47 ∷ path)
        × HasNoSlash host
        × (host ≢ [])
        × HasPlace q host host (47 ∷ path))
    ⊎ ((t ≢ [])
        × (HasNoSlash t ⊎ ((path : Text) × (t ≡ 47 ∷ path)))
        × HasPlace q r.host r.url_host (47 ∷ t))

behind_slash-none : (t : Text) → behind_slash t ≡ none → HasNoSlash t
unfolding behind_slash
behind_slash-none [] h = tt
behind_slash-none (c ∷ t) h = elim (Bool-cases (c == 47)) [
  | inl slash ↦ absurd (ground arith)
  | inr other ↦ ((λ e. ground arith), behind_slash-none t (ground arith))
]

behind_slash-some :
    (t path : Text)
    → behind_slash t ≡ some path
    → (t ≡ before 47 t ++ 47 ∷ path) × HasNoSlash (before 47 t)
unfolding behind_slash before
behind_slash-some [] path h = absurd (ground arith)
behind_slash-some (c ∷ t) path h = elim (Bool-cases (c == 47)) [
  | inl slash ↦
      let p : t ≡ path = ground arith in
      let e : c ≡ 47 = ground arith in rw slash (ap (λ u. c ∷ u) p ∙ ap (λ d. d ∷ path) e, tt)
  | inr other ↦
      let (e, free) = behind_slash-some t path (ground arith) in
      rw other (ap (◌∷◌ c) e, ((λ d. ground arith), free))
]

is_empty-true : (t : Text) → is_empty t ≡ true → t ≡ []
is_empty-true [] h = refl
is_empty-true (c ∷ t) h = absurd (ground arith)

is_empty-false : (t : Text) → is_empty t ≡ false → t ≢ []
is_empty-false t h e = let f = ap is_empty e in ground arith

rewrite_request-IsRewritten : (t : Text) (r : Request) → IsRewritten t r (rewrite_request t r)
unfolding rewrite_request
rewrite_request-IsRewritten [] r = inl (refl, (refl, refl, refl))
rewrite_request-IsRewritten (c ∷ s) r = elim (Option-cases (behind_slash (c ∷ s))) [
  | inl e ↦
      let q : rewrite_request (c ∷ s) r ≡ record r { path = 47 ∷ c ∷ s } =
        rw (e, rewrite_request) refl in
      rw q (inr (inr ((λ n. ground arith), inl (behind_slash-none (c ∷ s) e), (refl, refl, refl))))
  | inr (path, e) ↦
      let host = before 47 (c ∷ s) in
      let (cut, free) = behind_slash-some (c ∷ s) path e in
      elim (Bool-cases (is_empty host)) [
        | inl empty ↦
            let q : rewrite_request (c ∷ s) r ≡ record r { path = 47 ∷ c ∷ s } =
              rw (e, rewrite_request) (rw empty refl) in
            let first = cut ∙ ap (λ h. h ++ 47 ∷ path) (is_empty-true host empty) in
            rw q (inr (inr ((λ n. ground arith), inr (path, first), (refl, refl, refl))))
        | inr full ↦
            let q : rewrite_request (c ∷ s) r
                ≡ record r { host = host; url_host = host; path = 47 ∷ path } =
              rw (e, rewrite_request) (rw full refl) in
            rw q (inr (inl (host, path, cut, free, is_empty-false host full, (refl, refl, refl))))
      ]
]

add_secrets-kept :
    (canonical : Text → Text) (m : Headers) (r : Request)
    → add_secrets canonical m r ≡ record r { header = (add_secrets canonical m r).header }
unfolding add_secrets
add_secrets-kept canonical [] r = refl
add_secrets-kept canonical ((k, v) ∷ m) r = add_secrets-kept canonical m _

-- The host and the path behind the last step of `Authenticate`.
pub accepted-IsRewritten :
    (canonical : Text → Text) (m : Headers) (t : Text) (r : Request)
    → IsRewritten t r (rewrite_request t (add_secrets canonical m r))
accepted-IsRewritten canonical m t r =
    let added = add_secrets canonical m r in
    subst (λ x. IsRewritten t x (rewrite_request t added)) (add_secrets-kept canonical m r)
      (rewrite_request-IsRewritten t added)
