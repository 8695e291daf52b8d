-- ===== src/Vhttp/Evidence.antt =====
-- What speaks for a client in vhttp/client.go: the scheme of its request, its certificate, its secret.
use pmesh.Base.{
  ◌≡◌, ◌≢◌, ◌<◌, ◌⊎◌, refl, sym, ap, ◌∙◌, true, false, ◌||◌, Option, none, some, List, [], ◌∷◌,
  arith, if_elim, Bool-cases, inl, inr,
}
use pmesh.Base.Text.{Text, codes, text_eq, text_eq_refl, eq_of_text_eq}
use pmesh.Vhttp.Client.{Tls, with_tls, or_default, scheme_of, has_peer, has_secret}

-- What the scheme is where no header of a proxy names one: that of the URL, else that of the connection.
abbrev pub PlainHttps : Text → Option Tls → Type 0
PlainHttps [] none = ⊥
PlainHttps [] (some t) = Unit
PlainHttps (c ∷ s) tls = c ∷ s ≡ codes "https"

-- The scheme of a request is https: its first X-Forwarded-Proto is "https", or is neither "https" nor
-- "http" and the URL or the connection is https.
abbrev pub SaysHttps : List Text → Text → Option Tls → Type 0
SaysHttps [] scheme tls = PlainHttps scheme tls
SaysHttps (v ∷ vs) scheme tls =
    (v ≡ codes "https") ⊎ ((v ≢ codes "https") × (v ≢ codes "http") × PlainHttps scheme tls)

PlainHttps-or_default :
    (scheme : Text) (tls : Option Tls)
    → or_default scheme (with_tls tls) ≡ codes "https"
    → PlainHttps scheme tls
PlainHttps-or_default [] none e = absurd (ground arith)
PlainHttps-or_default [] (some t) e = tt
PlainHttps-or_default (c ∷ s) tls e = e

or_default-PlainHttps :
    (scheme : Text) (tls : Option Tls)
    → PlainHttps scheme tls
    → or_default scheme (with_tls tls) ≡ codes "https"
or_default-PlainHttps [] none h = absurd h
or_default-PlainHttps [] (some t) h = refl
or_default-PlainHttps (c ∷ s) tls h = h

-- Texts that differ are told apart.
text_neq : (s t : Text) → text_eq s t ≡ false → s ≢ t
text_neq s t h e = let r = ap (λ u. text_eq u t) e ∙ text_eq_refl t in ground arith

text_eq-neq : (s t : Text) → s ≢ t → text_eq s t ≡ false
text_eq-neq s t h = elim (Bool-cases (text_eq s t)) [
  | inl same ↦ absurd (h (eq_of_text_eq s t same))
  | inr other ↦ other
]

pub SaysHttps-scheme_of :
    (protos : List Text) (scheme : Text) (tls : Option Tls)
    → scheme_of protos scheme tls ≡ codes "https"
    → SaysHttps protos scheme tls
unfolding scheme_of
SaysHttps-scheme_of [] scheme tls e = PlainHttps-or_default scheme tls e
SaysHttps-scheme_of (v ∷ vs) scheme tls e = elim (Bool-cases (text_eq v (codes "https"))) [
  | inl https ↦ inl (eq_of_text_eq v (codes "https") https)
  | inr no_https ↦ elim (Bool-cases (text_eq v (codes "http"))) [
    | inl http ↦ let w : scheme_of (v ∷ vs) scheme tls ≡ v = rw http refl in inl (sym w ∙ e)
    | inr no_http ↦
        let w : scheme_of (v ∷ vs) scheme tls ≡ or_default scheme (with_tls tls) =
          rw (no_http, no_https) refl in
        inr (
          text_neq v (codes "https") no_https,
          text_neq v (codes "http") no_http,
          PlainHttps-or_default scheme tls (sym w ∙ e),
        )
  ]
]

pub scheme_of-SaysHttps :
    (protos : List Text) (scheme : Text) (tls : Option Tls)
    → SaysHttps protos scheme tls
    → scheme_of protos scheme tls ≡ codes "https"
unfolding scheme_of
scheme_of-SaysHttps [] scheme tls h = or_default-PlainHttps scheme tls h
scheme_of-SaysHttps (v ∷ vs) scheme tls (inl e) =
    if_elim (λ (t : Text). t ≡ codes "https")
      (text_eq v (codes "http") || text_eq v (codes "https")) (λ t. e)
      (λ f.
        let same = ap (λ t. text_eq t (codes "https")) e ∙ text_eq_refl (codes "https") in
        absurd (ground arith))
scheme_of-SaysHttps (v ∷ vs) scheme tls (inr (a, b, plain)) =
    rw (text_eq-neq v (codes "http") b, text_eq-neq v (codes "https") a)
      (or_default-PlainHttps scheme tls plain)

pub has_peer-true :
    (tls : Option Tls)
    → has_peer tls ≡ true
    → (t : Tls) × (tls ≡ some t) × (0 < t.peer_certificates) × (t.server_name ≡ codes "pm3")
has_peer-true none h = absurd (ground arith)
has_peer-true (some t) h =
    (t, refl, ground arith, eq_of_text_eq t.server_name (codes "pm3") (ground arith))

pub has_secret-true :
    (secret : Text) (auth : Option (Text × Text))
    → has_secret secret auth ≡ true
    → (u pw : Text) × (auth ≡ some (u, pw)) × ((u ≡ secret) ⊎ (pw ≡ secret))
has_secret-true secret none h = absurd (ground arith)
has_secret-true secret (some (u, pw)) h = elim (Bool-cases (text_eq u secret)) [
  | inl user ↦ (u, pw, refl, inl (eq_of_text_eq u secret user))
  | inr other ↦ (u, pw, refl, inr (eq_of_text_eq pw secret (ground arith)))
]

pub has_secret-named :
    (secret : Text) (auth : Option (Text × Text))
    → (u pw : Text) × (auth ≡ some (u, pw)) × ((u ≡ secret) ⊎ (pw ≡ secret))
    → has_secret secret auth ≡ true
has_secret-named secret auth (u, pw, e, inl user) =
    let a = ap (λ t. text_eq t secret) user ∙ text_eq_refl secret in
    ap (has_secret secret) e ∙ ground arith
has_secret-named secret auth (u, pw, e, inr pass) =
    let a = ap (λ t. text_eq t secret) pass ∙ text_eq_refl secret in
    ap (has_secret secret) e ∙ ground arith
