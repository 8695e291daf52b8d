-- ===== src/Vhttp/Trust.antt =====
-- Which requests of a client vhttp/client.go marks as internal.
use pmesh.Base.{◌≡◌, ◌<◌, ◌⊎◌, Bool, true, false, ◌&&◌, ◌||◌, Option, some, List, All}
use pmesh.Base.Text.{Text, codes, text_eq}
use pmesh.Urlsigner.Signer.{values}
use pmesh.Vhttp.Evidence.{SaysHttps}
use pmesh.Vhttp.Client.{Header, Tls, ClientSession, Incoming, scheme_of, has_peer, has_secret}

-- No entry of the information has the key.
abbrev pub IsOther : Header → Text → Type 0
IsOther info j = All (λ (e : Text × List Text). text_eq e.0 j ≡ false) info

module _ (basic_auth : List Text → Option (Text × Text)) (secret : Text) where
  -- The answer of the code.
  abbrev is_trusted : ClientSession → Incoming → Bool
  is_trusted s r =
      s.local
      || has_peer r.tls
      || (text_eq (scheme_of (values r.header (codes "X-Forwarded-Proto")) r.scheme r.tls)
            (codes "https")
          && has_secret secret (basic_auth (values r.header (codes "Authorization"))))

  -- A client of the host itself, one with a certificate for the mutual authenticator, or one that names
  -- the secret as user or password over https.
  abbrev pub IsTrusted : ClientSession → Incoming → Type 0
  IsTrusted s r =
      (s.local ≡ true)
      ⊎ ((t : Tls) × (r.tls ≡ some t) × (0 < t.peer_certificates) × (t.server_name ≡ codes "pm3"))
      ⊎ (SaysHttps (values r.header (codes "X-Forwarded-Proto")) r.scheme r.tls
          × ((u pw : Text) × (basic_auth (values r.header (codes "Authorization")) ≡ some (u, pw))
              × ((u ≡ secret) ⊎ (pw ≡ secret))))
