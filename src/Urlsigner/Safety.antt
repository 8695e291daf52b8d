-- ===== src/Urlsigner/Safety.antt =====
-- What the check of urlsigner/signer.go lets through.
use pmesh.Base.{
  ◌≡◌, ◌≢◌, ◌⊎◌, Option, refl, sym, ap, ◌∙◌, true, false, some, [], ◌∷◌, Bool-cases, Option-cases,
  inl, inr, arith,
}
use pmesh.Base.Int.{ℤ, ◌<ℤ◌}
use pmesh.Base.Text.{Text}
use pmesh.Urlsigner.Digest.{
  Headers, Options, Digest, normal_url, to_digest, marshal, unmarshal, read_time, read_uvarint,
}
use pmesh.Urlsigner.RoundTrip.{IsDigest, to_milli, unmarshal-marshal}
use pmesh.Urlsigner.Conditions.{IsInTime, IsInTime-expired, HasHeaders, HasHeaders-headers_match}
use pmesh.Urlsigner.Rewriting.{IsRewritten, accepted-IsRewritten}
use pmesh.Urlsigner.Secrets.{IsRange, IsSetBy, accepted-IsSetBy}
use pmesh.Urlsigner.Signer.{
  Cipher, raw_authenticate, Request, Outcome, failed, expired_signature, header_mismatch, signed,
  values, signature_of, is_empty, rewrite_request, expired, headers_match, add_secrets, accept,
  check_digest, check_blob, authenticate,
}

-- The cipher and base64 give back what they were given.
abbrev pub IsInverse : Cipher → Type 0
IsInverse c =
    ((b : Text) → c.decode (c.encode b) ≡ some b)
    × ((nonce blob ad : Text) → c.open_ nonce (c.seal nonce blob ad) ad ≡ some blob)

module _ (canonical : Text → Text) (range : Headers → Headers) where
  -- The three ends of `accept`: the time has passed, a header is missing, or it is signed.
  abbrev pub Judged : Text → ℤ → Option ℤ → Digest → Request → Request × Outcome → Type 0
  Judged k now expires d r answer =
      ((t : ℤ) × (expires ≡ some t) × (t <ℤ now) × (answer ≡ (r, failed expired_signature)))
      ⊎ (IsInTime now expires
          × (¬ (HasHeaders canonical r d.headers))
          × (answer ≡ (r, failed header_mismatch)))
      ⊎ (IsInTime now expires
          × HasHeaders canonical r d.headers
          × (answer ≡ (
            rewrite_request d.rewrite (add_secrets canonical (range d.secret_headers) r),
            signed,
          ))
          × IsSetBy canonical d.secret_headers k (values r.header k) (values answer.0.header k)
          × IsRewritten d.rewrite r answer.0)

  accept_signed :
      (now : ℤ) (d : Digest) (r : Request)
      → (accept canonical range now d r).1 ≡ signed
      → (expired now d.expires ≡ false)
        × (headers_match canonical d.headers r ≡ true)
        × ((accept canonical range now d r).0
            ≡ rewrite_request d.rewrite (add_secrets canonical (range d.secret_headers) r))
  unfolding accept
  accept_signed now d r e = elim (Bool-cases (expired now d.expires)) [
    | inl late ↦ absurd (ground arith)
    | inr in_time ↦ elim (Bool-cases (headers_match canonical d.headers r)) [
      | inl same ↦ (in_time, same, rw (in_time, same, accept) refl)
      | inr different ↦ absurd (ground arith)
    ]
  ]

  -- What was opened is a digest that is accepted, or the request is refused.
  check_blob_signed :
      (now : ℤ) (bin : Text) (d : Digest) (r : Request)
      → unmarshal bin ≡ some d
      → (check_blob canonical range now (some bin) r).1 ≡ signed
      → (expired now d.expires ≡ false)
        × (headers_match canonical d.headers r ≡ true)
        × ((check_blob canonical range now (some bin) r).0
            ≡ rewrite_request d.rewrite (add_secrets canonical (range d.secret_headers) r))
  check_blob_signed now bin d r u e =
      rw u (accept_signed now d r (ap (λ v. (check_digest canonical range now v r).1) (sym u) ∙ e))

  authenticate_opened :
      (c : Cipher) (now : ℤ) (r : Request) (bin : Text)
      → is_empty (signature_of r) ≡ false
      → raw_authenticate c (signature_of r) (normal_url r.url) ≡ some bin
      → authenticate canonical range c now r ≡ check_blob canonical range now (some bin) r
  unfolding authenticate
  authenticate_opened c now r bin present e = rw (present, e, authenticate) refl

  unsigned_empty : (now : ℤ) (r : Request) → (check_blob canonical range now (some []) r).1 ≢ signed
  unfolding unmarshal read_time read_uvarint
  unsigned_empty now r h = ground arith

  -- The options of which a request is accepted: their URL has the normal form of the request's, their
  -- time is none or not before now, the request has their headers, and is changed as they say.
  abbrev pub IsAccepted : Text → Cipher → ℤ → Request → Options → Type 0
  IsAccepted k c now r o =
      (normal_url r.url ≡ normal_url o.url)
      × IsInTime now (to_milli o.expires)
      × HasHeaders canonical r o.headers
      × ((authenticate canonical range c now r).0
          ≡ rewrite_request (normal_url o.rewrite)
              (add_secrets canonical (range o.secret_headers) r))
      × IsSetBy canonical o.secret_headers k (values r.header k)
          (values (authenticate canonical range c now r).0.header k)
      × IsRewritten (normal_url o.rewrite) r (authenticate canonical range c now r).0

module _ {ℓ} (canonical : Text → Text) (range : Headers → Headers) (Issued : Options → Type ℓ) where
  -- What the cipher opens, some call of `Sign` has sealed: no one else has the key.
  abbrev pub IsUnforged : Cipher → Type ℓ
  IsUnforged c =
      (s ad bin : Text)
      → raw_authenticate c s ad ≡ some bin
      → bin ≢ []
      → (o : Options) × Issued o × (ad ≡ normal_url o.url) × (bin ≡ marshal (to_digest o))

  -- A request that is accepted as signed carries a signature that was issued, for a URL of the same
  -- normal form, whose headers the request has and whose time, up to its milliseconds, has not passed,
  -- where a time before 1970 counts as none; it is changed by what was signed and by nothing else. At each
  -- key k its header has the one value that the secret headers have for it, or what it had, if they have
  -- none, and its host and path are as the rewrite says, as they were for an empty one. This holds where
  -- the cipher opens only what was issued, the options have texts without NUL and maps with different
  -- keys that are not empty, and going over a map meets its entries and no others.
  pub authenticate_sound :
      (c : Cipher) (now : ℤ) (r : Request) (k : Text)
      → IsRange range
      → IsUnforged c
      → ((o : Options) → Issued o → IsDigest (to_digest o))
      → (authenticate canonical range c now r).1 ≡ signed
      → (o : Options) × Issued o × IsAccepted canonical range k c now r o
  unfolding authenticate to_digest
  authenticate_sound c now r k every h w e = elim (Bool-cases (is_empty (signature_of r))) [
    | inl no_signature ↦ absurd (ground arith)
    | inr present ↦ elim (Option-cases (raw_authenticate c (signature_of r) (normal_url r.url))) [
      | inl invalid ↦ absurd (ground arith)
      | inr ([], short) ↦
          let read = authenticate_opened canonical range c now r [] present short in
          absurd (unsigned_empty canonical range now r (ap (λ p. p.1) (sym read) ∙ e))
      | inr (b ∷ bin, open_) ↦
          let read = authenticate_opened canonical range c now r (b ∷ bin) present open_ in
          let (o, issued, u, sealed) =
            h (signature_of r) (normal_url r.url) (b ∷ bin) open_ (λ f. ground arith) in
          let d = unmarshal-marshal (to_digest o) (w o issued) in
          let (in_time, same, changed) =
            check_blob_signed canonical range now (b ∷ bin) _ r (ap unmarshal sealed ∙ d)
              (ap (λ p. p.1) (sym read) ∙ e) in
          (
            o,
            issued,
            (
              u,
              IsInTime-expired now (to_milli o.expires) in_time,
              HasHeaders-headers_match canonical o.headers r same,
              ap (λ p. p.0) read ∙ changed,
              rw (ap (λ p. p.0) read ∙ changed) (
                  accepted-IsSetBy canonical range o.secret_headers (normal_url o.rewrite) r k
                    every),
              rw (ap (λ p. p.0) read ∙ changed) (
                  accepted-IsRewritten canonical (range o.secret_headers) (normal_url o.rewrite) r),
            ),
          )
    ]
  ]
