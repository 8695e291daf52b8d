-- ===== src/Urlsigner/Signer.antt =====
-- urlsigner/signer.go: signatures of URLs and their check. The cipher (AES-GCM of the standard
-- library, with the signer's key) and base64 are arguments, as are the canonical form of header names
-- and the order in which Go goes over a map of secret headers; the random nonce and the clock too.
use pmesh.Base.{
  ℕ, Bool, true, false, not, Option, none, some, List, [], ◌∷◌, ◌++◌, ltb, ◌==◌, if◌then◌else◌,
  length, take, drop,
}
use pmesh.Base.Int.{ℤ, ltb_ℤ}
use pmesh.Base.Text.{Text, codes, text_eq}
use pmesh.Urlsigner.Digest.{
  Headers, Options, Digest, normal_url, to_digest, marshal, unmarshal, before,
}

pub record Cipher : Type 0 where
  pub nonce_size : ℕ
  pub seal : Text → Text → Text → Text
  pub open_ : Text → Text → Text → Option Text
  pub encode : Text → Text
  pub decode : Text → Option Text

-- `RawSign`: the nonce is the prefix that Seal appends to.
unfoldable pub raw_sign : Cipher → Text → Text → Text → Text
raw_sign c nonce blob ad = c.encode (nonce ++ c.seal nonce blob ad)

-- `RawAuthenticate`: none is an error. A text that is too short gives no error and no bytes.
unfoldable pub raw_authenticate : Cipher → Text → Text → Option Text
raw_authenticate c signature ad = elim (c.decode signature) [
  | none ↦ none
  | some bin ↦
      if ltb (length bin) c.nonce_size
      then some []
      else c.open_ (take c.nonce_size bin) (drop c.nonce_size bin) ad
]

-- `Sign`
unfoldable pub sign : Cipher → Text → Options → Text
sign c nonce o = raw_sign c nonce (marshal (to_digest o)) (normal_url o.url)

-- A request: its header, the text of its URL and that URL's query parameter `psn`, and what a rewrite
-- changes.
pub record Request : Type 0 where
  pub header : List (Text × List Text)
  pub url : Text
  pub query : Text
  pub host : Text
  pub url_host : Text
  pub path : Text

pub data AuthError : Type 0 where
  invalid_signature corrupt_signature expired_signature header_mismatch : AuthError

pub data Outcome : Type 0 where
  unsigned signed : Outcome
  failed : AuthError → Outcome

-- The values of a header map at a key.
unfoldable pub values : List (Text × List Text) → Text → List Text
values [] k = []
values ((l, vs) ∷ h) k = let rest = values h k in if text_eq l k then vs else rest

abbrev pub first_value : List Text → Text
first_value [] = []
first_value (v ∷ vs) = v

-- `r.Header[HdrSignature]` if it has one value, else the query parameter.
abbrev pub only_value : List Text → Text → Text
only_value [] other = other
only_value (v ∷ []) other = v
only_value (v ∷ w ∷ vs) other = other

unfoldable pub signature_of : Request → Text
signature_of r = only_value (values r.header (codes "X-Psn")) r.query

-- `Header.Set`, at a canonical key
unfoldable pub set_values : List (Text × List Text) → Text → Text → List (Text × List Text)
set_values [] k v = (k, v ∷ []) ∷ []
set_values ((l, vs) ∷ h) k v =
    let rest = set_values h k v in if text_eq l k then (k, v ∷ []) ∷ h else (l, vs) ∷ rest

-- strings.Cut at a slash: the part behind it, if there is one.
unfoldable pub behind_slash : Text → Option Text
behind_slash [] = none
behind_slash (c ∷ s) = let rest = behind_slash s in if c == 47 then some s else rest

abbrev pub is_empty : Text → Bool
is_empty [] = true
is_empty (c ∷ s) = false

-- The last step of `Authenticate`.
unfoldable pub rewrite_request : Text → Request → Request
rewrite_request [] r = r
rewrite_request (c ∷ s) r = elim (behind_slash (c ∷ s)) [
  | none ↦ record r { path = 47 ∷ c ∷ s }
  | some path ↦
      let host = before 47 (c ∷ s) in
      if is_empty host
      then record r { path = 47 ∷ c ∷ s }
      else record r { host = host; url_host = host; path = 47 ∷ path }
]

abbrev pub expired : ℤ → Option ℤ → Bool
expired now none = false
expired now (some t) = ltb_ℤ t now

module _ (canonical : Text → Text) where
  -- `Header.Get`
  abbrev pub get_header : List (Text × List Text) → Text → Text
  get_header h k = first_value (values h (canonical k))

  -- The loop that checks the headers.
  unfoldable pub headers_match : Headers → Request → Bool
  headers_match [] r = true
  headers_match ((k, v) ∷ m) r =
      let rest = headers_match m r in if text_eq (get_header r.header k) v then rest else false

  -- The loop that adds the secret headers.
  unfoldable pub add_secrets : Headers → Request → Request
  add_secrets [] r = r
  add_secrets ((k, v) ∷ m) r =
      add_secrets m (record r { header = set_values r.header (canonical k) v })

-- `range` gives the entries of a map in the order in which Go's `range` meets them.
module _ (canonical : Text → Text) (range : Headers → Headers) where
  -- `Authenticate` behind the reading of the digest.
  unfoldable pub accept : ℤ → Digest → Request → Request × Outcome
  accept now d r =
      if expired now d.expires
      then (r, failed expired_signature)
      else if not (headers_match canonical d.headers r)
      then (r, failed header_mismatch)
      else (rewrite_request d.rewrite (add_secrets canonical (range d.secret_headers) r), signed)

  abbrev pub check_digest : ℤ → Option Digest → Request → Request × Outcome
  check_digest now none r = (r, failed corrupt_signature)
  check_digest now (some d) r = accept now d r

  abbrev pub check_blob : ℤ → Option Text → Request → Request × Outcome
  check_blob now none r = (r, failed invalid_signature)
  check_blob now (some bin) r = check_digest now (unmarshal bin) r

  -- `Authenticate`
  unfoldable pub authenticate : Cipher → ℤ → Request → Request × Outcome
  authenticate c now r =
      if is_empty (signature_of r)
      then (r, unsigned)
      else check_blob now (raw_authenticate c (signature_of r) (normal_url r.url)) r
