-- ===== src/Urlsigner/Tests.antt =====
-- A signed download of urlsigner.
use pmesh.Base.{◌≡◌, ◌≢◌, refl, none, some, [], ◌∷◌, arith, if◌then◌else◌, Bool-cases, inl, inr}
use pmesh.Base.Int.{pos, negsuc}
use pmesh.Base.Text.{codes, text_eq, eq_of_text_eq, has_prefix}
use pmesh.Urlsigner.Digest.{
  Options, normal_url, to_digest, marshal, unmarshal, trim_prefix, trim_slash, before, write_time,
  write_map, write_entries, write_string, put_uvarint, read_time, read_uvarint, read_map,
  read_entries, read_string, until_nul, set_key,
}
use pmesh.Urlsigner.RoundTrip.{IsDigest, unmarshal-marshal}
use pmesh.Urlsigner.Signer.{
  Cipher, raw_authenticate, Request, authenticate, accept, signature_of, values, headers_match,
}
use pmesh.Urlsigner.Safety.{authenticate_sound, IsUnforged, IsAccepted}

abbrev offer : Options
offer = record {
  url = codes "https://h/a";
  expires = some (pos 2_500_000);
  headers = (codes "X-U", codes "7") ∷ [];
  secret_headers = [];
  rewrite = [];
}

-- A time before 1970 is lost: what is read back never expires.
unmarshal-marshal_example :
    unmarshal (marshal (record (to_digest offer) { expires = some (negsuc 5) }))
    ≡ some (record (to_digest offer) { expires = none })
unfolding to_digest normal_url trim_prefix trim_slash before has_prefix text_eq
unmarshal-marshal_example =
    unmarshal-marshal (record (to_digest offer) { expires = some (negsuc 5) })
      (
        omega arith,
        (omega arith, (omega arith, (omega arith, (omega arith, tt))), (omega arith, tt), tt, tt),
        tt,
        tt,
      )

-- The slash at the end is cut off only where no query follows.
normal_url_slash : normal_url (codes "h/a/?psn=s") ≢ normal_url (codes "h/a/")
unfolding normal_url trim_prefix trim_slash before has_prefix text_eq
normal_url_slash e = ground arith

abbrev plain : Cipher
plain = record {
  nonce_size = 1;
  seal = λ nonce blob ad. blob;
  open_ = λ nonce blob ad. some blob;
  encode = λ b. b;
  decode = λ b. some b;
}

abbrev download : Request
download = record {
  header = (codes "X-U", codes "7" ∷ []) ∷ [];
  url = codes "http://h/a?x";
  query = 9 ∷ 4 ∷ 88 ∷ 45 ∷ 85 ∷ 0 ∷ 55 ∷ 0 ∷ 0 ∷ 0 ∷ 0 ∷ [];
  host = [];
  url_host = [];
  path = [];
}

-- A cipher that opens one blob, under the URL of the offer.
abbrev once : Cipher
once = record {
  nonce_size = 0;
  seal = λ nonce blob ad. blob;
  open_ = λ nonce blob ad.
      if text_eq ad (normal_url offer.url) then some (marshal (to_digest offer)) else none;
  encode = λ b. b;
  decode = λ b. some b;
}

once-IsUnforged : IsUnforged (λ k. k) (λ m. m) (λ o. o ≡ offer) once
unfolding raw_authenticate
once-IsUnforged s ad bin e ne = elim (Bool-cases (text_eq ad (normal_url offer.url))) [
  | inl same ↦ (offer, refl, eq_of_text_eq ad (normal_url offer.url) same, ground arith)
  | inr other ↦ absurd (ground arith)
]

offer-IsDigest : (o : Options) → o ≡ offer → IsDigest (to_digest o)
unfolding to_digest normal_url trim_prefix trim_slash before has_prefix text_eq
offer-IsDigest o e = rw e (
  omega arith,
  (omega arith, (omega arith, (omega arith, (omega arith, tt))), (omega arith, tt), tt, tt),
  tt,
  tt,
)

authenticate_sound_example :
    (o : Options) × (o ≡ offer)
    × IsAccepted (λ k. k) (λ m. m) (codes "X-U") once (pos 1_000_000) download o
unfolding authenticate raw_authenticate accept unmarshal marshal write_time write_map write_entries
    write_string put_uvarint to_digest normal_url trim_prefix trim_slash before has_prefix text_eq
    signature_of values read_time read_uvarint read_map read_entries read_string until_nul set_key
    headers_match
authenticate_sound_example =
    authenticate_sound (λ k. k) (λ m. m) (λ o. o ≡ offer) once (pos 1_000_000) download
      (codes "X-U") (λ m n v. ((λ h. h), (λ h. h))) once-IsUnforged offer-IsDigest refl
