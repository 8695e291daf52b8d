-- ===== src/Urlsigner/Digest.antt =====
-- urlsigner/digest.go: options, digests and their binary form. Texts are bytes, a buffer is the list
-- of the bytes that are left, a map the list of its entries in the order in which it is ranged over,
-- and a time the nanoseconds since 1970.
use pmesh.Base.{
  ◌>>=◌, ℕ, zero, suc, ◌+◌, ◌*◌, ◌/◌, ◌%◌, ◌&&◌, Option, none, some, List, [], ◌∷◌, ◌++◌, ltb, ◌==◌,
  if◌then◌else◌, length, drop,
}
use pmesh.Base.Int.{ℤ, pos, negsuc}
use pmesh.Base.Text.{Text, codes, text_eq, has_prefix}

abbrev pub Headers : Type 0
Headers = List (Text × Text)

pub record Options : Type 0 where
  pub url : Text
  pub expires : Option ℤ
  pub headers : Headers
  pub secret_headers : Headers
  pub rewrite : Text

pub record Digest : Type 0 where
  pub expires : Option ℤ
  pub headers : Headers
  pub secret_headers : Headers
  pub rewrite : Text

-- strings.TrimPrefix, strings.TrimSuffix, and the part before a character of strings.Cut
unfoldable pub trim_prefix : Text → Text → Text
trim_prefix s p = if has_prefix s p then drop (length p) s else s

unfoldable pub trim_slash : Text → Text
trim_slash [] = []
trim_slash (c ∷ []) = if c == 47 then [] else c ∷ []
trim_slash (c ∷ d ∷ s) = c ∷ trim_slash (d ∷ s)

unfoldable pub before : ℕ → Text → Text
before sep [] = []
before sep (c ∷ s) = let rest = before sep s in if c == sep then [] else c ∷ rest

-- `normalURL`
unfoldable pub normal_url : Text → Text
normal_url url =
    let host = trim_prefix (trim_prefix url (codes "http://")) (codes "https://") in
    before 63 (if length host == 1 then host else trim_slash host)

-- `Options.ToDigest`
unfoldable pub to_digest : Options → Digest
to_digest o = record {
  expires = o.expires;
  headers = o.headers;
  secret_headers = o.secret_headers;
  rewrite = normal_url o.rewrite;
}

unfoldable pub write_string : Text → Text
write_string s = s ++ 0 ∷ []

-- `bytes.Buffer.ReadString(0)` without its error: the bytes before the delimiter and behind it.
unfoldable pub until_nul : Text → Option (Text × Text)
until_nul [] = none
until_nul (c ∷ s) =
    let rest = until_nul s in
    if c == 0
    then some ([], s)
    else elim rest [ none ↦ none | some found ↦ some (c ∷ found.0, found.1) ]

-- `readString`: without a delimiter, `ReadString` has taken the rest of the buffer.
unfoldable pub read_string : Text → Text × Text
read_string s = elim (until_nul s) [ none ↦ ([], []) | some found ↦ found ]

unfoldable pub write_entries : Headers → Text
write_entries [] = []
write_entries ((k, v) ∷ m) =
    let rest = write_entries m in
    elim k [ [] ↦ rest | c ∷ k' ↦ write_string (c ∷ k') ++ (write_string v ++ rest) ]

-- `writeMap`
unfoldable pub write_map : Headers → Text
write_map m = write_entries m ++ 0 ∷ []

-- `m[k] = v`
unfoldable pub set_key : Headers → Text → Text → Headers
set_key [] k v = (k, v) ∷ []
set_key ((l, w) ∷ m) k v =
    let rest = set_key m k v in if text_eq l k then (k, v) ∷ m else (l, w) ∷ rest

-- `readMap`, on fuel for each round; none when the fuel runs out.
unfoldable pub read_entries : ℕ → Headers → Text → Option (Headers × Text)
read_entries zero m s = none
read_entries (suc fuel) m s =
    let key = read_string s in
    let value = read_string key.1 in
    elim (key.0) [
      | [] ↦ some (m, key.1)
      | c ∷ k ↦ read_entries fuel (set_key m (c ∷ k) value.0) value.1
    ]

unfoldable pub read_map : Text → Option (Headers × Text)
read_map s = read_entries (suc (length s)) [] s

-- binary.PutVarint and binary.ReadVarint: the sign in the lowest bit, then seven bits in a byte,
-- at most ten bytes.
abbrev pub zigzag : ℤ → ℕ
zigzag (pos n) = 2 * n
zigzag (negsuc n) = 2 * n + 1

abbrev pub unzigzag : ℕ → ℤ
unzigzag n = if n % 2 == 0 then pos (n / 2) else negsuc (n / 2)

unfoldable pub put_uvarint : ℕ → ℕ → Text
put_uvarint zero n = []
put_uvarint (suc fuel) n =
    let rest = put_uvarint fuel (n / 128) in if ltb n 128 then n ∷ [] else (n % 128 + 128) ∷ rest

unfoldable pub read_uvarint : ℕ → Text → Option (ℕ × Text)
read_uvarint zero s = none
read_uvarint (suc fuel) [] = none
read_uvarint (suc fuel) (b ∷ s) =
    let rest = read_uvarint fuel s in
    if ltb b 128
    then if fuel == 0 && ltb 1 b then none else some (b, s)
    else elim rest [ none ↦ none | some (n, left) ↦ some (b % 128 + 128 * n, left) ]

abbrev pub unix_milli : ℤ → ℤ
unix_milli (pos n) = pos (n / 1_000_000)
unix_milli (negsuc n) = negsuc (n / 1_000_000)

unfoldable pub write_time : Option ℤ → Text
write_time none = put_uvarint 10 (zigzag (negsuc 0))
write_time (some t) = put_uvarint 10 (zigzag (unix_milli t))

abbrev pub from_milli : ℤ → Option ℤ
from_milli (pos n) = some (pos (n * 1_000_000))
from_milli (negsuc n) = none

-- `readTime`: none is its error.
unfoldable pub read_time : Text → Option (Option ℤ × Text)
read_time s = elim (read_uvarint 10 s) [
  | none ↦ none
  | some (n, left) ↦ some (from_milli (unzigzag n), left)
]

-- `Digest.MarshalBinary`
unfoldable pub marshal : Digest → Text
marshal d =
    write_time d.expires
    ++ (write_map d.headers ++ (write_map d.secret_headers ++ write_string d.rewrite))

-- `Digest.UnmarshalBinary`
unfoldable pub unmarshal : Text → Option Digest
unmarshal blob = do
  (expires, s) ← read_time blob
  (headers, s) ← read_map s
  (secrets, s) ← read_map s
  some (record {
    expires = expires;
    headers = headers;
    secret_headers = secrets;
    rewrite = (read_string s).0;
  })
