-- ===== src/Ids/Ray.antt =====
-- ray/id.go and ray/host.go: a ray is a snowflake identifier with the three letters of its host. Its
-- text is sixteen hexadecimal digits, a dash and the host; package hex is written out.
pub mod RoundTrip
use pmesh.Base.{
  ℕ, zero, suc, ◌+◌, ◌-◌, ◌*◌, ◌/◌, ◌%◌, Bool, ◌&&◌, Option, none, some, List, [], ◌∷◌, ◌++◌, ◌==◌,
  leb, if◌then◌else◌, take, drop, true, false,
}
use pmesh.Base.Text.{Text, text_eq}

pub record Host : Type 0 where
  pub a : ℕ
  pub b : ℕ
  pub c : ℕ

pub record Ray : Type 0 where
  pub id : ℕ
  pub host : Host

-- One letter of `Normal`.
unfoldable pub normal_letter : ℕ → ℕ
normal_letter c = if c == 0 then 88 else if leb 97 c && leb c 122 then c - 97 + 65 else c

unfoldable pub normal : Host → Host
normal p = record { a = normal_letter p.a; b = normal_letter p.b; c = normal_letter p.c }

-- `copy` into three zero bytes
unfoldable pub copy_host : Text → Host
copy_host [] = record { a = 0; b = 0; c = 0 }
copy_host (x ∷ []) = record { a = x; b = 0; c = 0 }
copy_host (x ∷ y ∷ []) = record { a = x; b = y; c = 0 }
copy_host (x ∷ y ∷ z ∷ s) = record { a = x; b = y; c = z }

unfoldable pub parse_host : Text → Host
parse_host s = normal (copy_host s)

unfoldable pub host_text : Host → Text
host_text p = let q = normal p in q.a ∷ q.b ∷ q.c ∷ []

unfoldable pub same_host : Host → Host → Bool
same_host p q = p.a == q.a && p.b == q.b && p.c == q.c

unfoldable pub equal_fold : Host → Text → Bool
equal_fold p s = same_host p (parse_host s)

-- `Host.UnmarshalText`
unfoldable pub unmarshal_host : Text → Option Host
unmarshal_host (x ∷ y ∷ z ∷ []) = some (normal (record { a = x; b = y; c = z }))
unmarshal_host _ = none

-- hex.Encode of the big-endian bytes: n digits.
unfoldable pub hex_digit : ℕ → ℕ
hex_digit d = if leb d 9 then 48 + d else 87 + d

unfoldable pub hex_encode : ℕ → ℕ → Text
hex_encode zero v = []
hex_encode (suc n) v = hex_encode n (v / 16) ++ hex_digit (v % 16) ∷ []

-- hex.Decode, which takes both cases of the letters.
unfoldable pub hex_value : ℕ → Option ℕ
hex_value c =
    if leb 48 c && leb c 57
    then some (c - 48)
    else if leb 97 c && leb c 102
    then some (c - 87)
    else if leb 65 c && leb c 70
    then some (c - 55)
    else none

unfoldable pub hex_decode : Text → ℕ → Option ℕ
hex_decode [] v = some v
hex_decode (c ∷ s) v = elim (hex_value c) [ none ↦ none | some d ↦ hex_decode s (v * 16 + d) ]

-- `ToArray`
unfoldable pub to_array : Ray → Text
to_array r = hex_encode 16 r.id ++ 45 ∷ r.host.a ∷ r.host.b ∷ r.host.c ∷ []

-- `UnmarshalText` from the seventeenth character on.
unfoldable pub read_tail : Text → Text → Option Ray
read_tail digits (dash ∷ x ∷ y ∷ z ∷ []) = elim (dash == 45) [
  | false ↦ none
  | true ↦ elim (hex_decode digits 0) [
    | none ↦ none
    | some v ↦ some (record { id = v; host = normal (record { a = x; b = y; c = z }) })
  ]
]
read_tail digits _ = none

unfoldable pub unmarshal : Text → Option Ray
unmarshal text = read_tail (take 16 text) (drop 16 text)
