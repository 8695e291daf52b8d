-- ===== src/Netx/Ip.antt =====
-- netx/ip.go: addresses as two 64-bit words, their byte form, and the forms "ip:port" and "ip/size".
-- netip.ParseAddr is a parameter: it gives the 4 or 16 bytes of an address, or none.
pub mod Bytes
pub mod Texts
use Prim.Native.Nat.{bit_and, bit_or}
use pmesh.Base.{
  ℕ, zero, suc, ◌+◌, ◌-◌, ◌*◌, ◌/◌, ◌%◌, ◌^◌, Bool, true, false, not, ◌&&◌, ◌||◌, Option, none,
  some, List, [], ◌∷◌, ◌==◌, ltb, leb, if◌then◌else◌, take, drop,
}
use pmesh.Base.Int.{ℤ, pos, ◌-ℤ◌, i64}

abbrev Byte : Type 0
Byte = ℕ

-- `parseUint` from the value read so far; `uint` has 64 bits and wraps.
unfoldable pub parse_uint : List Byte → ℕ → ℕ × Bool
parse_uint [] r = (r, true)
parse_uint (c ∷ b) r = elim (ltb c 48 || ltb 9 (c - 48)) [
  | true ↦ (r, false)
  | false ↦ parse_uint b ((r * 10 + (c - 48)) % 2 ^ 64)
]

unfoldable pub parse_uint8 : List Byte → ℕ × Bool
parse_uint8 b = let (r, ok) = parse_uint b 0 in (r % 2 ^ 8, ok && leb r 255)

unfoldable pub parse_uint16 : List Byte → ℕ × Bool
parse_uint16 b = let (r, ok) = parse_uint b 0 in (r % 2 ^ 16, ok && leb r 65535)

pub record Ip : Type 0 where
  pub low : ℕ
  pub high : ℕ

-- `IPv4`
unfoldable pub ipv4 : Byte → Byte → Byte → Byte → Ip
ipv4 a b c d = record {
  low = bit_or (bit_or (bit_or (bit_or 0xffff00000000 (a * 2 ^ 24)) (b * 2 ^ 16)) (c * 2 ^ 8)) d;
  high = 0;
}

-- binary.BigEndian.Uint64 of the first eight bytes
unfoldable pub big_endian : ℕ → List Byte → ℕ → ℕ
big_endian zero b r = r
big_endian (suc n) [] r = r
big_endian (suc n) (x ∷ b) r = big_endian n b (r * 2 ^ 8 + x)

abbrev pub has_length : ℕ → List Byte → Bool
has_length zero [] = true
has_length zero (x ∷ b) = false
has_length (suc n) [] = false
has_length (suc n) (x ∷ b) = has_length n b

unfoldable pub ip_from_slice : List Byte → Ip
ip_from_slice (a ∷ b ∷ c ∷ d ∷ []) = ipv4 a b c d
ip_from_slice s =
    if has_length 16 s
    then record { low = big_endian 8 (drop 8 s) 0; high = big_endian 8 s 0 }
    else record { low = 0; high = 0 }

-- `IPFromMask`; the argument is a uint8.
unfoldable pub ip_from_mask : ℕ → Ip
ip_from_mask ones =
    if leb 128 ones
    then record { low = 2 ^ 64 - 1; high = 2 ^ 64 - 1 }
    else if leb 64 ones
    then record { low = 2 ^ 64 - 1; high = 2 ^ bit_and ones 63 - 1 }
    else record { low = 2 ^ ones - 1; high = 0 }

-- The part of `Shr` behind its case for 64 and more; a shift by 64 gives zero.
unfoldable pub shift_words : ℕ → ℕ → ℕ → Ip
shift_words low high n = record {
  low = bit_or (low / 2 ^ n) (high * 2 ^ (64 - n) % 2 ^ 64);
  high = high / 2 ^ n;
}

unfoldable pub shr : Ip → ℕ → Ip
shr i n = if leb 64 n then shift_words i.high 0 (bit_and n 63) else shift_words i.low i.high n

unfoldable pub ip_or : Ip → Ip → Ip
ip_or i o = record { low = bit_or i.low o.low; high = bit_or i.high o.high }

unfoldable pub is_zero : Ip → Bool
is_zero i = i.low == 0 && i.high == 0

unfoldable pub is_v4 : Ip → Bool
is_v4 i = i.high == 0 && (i.low / 2 ^ 32 == 0xffff || i.low == 0)

-- binary.BigEndian.PutUint64
unfoldable pub put_big_endian : ℕ → List Byte → List Byte
put_big_endian v rest =
    v / 2 ^ 56 % 256
    ∷ v / 2 ^ 48 % 256
    ∷ v / 2 ^ 40 % 256
    ∷ v / 2 ^ 32 % 256
    ∷ v / 2 ^ 24 % 256
    ∷ v / 2 ^ 16 % 256
    ∷ v / 2 ^ 8 % 256
    ∷ v % 256
    ∷ rest

unfoldable pub to_slice : Ip → List Byte
to_slice i =
    if is_v4 i
    then (if i.low == 0
        then 0 ∷ 0 ∷ 0 ∷ 0 ∷ []
        else i.low / 2 ^ 24 % 256 ∷ i.low / 2 ^ 16 % 256 ∷ i.low / 2 ^ 8 % 256 ∷ i.low % 256 ∷ [])
    else put_big_endian i.high (put_big_endian i.low [])

-- `Compare`: the difference of the words, converted to int64.
unfoldable pub compare_ip : Ip → Ip → ℤ
compare_ip s o =
    if not (s.high == o.high) then i64 (pos s.high -ℤ pos o.high) else i64 (pos s.low -ℤ pos o.low)

unfoldable pub equal_ip : Ip → Ip → Bool
equal_ip s o = s.low == o.low && s.high == o.high

unfoldable pub is_unspecified : Ip → Bool
is_unspecified i = equal_ip i (ipv4 0 0 0 0) || is_zero i

unfoldable pub is_loopback : Ip → Bool
is_loopback i =
    if is_v4 i then i.low / 2 ^ 24 % 256 == 127 else equal_ip i (record { low = 1; high = 0 })

unfoldable pub is_private : Ip → Bool
is_private i =
    if is_v4 i
    then (let ip0 = i.low / 2 ^ 24 % 256 in
        let ip1 = i.low / 2 ^ 16 % 256 in
        ip0 == 10 || (ip0 == 172 && bit_and ip1 0xf0 == 16) || (ip0 == 192 && ip1 == 168))
    else bit_and (i.high / 2 ^ 56 % 256) 0xfe == 0xfc

unfoldable pub is_public : Ip → Bool
is_public i = not (is_loopback i) && not (is_unspecified i) && not (is_private i)

abbrev pub ParseAddr : Type 0
ParseAddr = List Byte → Option (List Byte)

-- `IP.UnmarshalText`; `none` is the error.
unfoldable pub unmarshal_ip : ParseAddr → List Byte → Option Ip
unmarshal_ip parse b = elim (parse b) [ none ↦ none | some a ↦ some (ip_from_slice a) ]

pub record IpPort : Type 0 where
  pub ip : Ip
  pub port : ℕ

-- bytes.LastIndexByte and bytes.IndexByte, `none` for -1
unfoldable pub last_index : List Byte → Byte → Option ℕ
last_index [] c = none
last_index (x ∷ b) c = elim (last_index b c) [
  | some i ↦ some (suc i)
  | none ↦ if x == c then some 0 else none
]

unfoldable pub index : List Byte → Byte → Option ℕ
index [] c = none
index (x ∷ b) c = elim (x == c) [
  | true ↦ some 0
  | false ↦ elim (index b c) [ none ↦ none | some i ↦ some (suc i) ]
]

-- What reading a text does: it is refused, read, or the slice expression panics.
pub data Reading {ℓ} (A : Type ℓ) : Type ℓ where
  refused panicked : Reading A
  read_as : A → Reading A

abbrev pub or_refused {ℓ κ} : {A : Type ℓ} {B : Type κ} → Option A → (A → B) → Reading B
or_refused none f = refused
or_refused (some a) f = read_as (f a)

abbrev pub starts_bracket : List Byte → Bool
starts_bracket [] = false
starts_bracket (x ∷ b) = x == 91

-- The address in front of the port: "[ip]:port" is cut at both ends.
unfoldable pub read_host : ParseAddr → List Byte → ℕ → ℕ → Reading IpPort
read_host parse b idx port =
    if starts_bracket b
    then (if ltb (idx - 1) 1
        then panicked
        else or_refused (unmarshal_ip parse (drop 1 (take (idx - 1) b)))
            (λ i. record { ip = i; port = port }))
    else or_refused (unmarshal_ip parse (take idx b)) (λ i. record { ip = i; port = port })

-- `IPPort.UnmarshalText`; what a refused text leaves in the fields is left out.
unfoldable pub unmarshal_ip_port : ParseAddr → List Byte → Reading IpPort
unmarshal_ip_port parse b = elim (last_index b 58) [
  | none ↦ refused
  | some zero ↦ refused
  | some (suc i) ↦
      let (port, ok) = parse_uint16 (drop (i + 2) b) in
      if ok then read_host parse b (suc i) port else refused
]

pub record IpNet : Type 0 where
  pub ip : Ip
  pub shift : ℕ

unfoldable pub limit : IpNet → Ip
limit n = ip_or n.ip (ip_from_mask n.shift)

unfoldable pub contains : IpNet → Ip → Bool
contains n o = equal_ip (shr n.ip n.shift) (shr o n.shift)

-- `IPNet.Size`: the ones of the mask as an int, and the bits.
unfoldable pub size : IpNet → ℤ × ℕ
size n = if is_v4 n.ip then (pos 32 -ℤ pos n.shift, 32) else (pos 128 -ℤ pos n.shift, 128)

unfoldable pub net_of : Ip → ℕ → IpNet
net_of i v = record {
  ip = i;
  shift = if is_v4 i then (32 + 256 - v) % 256 else (128 + 256 - v) % 256;
}

-- `IPNet.UnmarshalText`
unfoldable pub unmarshal_ip_net : ParseAddr → List Byte → Reading IpNet
unmarshal_ip_net parse b = elim (index b 47) [
  | none ↦ refused
  | some i ↦ elim (unmarshal_ip parse (take i b)) [
    | none ↦ refused
    | some ip ↦
        let (v, ok) = parse_uint8 (drop (i + 1) b) in if ok then read_as (net_of ip v) else refused
  ]
]
