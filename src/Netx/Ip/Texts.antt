-- ===== src/Netx/Ip/Texts.antt =====
-- Reading numbers, ports and sizes in netx/ip.go.
use pmesh.Base.{
  ℕ, ◌+◌, ◌-◌, ◌*◌, ◌%◌, ◌^◌, ◌≤◌, ◌<◌, ◌≡◌, refl, Bool, true, ◌&&◌, ◌||◌, List, [], ◌∷◌, leb, ltb,
  if◌then◌else◌, arith, Bool-cases, inl, inr, none,
}
use pmesh.Base.Int.{pos, ◌-ℤ◌}
use pmesh.Netx.Ip.{
  Ip, ParseAddr, parse_uint, parse_uint16, is_v4, net_of, size, last_index, read_host,
  unmarshal_ip_port, panicked,
}

-- The number that a text of digits spells, of any size, and whether all characters are digits.
unfoldable pub value : List ℕ → ℕ → ℕ
value [] r = r
value (c ∷ b) r = value b (r * 10 + (c - 48))

abbrev pub all_digits : List ℕ → Bool
all_digits [] = true
all_digits (c ∷ b) = (leb 48 c && leb c 57) && all_digits b

value-le : (b : List ℕ) (r : ℕ) → r ≤ value b r
unfolding value
value-le [] r = omega arith
value-le (c ∷ b) r = omega (arith, value-le b (r * 10 + (c - 48)))

parse_uint-value :
    (b : List ℕ) (r : ℕ)
    → value b r < 2 ^ 64
    → ((parse_uint b r).1 ≡ all_digits b) × (all_digits b ≡ true → (parse_uint b r).0 ≡ value b r)
unfolding parse_uint value
parse_uint-value [] r h = (refl, λ d. refl)
parse_uint-value (c ∷ b) r h =
    let r' = r * 10 + (c - 48) in
    let small : r' % 2 ^ 64 ≡ r' = omega (arith, value-le b r') in
    elim (Bool-cases (ltb c 48 || ltb 9 (c - 48))) [
      | inl bad ↦ rw (bad, parse_uint) (ground arith)
      | inr good ↦ rw (good, parse_uint, small) (ground (arith, parse_uint-value b r' h))
    ]

-- A port is read exactly where all characters are digits and the number is at most 65535, and as that
-- number, as long as the number fits 64 bits.
pub parse_uint16_lem :
    (b : List ℕ)
    → value b 0 < 2 ^ 64
    → ((parse_uint16 b).1 ≡ (all_digits b && leb (value b 0) 65535))
      × ((parse_uint16 b).1 ≡ true → (parse_uint16 b).0 ≡ value b 0)
unfolding parse_uint16
parse_uint16_lem b h =
    let p = parse_uint-value b 0 h in
    elim (Bool-cases (all_digits b)) [
      | inl d ↦ rw (p.0, p.1 d) (ground arith)
      | inr n ↦ rw (p.0, n) (ground arith)
    ]

last_index-digits : (b : List ℕ) → all_digits b ≡ true → last_index b 58 ≡ none
unfolding last_index
last_index-digits [] d = refl
last_index-digits (c ∷ b) d = rw (last_index-digits b (ground arith)) (ground arith)

-- A text of a bracket, a colon and a port crashes the reader: the slice that cuts the brackets off
-- ends before it starts.
pub unmarshal_ip_port-panicked :
    (parse : ParseAddr) (b : List ℕ)
    → all_digits b ≡ true
    → value b 0 ≤ 65535
    → unmarshal_ip_port parse (91 ∷ 58 ∷ b) ≡ panicked
unfolding unmarshal_ip_port last_index read_host
unmarshal_ip_port-panicked parse b d h =
    rw (last_index-digits b d, unmarshal_ip_port) (ground (arith, parse_uint16_lem b (omega arith)))

-- The size of a net is read back by `Size` where it is at most the number of bits of the address.
pub size-net_of :
    (i : Ip) (v : ℕ)
    → v ≤ (if is_v4 i then 32 else 128)
    → size (net_of i v) ≡ (pos v, if is_v4 i then 32 else 128)
unfolding size net_of ◌-ℤ◌
size-net_of i v h = ground arith
