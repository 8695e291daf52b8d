-- ===== src/Netx/Ip/Bytes.antt =====
-- The words of an address in netx/ip.go.
use Prim.Native.Nat.{bit_and, bit_or}
use pmesh.Base.{
  ℕ, ◌+◌, ◌*◌, ◌/◌, ◌^◌, ◌≤◌, ◌<◌, ◌≡◌, ◌≢◌, ◌∙◌, ap, ◌&&◌, ◌||◌, [], ◌∷◌, ◌==◌, leb, arith, ◌↔◌,
  ◌⊎◌,
}
use pmesh.Base.Int.{pos, ◌-ℤ◌, ◌+ℤ◌, ◌<ℤ◌, i64}
use pmesh.Base.Bits.{bit_or_disjoint, bit_and_shifted, bit_and-ones, ones}
use pmesh.Netx.Ip.{Ip, ipv4, is_v4, to_slice, ip_from_slice, compare_ip, is_private}

ipv4-low :
    (a b c d : ℕ)
    → a < 256
    → b < 256
    → c < 256
    → d < 256
    → (ipv4 a b c d).low ≡ 0xffff00000000 + a * 2 ^ 24 + b * 2 ^ 16 + c * 2 ^ 8 + d
unfolding ipv4
ipv4-low a b c d ha hb hc hd =
    ap (λ (t : ℕ). bit_or (bit_or (bit_or t (b * 2 ^ 16)) (c * 2 ^ 8)) d)
      (bit_or_disjoint 32 0xffff (a * 2 ^ 24) (omega arith))
    ∙ ap (λ (t : ℕ). bit_or (bit_or (bit_or t (b * 2 ^ 16)) (c * 2 ^ 8)) d) (omega arith)
    ∙ ap (λ (t : ℕ). bit_or (bit_or t (c * 2 ^ 8)) d)
        (bit_or_disjoint 24 (0xffff00 + a) (b * 2 ^ 16) (omega arith))
    ∙ ap (λ (t : ℕ). bit_or (bit_or t (c * 2 ^ 8)) d) (omega arith)
    ∙ ap (λ (t : ℕ). bit_or t d)
        (bit_or_disjoint 16 (0xffff0000 + a * 256 + b) (c * 2 ^ 8) (omega arith))
    ∙ ap (λ (t : ℕ). bit_or t d) (omega arith)
    ∙ bit_or_disjoint 8 (0xffff000000 + a * 65536 + b * 256 + c) d (omega arith)
    ∙ omega arith

-- The four bytes of an address are read back, whatever they are.
pub to_slice-ip_from_slice :
    (a b c d : ℕ)
    → a < 256
    → b < 256
    → c < 256
    → d < 256
    → to_slice (ip_from_slice (a ∷ b ∷ c ∷ d ∷ [])) ≡ a ∷ b ∷ c ∷ d ∷ []
unfolding to_slice ip_from_slice is_v4 ipv4
to_slice-ip_from_slice a b c d ha hb hc hd = rw (ipv4-low a b c d ha hb hc hd) (ground arith)

-- `Compare` has the sign of the order on the upper words only while these are less than 2 ^ 63 apart;
-- further apart the difference wraps, and the order is reversed.
pub compare_ip-sign :
    (s o : Ip)
    → s.high < 2 ^ 64
    → o.high < 2 ^ 64
    → s.high ≢ o.high
    → (compare_ip s o <ℤ pos 0)
      ↔ (((s.high < o.high) × (o.high ≤ s.high + 2 ^ 63)) ⊎ (o.high + 2 ^ 63 ≤ s.high))
unfolding compare_ip i64 ◌-ℤ◌ ◌+ℤ◌
compare_ip-sign s o hs ho h = ground arith

high_digits : (b : ℕ) → b < 256 → bit_and b 240 ≡ b / 16 * 16
unfolding ones
high_digits b h = omega (arith, bit_and_shifted 4 b 15, bit_and-ones 4 (b / 16))

-- RFC 1918: the private addresses of version 4.
pub is_private-ipv4 :
    (a b c d : ℕ)
    → a < 256
    → b < 256
    → c < 256
    → d < 256
    → is_private (ipv4 a b c d)
      ≡ (a == 10 || (a == 172 && (leb 16 b && leb b 31)) || (a == 192 && b == 168))
unfolding is_private is_v4 ipv4
is_private-ipv4 a b c d ha hb hc hd =
    rw (ipv4-low a b c d ha hb hc hd) (ground (arith, high_digits b hb))
