-- ===== src/Rate/Window/Packing.antt =====
-- What the packed word of rate/window.go holds, and what one `Inc` does to it.
use pmesh.Base.{
  ℕ, ◌+◌, ◌*◌, ◌^◌, ◌≤◌, ◌<◌, ◌≡◌, ap, ◌∙◌, true, false, arith, ltb, ◌==◌, if◌then◌else◌, bit_or,
}
use pmesh.Base.Bits.{bit_or_disjoint}
use pmesh.Rate.Window.{Window, u32, u64, count_of, stamp_of, pack, inc}

pub pack-sum : (c n : ℕ) → c < 2 ^ 32 → n < 2 ^ 32 → pack c n ≡ c * 2 ^ 32 + n
unfolding pack
pack-sum c n hc hn =
    let e : u64 (c * 2 ^ 32) ≡ c * 2 ^ 32 = omega arith in
    ap (λ (t : ℕ). bit_or t n) e ∙ bit_or_disjoint 32 c n hn

pub pack_fields :
    (c n : ℕ) → c < 2 ^ 32 → n < 2 ^ 32 → (count_of (pack c n) ≡ c) × (stamp_of (pack c n) ≡ n)
pack_fields c n hc hn = rw (pack-sum c n hc hn) (omega arith)

-- The count that a request at the tick starts from.
abbrev pub standing : Window → ℕ → ℕ
standing w now = if ltb (stamp_of w) now then 0 else count_of w

pub inc_refused : (w now limit : ℕ) → limit ≤ standing w now → inc w now limit ≡ (w, false)
unfolding inc
inc_refused w now limit h = ground arith

pub inc_granted :
    (w now limit : ℕ)
    → standing w now < limit
    → inc w now limit ≡ (pack (u32 (standing w now + 1)) now, true)
unfolding inc
inc_granted w now limit h = ground arith

pub standing-pack :
    (c n now : ℕ)
    → c < 2 ^ 32
    → n < 2 ^ 32
    → n ≤ now
    → standing (pack c n) now ≡ (if n == now then c else 0)
standing-pack c n now hc hn h = ground (arith, pack_fields c n hc hn)
