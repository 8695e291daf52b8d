-- ===== src/Rate/Window/Carry.antt =====
-- The sliding window of rate/window.go: what its second window contributes.
use pmesh.Base.{
  ℕ, ◌+◌, ◌/◌, ◌%◌, ◌^◌, ◌<◌, ◌≡◌, refl, false, arith, leb, ◌⊎◌, inl, inr, ◌≢◌, Bool-cases,
}
use native.Mathlib.Nat.{sub-zero}
use pmesh.Base.Bits.{bit_and-one}
use pmesh.Rate.Window.{
  SlidingWindow, u32, stamp_of, read, inc, tick_of, carry, current, other, store, inc_sliding,
  read_sliding, reset, reset_sliding,
}
use pmesh.Rate.Window.Packing.{standing, inc_refused, inc_granted, pack_fields}

-- Each window is empty or was last written at a tick of its own parity.
pub record HasParity (w : SlidingWindow) : Type 0 where
  pub even_stamp : stamp_of w.even % 2 ≡ 0
  pub odd_stamp : (w.odd ≡ 0) ⊎ (stamp_of w.odd % 2 ≡ 1)

pub reset_sliding-HasParity : (w : SlidingWindow) → HasParity (reset_sliding w)
unfolding reset_sliding reset
reset_sliding-HasParity w = record { even_stamp = refl; odd_stamp = inl refl }

tick_of-lt : (s : ℕ) → tick_of s < 2 ^ 32
unfolding tick_of
tick_of-lt s = omega arith

read_stale : (v t : ℕ) → (v ≡ 0) ⊎ (stamp_of v ≢ t) → read v t ≡ 0
unfolding read
read_stale v t (inl e) = rw e (ground arith)
read_stale v t (inr d) = ground arith

read-other : (w : SlidingWindow) (t : ℕ) → HasParity w → t < 2 ^ 32 → read (other w t) t ≡ 0
unfolding other
read-other w t p ht = ground (arith, bit_and-one t, read_stale w.odd t, read_stale w.even t)

carry-zero : (s limit : ℕ) → carry s 0 limit ≡ 0
unfolding carry
carry-zero s limit = omega arith

inc_stamp :
    (w t limit : ℕ)
    → t < 2 ^ 32
    → limit < 2 ^ 32
    → ((inc w t limit).0 ≡ w) ⊎ (stamp_of (inc w t limit).0 ≡ t)
inc_stamp w t limit ht hl = elim (Bool-cases (leb limit (standing w t))) [
  | inl full ↦ inl (rw (inc_refused w t limit (ground arith)))
  | inr room ↦ inr (
      rw (inc_granted w t limit (ground arith))
        (pack_fields (u32 (standing w t + 1)) t (omega arith) ht).1)
]

leb_zero : (n : ℕ) → 0 < n → leb n 0 ≡ false
leb_zero n h = ground arith

read-lt : (v t : ℕ) → read v t < 2 ^ 32
unfolding read
read-lt v t = ground arith

-- Nothing is carried over: on a window that the code itself has written, the window of the other
-- parity reads as zero at every tick, so `Inc` is the `Inc` of one fixed window at the full limit
-- and `Read` is its count.
pub sliding_is_fixed :
    (w : SlidingWindow) (s limit : ℕ)
    → HasParity w
    → 0 < limit
    → (inc_sliding w s limit ≡ (
      store w (tick_of s) (inc (current w (tick_of s)) (tick_of s) limit).0,
      (inc (current w (tick_of s)) (tick_of s) limit).1,
    ))
      × (read_sliding w s limit ≡ read (current w (tick_of s)) (tick_of s))
unfolding inc_sliding read_sliding
sliding_is_fixed w s limit p h =
    let t = tick_of s in
    let stale = read-other w t p (tick_of-lt s) in
    let none_carried = carry-zero s (limit / 2) in
    (
      rw (stale, none_carried) (rw (leb_zero limit h, sub-zero)),
      rw (stale, none_carried) (omega (arith, read-lt (current w t) t)),
    )

-- A request leaves each window empty or stamped with a tick of its own parity.
pub inc_sliding-HasParity :
    (w : SlidingWindow) (s limit : ℕ)
    → HasParity w
    → 0 < limit
    → limit < 2 ^ 32
    → HasParity (inc_sliding w s limit).0
unfolding current
inc_sliding-HasParity w s limit p h hl =
    let t = tick_of s in
    rw ((sliding_is_fixed w s limit p h).0) (record {
      even_stamp = ground (arith, bit_and-one t, inc_stamp w.even t limit (tick_of-lt s) hl);
      odd_stamp = ground (arith, bit_and-one t, inc_stamp w.odd t limit (tick_of-lt s) hl);
    })
