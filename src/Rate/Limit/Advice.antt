-- ===== src/Rate/Limit/Advice.antt =====
-- Validation of the options, and the advice of `OnExceed`, in rate/limit.go.
use pmesh.Base.{
  ℕ, ◌*◌, ◌/◌, ◌%◌, ◌^◌, ◌≡◌, ◌∙◌, ◌≢◌, ◌⊎◌, inl, inr, Option-cases, leb, if◌then◌else◌, ◌&&◌, ◌||◌,
  Bool, true, false, not, none, some, arith, Bool-cases, ◌↔◌,
}
use native.Mathlib.Nat.{div-div-eq-div-mul, mul-div-mul_right}
use pmesh.Base.Int.{pos, ◌≤ℤ◌, ◌<ℤ◌, ltb_ℤ}
use pmesh.Rate.Window.Packing.{standing}
use pmesh.Rate.Window.{u32, u64, inc, to_subticks, tick_of, to_ticks}
use pmesh.Rate.Limit.{
  Rate, Options, LimitCounter, RateError, zero_rate, is_zero, is_positive, interval, ticks, Invalid,
  rate_unspecified, burst_negative, valid, invalid, validate, block, on_exceed,
}

-- Accepted options have no negative burst and no negative period, their rate is positive or zero,
-- nothing but the rate is changed, and validating them again changes nothing.
pub validate_sound :
    (l l' : Options)
    → validate l ≡ valid l'
    → (pos 0 ≤ℤ l.burst)
      × (pos 0 ≤ℤ l.rate.period)
      × (l' ≡ record l { rate = l'.rate })
      × ((is_positive l'.rate ≡ true) ⊎ (l'.rate ≡ zero_rate))
      × (validate l' ≡ valid l')
unfolding validate is_positive
validate_sound l l' h = (ground arith, ground arith, ground arith, ground arith, ground arith)

refused :
    (l : Options)
    → (l.rate.period <ℤ pos 0) ⊎ (l.burst <ℤ pos 0)
    → (e : Invalid) × (validate l ≡ invalid e)
unfolding validate
refused l h = elim (Bool-cases (ltb_ℤ l.rate.period (pos 0))) [
  | inl e ↦ (rate_unspecified, rw e)
  | inr n ↦ (burst_negative, ground arith)
]

-- Options are refused exactly when their period or their burst is negative.
pub validate_refused :
    (l : Options)
    → ((e : Invalid) × (validate l ≡ invalid e)) ↔ ((l.rate.period <ℤ pos 0) ⊎ (l.burst <ℤ pos 0))
unfolding validate
validate_refused l = (λ (e, h). ground arith, λ h. refused l h)

-- The block window has no room left for a request at tick t.
abbrev full_at : Options → LimitCounter → ℕ → Bool
full_at l lc t = leb (u32 l.block_after.count) (standing lc.block_window t)

-- Whether a client is to be blocked, at a clock reading.
abbrev pub blocks : Options → ℕ → LimitCounter → Bool
blocks l now lc =
    ltb_ℤ (pos 0) l.block_for
    && (is_zero l.block_after
        || elim (ticks now l.block_after.period) [ none ↦ false | some t ↦ full_at l lc t ])

inc_answer : (w t limit : ℕ) → (inc w t limit).1 ≡ not (leb limit (standing w t))
unfolding inc
inc_answer w t limit = ground arith

block-blocks :
    (l : Options) (now : ℕ) (lc lc' : LimitCounter) (b : Bool)
    → block l now lc ≡ some (b, lc')
    → (b ≡ blocks l now lc) × (lc'.queue ≡ lc.queue) × (lc'.sliding ≡ lc.sliding)
unfolding block
block-blocks l now lc lc' b h = elim (Option-cases (ticks now l.block_after.period)) [
  | inl e ↦ ground arith
  | inr (t, e) ↦ ground (arith, inc_answer lc.block_window t (u32 l.block_after.count))
]

-- The advice on an exceeded limit: the retry is never negative, the header is suppressed unless the
-- options ask for it, and the client is blocked for `block_for` exactly when that is positive and
-- the block window has no room left (or the options name none). Only the block window changes.
pub on_exceed_lem :
    (l : Options) (now : ℕ) (lc : LimitCounter) (e : RateError) (lc' : LimitCounter)
    → on_exceed l now lc ≡ some (e, lc')
    → (pos 0 ≤ℤ e.retry_after)
      × (e.no_header ≡ not l.advise_client)
      × (e.block_until ≡ (if blocks l now lc then l.block_for else pos 0))
      × (lc'.queue ≡ lc.queue)
      × (lc'.sliding ≡ lc.sliding)
unfolding on_exceed
on_exceed_lem l now lc e lc' h = elim (Option-cases (interval l.rate)) [
  | inl p ↦ absurd (ground arith)
  | inr (base, p) ↦ elim (Option-cases (block l now lc)) [
    | inl q ↦ absurd (ground arith)
    | inr ((b, lc''), q) ↦
        let f = block-blocks l now lc lc'' b q in
        (ground arith, ground arith, ground arith, ground arith, ground arith)
  ]
]

block-ne-none : (l : Options) (now : ℕ) (lc : LimitCounter) → block l now lc ≢ none
unfolding block is_zero ticks to_ticks
block-ne-none l now lc h = ground arith

interval-ne-none : (r : Rate) → is_positive r ≡ true → interval r ≢ none
unfolding interval is_positive
interval-ne-none r h = ground arith

-- With a positive rate the advice never panics, whatever the other options are.
pub on_exceed-ne-none :
    (l : Options) (now : ℕ) (lc : LimitCounter)
    → is_positive l.rate ≡ true
    → on_exceed l now lc ≢ none
unfolding on_exceed
on_exceed-ne-none l now lc h = ground (arith, block-ne-none l now lc, interval-ne-none l.rate)

drop_low_byte : (x dur : ℕ) → x * 256 / dur / 256 ≡ x / dur
drop_low_byte x dur = div-div-eq-div-mul (x * 256) dur 256 ∙ mul-div-mul_right x dur (omega arith)

-- The tick inside a subtick is the clock's tick only up to 2 ^ 56 nanoseconds, 834 days: the shift by
-- eight bits drops the clock's highest byte before the division.
pub tick_of-to_subticks :
    (now dur : ℕ) {s : ℕ} → to_subticks now dur ≡ some s → tick_of s ≡ u32 (now % 2 ^ 56 / dur)
unfolding tick_of to_subticks
tick_of-to_subticks now dur h =
    let e : u64 (now * 2 ^ 8) ≡ now % 2 ^ 56 * 256 = omega arith in
    ground (arith, drop_low_byte (now % 2 ^ 56) dur)
