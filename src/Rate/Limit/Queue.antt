-- ===== src/Rate/Limit/Queue.antt =====
-- The backpressure queue of rate/limit.go, for one caller and for many that interleave.
use pmesh.Base.{
  ℕ, ◌+◌, ◌-◌, ◌≡◌, inl, inr, false, Option, some, ◌==◌, arith, Option-cases, if◌then◌else◌,
}
use pmesh.Base.Int.{ℤ, pos, leb_ℤ}
use pmesh.Rate.Window.{u32, inc_sliding, max_counter}
use pmesh.Rate.Limit.{
  Options, LimitCounter, RateError, Probe, granted, exceeded, joining, Ticket, refused,
  deadline_exceeded, waiting, Verdict, Env, on_exceed, subticks, probe, join, wake, leave, enforce,
  exceed, settle, dispatch,
}
use pmesh.Rate.Limit.Advice.{on_exceed_lem}

on_exceed-queue :
    (l : Options) (now : ℕ) (lc : LimitCounter) (e : RateError) (lc' : LimitCounter)
    → on_exceed l now lc ≡ some (e, lc')
    → lc'.queue ≡ lc.queue
on_exceed-queue l now lc e lc' h = (on_exceed_lem l now lc e lc' h).3

exceed-queue :
    (l : Options) (now : ℕ) (lc : LimitCounter) (p : Probe) (lc' : LimitCounter)
    → exceed l now lc ≡ some (p, lc')
    → (lc'.queue ≡ lc.queue) × ((e : RateError) × (p ≡ exceeded e))
unfolding exceed
exceed-queue l now lc p lc' h = elim (Option-cases (on_exceed l now lc)) [
  | inl e ↦ absurd (ground arith)
  | inr ((x, lc''), e) ↦ (ground (arith, on_exceed-queue l now lc x lc'' e), (x, ground arith))
]

-- The probe does not move the queue.
pub probe-queue :
    (l : Options) (now : ℕ) (lc : LimitCounter) (p : Probe) (lc' : LimitCounter)
    → probe l now lc ≡ some (p, lc')
    → lc'.queue ≡ lc.queue
unfolding probe
probe-queue l now lc p lc' h = elim (Option-cases (subticks now l.rate.period)) [
  | inl e ↦ ground (arith, exceed-queue l now lc p lc')
  | inr (s, e) ↦
      let lim = if u32 l.rate.count == 0 then max_counter else u32 l.rate.count in
      let lc₁ = record lc { sliding = (inc_sliding lc.sliding s lim).0 } in
      ground (arith, exceed-queue l now lc p lc', exceed-queue l now lc₁ p lc')
]

-- Joining takes one place, and a place that waits is below the burst.
pub join-queue :
    (l : Options) (now : ℕ) (left : Option ℤ) (lc : LimitCounter) (t : Ticket) (lc' : LimitCounter)
    → join l now left lc ≡ some (t, lc')
    → (lc'.queue ≡ lc.queue + 1) × ((d : ℤ) → t ≡ waiting d → leb_ℤ l.burst (pos lc'.queue) ≡ false)
unfolding join
join-queue l now left lc t lc' h =
    let lc₁ = record lc { queue = lc.queue + 1 } in
    elim (Option-cases (on_exceed l now lc₁)) [
      | inl e ↦ (ground arith, λ d w. ground arith)
      | inr ((x, lc''), e) ↦ (
        ground (arith, on_exceed-queue l now lc₁ x lc'' e),
        λ d w. ground (arith, on_exceed-queue l now lc₁ x lc'' e),
      )
    ]

pub wake-queue :
    (l : Options) (now : ℕ) (lc lc' : LimitCounter)
    → wake l now lc ≡ some lc'
    → lc'.queue ≡ lc.queue
unfolding wake
wake-queue l now lc lc' h = ground arith

settle-queue :
    (l : Options) (env : Env) (t : Ticket) (lc : LimitCounter) (v : Verdict) (lc' : LimitCounter)
    → settle l env t lc ≡ some (v, lc')
    → lc'.queue ≡ lc.queue - 1
unfolding settle leave
settle-queue l env (refused e) lc v lc' h = ground arith
settle-queue l env deadline_exceeded lc v lc' h = ground arith
settle-queue l env (waiting d) lc v lc' h = elim (Option-cases env.woken) [
  | inl e ↦ ground arith
  | inr (t, e) ↦ elim (Option-cases (wake l t lc)) [
    | inl f ↦ absurd (ground arith)
    | inr (lc'', f) ↦ ground (arith, wake-queue l t lc lc'' f)
  ]
]

dispatch-queue :
    (l : Options) (env : Env) (p : Probe) (lc : LimitCounter) (v : Verdict) (lc' : LimitCounter)
    → dispatch l env p lc ≡ some (v, lc')
    → lc'.queue ≡ lc.queue
unfolding dispatch
dispatch-queue l env granted lc v lc' h = ground arith
dispatch-queue l env (exceeded e) lc v lc' h = ground arith
dispatch-queue l env joining lc v lc' h = elim (Option-cases (join l env.now env.left lc)) [
  | inl e ↦ absurd (ground arith)
  | inr ((t, lc''), e) ↦
      ground (arith, join-queue l env.now env.left lc t lc'' e, settle-queue l env t lc'' v lc')
]

-- An undisturbed call of `Enforce` that returns gives back the place that it took: on every
-- outcome the queue is as long afterwards as it was before.
pub enforce-queue :
    (l : Options) (env : Env) (lc : LimitCounter) (v : Verdict) (lc' : LimitCounter)
    → enforce l env lc ≡ some (v, lc')
    → lc'.queue ≡ lc.queue
unfolding enforce
enforce-queue l env lc v lc' h = elim (Option-cases (probe l env.now lc)) [
  | inl e ↦ absurd (ground arith)
  | inr ((p, lc''), e) ↦
      ground (arith, probe-queue l env.now lc p lc'' e, dispatch-queue l env p lc'' v lc')
]
