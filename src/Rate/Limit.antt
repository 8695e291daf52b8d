-- ===== src/Rate/Limit.antt =====
-- rate/limit.go and the parts of rate/rate.go that it calls: the limiter's options, the advice on an
-- exceeded limit, and `Enforce` cut at the points where other goroutines may run. Durations are
-- int64 nanoseconds, integers here. Clock readings are Unix nanoseconds, arguments of the steps.
pub mod Advice
pub mod Queue
pub mod Clients
mod Tests
use Prim.Native.String.{String}
use pmesh.Base.{
  ◌>>=◌, ℕ, ◌+◌, ◌-◌, ◌^◌, ◌/◌, Bool, true, false, not, ◌&&◌, ◌||◌, Option, none, some, ◌==◌, ltb,
  leb, if◌then◌else◌,
}
use pmesh.Base.Int.{ℤ, pos, negsuc, ◌+ℤ◌, ◌*ℤ◌, ltb_ℤ, leb_ℤ, quot_ℤ, i64}
use pmesh.Rate.Window.{
  Window, SlidingWindow, u32, u64, max_counter, sliding_precision_shift, to_ticks, to_subticks, inc,
  reset, inc_sliding, reset_sliding,
}

-- `Count` is a uint.
pub record Rate : Type 0 where
  pub count : ℕ
  pub period : ℤ

abbrev pub zero_rate : Rate
zero_rate = record { count = 0; period = pos 0 }

unfoldable pub is_zero : Rate → Bool
is_zero r = leb_ℤ r.period (pos 0) && leb_ℤ (pos 0) r.period

unfoldable pub is_positive : Rate → Bool
is_positive r = ltb 0 r.count && ltb_ℤ (pos 0) r.period

-- `Period / Duration(Count)`; counts are below 2^63, so the conversion keeps them.
unfoldable pub interval : Rate → Option ℤ
interval r = if r.count == 0 then none else some (quot_ℤ r.period r.count)

-- `Ticks(dur)` and `Subticks(dur)` at a clock reading; a negative period is converted as Go does.
unfoldable pub ticks : ℕ → ℤ → Option ℕ
ticks now (pos p) = to_ticks now p
ticks now (negsuc p) = some (u32 (2 ^ 64 - now / (p + 1)))

unfoldable pub subticks : ℕ → ℤ → Option ℕ
subticks now (pos p) = to_subticks now p
subticks now (negsuc p) = to_subticks now (2 ^ 64 - (p + 1))

pub record Options : Type 0 where
  pub id : String
  pub rate : Rate
  pub burst : ℤ
  pub block_after : Rate
  pub block_for : ℤ
  pub advise_client : Bool

pub data Invalid : Type 0 where
  rate_unspecified burst_negative : Invalid

pub data Validated : Type 0 where
  valid : Options → Validated
  invalid : Invalid → Validated

-- `Limit.validate`, with the options that it leaves behind.
unfoldable pub validate : Options → Validated
unfolding is_positive
validate l =
    if ltb_ℤ l.rate.period (pos 0)
    then invalid rate_unspecified
    else if ltb_ℤ l.burst (pos 0)
    then invalid burst_negative
    else valid (record l { rate = if is_positive l.rate then l.rate else zero_rate })

pub record RateError : Type 0 where
  pub block_until : ℤ
  pub retry_after : ℤ
  pub no_header : Bool

-- `RateError.AdviseClient`: the time to name to the client, if any.
unfoldable pub advise_at : RateError → ℤ → Option ℤ
advise_at e now =
    if e.no_header
    then none
    else if ltb_ℤ (pos 0) e.retry_after
    then some (i64 (now +ℤ i64 (e.retry_after *ℤ pos 2)))
    else none

-- `queue` is an int32 that counts goroutines, so it is a number.
pub record LimitCounter : Type 0 where
  pub sliding : SlidingWindow
  pub queue : ℕ
  pub block_window : Window

-- `LimitCounter.Reset` leaves the queue alone.
unfoldable pub reset_counter : LimitCounter → LimitCounter
reset_counter c = record c {
  sliding = reset_sliding c.sliding;
  block_window = reset c.block_window;
}

-- The block window takes the request, or blocking is advised.
unfoldable pub block : Options → ℕ → LimitCounter → Option (Bool × LimitCounter)
block l now lc =
    if ltb_ℤ (pos 0) l.block_for
    then (if is_zero l.block_after then some (true, lc) else (do
      t ← ticks now l.block_after.period
      let (w, ok) = inc lc.block_window t (u32 l.block_after.count)
      some (not ok, record lc { block_window = w })))
    else some (false, lc)

-- `Limit.OnExceed`
unfoldable pub on_exceed : Options → ℕ → LimitCounter → Option (RateError × LimitCounter)
on_exceed l now lc = do
  base ← interval l.rate
  let scaled = if ltb_ℤ (pos 0) l.burst then i64 (base +ℤ i64 (base *ℤ pos lc.queue)) else base
  let retry = if ltb_ℤ scaled (pos 0) then pos 0 else scaled
  (blocked, lc') ← block l now lc
  some (
    record {
      block_until = if blocked then l.block_for else pos 0;
      retry_after = retry;
      no_header = not l.advise_client;
    },
    lc',
  )

-- `Enforce` up to the queue: answered at once, or on its way into the queue.
pub data Probe : Type 0 where
  granted : Probe
  exceeded : RateError → Probe
  joining : Probe

unfoldable pub exceed : Options → ℕ → LimitCounter → Option (Probe × LimitCounter)
exceed l now lc = do (e, lc') ← on_exceed l now lc; some (exceeded e, lc')

unfoldable pub probe : Options → ℕ → LimitCounter → Option (Probe × LimitCounter)
probe l now lc =
    if lc.queue == 0
    then (do
      s ← subticks now l.rate.period
      let lim = if u32 l.rate.count == 0 then max_counter else u32 l.rate.count
      let (w, ok) = inc_sliding lc.sliding s lim
      let lc' = record lc { sliding = w }
      if ok
          then some (granted, lc')
          else if leb_ℤ l.burst (pos 0)
          then exceed l now lc'
          else some (joining, lc'))
    else if leb_ℤ l.burst (pos lc.queue)
    then exceed l now lc
    else some (joining, lc)

-- `Enforce` from `queue.Add(1)` to the wait. In all cases the goroutine holds its place in the queue
-- until the deferred `queue.Add(-1)`. `left` is the time to the context's deadline.
pub data Ticket : Type 0 where
  refused : RateError → Ticket
  deadline_exceeded : Ticket
  waiting : ℤ → Ticket

unfoldable pub join : Options → ℕ → Option ℤ → LimitCounter → Option (Ticket × LimitCounter)
join l now left lc =
    let bp = lc.queue + 1 in
    let lc' = record lc { queue = bp } in
    if leb_ℤ l.burst (pos bp)
    then (do (e, lc'') ← on_exceed l now lc'; some (refused e, lc''))
    else (do
      step ← interval l.rate
      let delay = i64 (step *ℤ pos (bp + 1))
      elim left [
        | none ↦ some (waiting delay, lc')
        | some time ↦ some (if ltb_ℤ time delay then deadline_exceeded else waiting delay, lc')
      ])

-- The timer fires: the request is counted, whatever the limit.
unfoldable pub wake : Options → ℕ → LimitCounter → Option LimitCounter
wake l now lc = do
  s ← subticks now l.rate.period
  let (w, _) = inc_sliding lc.sliding s max_counter
  some (record lc { sliding = w })

-- The deferred `queue.Add(-1)`.
unfoldable pub leave : LimitCounter → LimitCounter
leave lc = record lc { queue = lc.queue - 1 }

pub data Verdict : Type 0 where
  admitted : Verdict
  rejected : RateError → Verdict
  too_late : Verdict
  cancelled : Verdict

-- What one call of `Enforce` meets: the clock at the probe and at the queue, the time to the
-- deadline, and the clock at the wake-up, or `none` where the context is cancelled first.
pub record Env : Type 0 where
  pub now : ℕ
  pub left : Option ℤ
  pub woken : Option ℕ

unfoldable pub settle : Options → Env → Ticket → LimitCounter → Option (Verdict × LimitCounter)
settle l env (refused e) lc = some (rejected e, leave lc)
settle l env deadline_exceeded lc = some (too_late, leave lc)
settle l env (waiting delay) lc = elim env.woken [
  | none ↦ some (cancelled, leave lc)
  | some t ↦ do lc' ← wake l t lc; some (admitted, leave lc')
]

unfoldable pub dispatch : Options → Env → Probe → LimitCounter → Option (Verdict × LimitCounter)
dispatch l env granted lc = some (admitted, lc)
dispatch l env (exceeded e) lc = some (rejected e, lc)
dispatch l env joining lc = do (t, lc') ← join l env.now env.left lc; settle l env t lc'

-- `Limit.Enforce` where no other goroutine runs meanwhile.
unfoldable pub enforce : Options → Env → LimitCounter → Option (Verdict × LimitCounter)
enforce l env lc = do (p, lc') ← probe l env.now lc; dispatch l env p lc'
