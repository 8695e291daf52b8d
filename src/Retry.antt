-- ===== src/Retry.antt =====
-- retry/policy.go, retry/retrier.go and retry/errors.go, with `Duration.Or` of util/duration.go.
-- Durations are int64 nanoseconds, integers here, and their sums wrap. `Retrier.Context` and the
-- clock enter as what each round of the retrier meets.
pub mod Backoff
pub mod Run
mod Tests
use pmesh.Base.{
  ℕ, zero, suc, ◌+◌, ◌/◌, Bool, true, false, not, ◌&&◌, ◌||◌, Option, none, some, ltb,
  if◌then◌else◌,
}
use pmesh.Base.Int.{ℤ, pos, negsuc, ◌+ℤ◌, ◌*ℤ◌, ltb_ℤ, leb_ℤ, i64}

-- errors.go. `other` is an error of the caller, `wrap` one that unwraps to another, `joined` the
-- value of errors.Join.
pub data Error : Type 0 where
  canceled deadline_exceeded max_attempts_exceeded : Error
  other : ℕ → Error
  wrap : Error → Error
  non_retryable : Error → Error
  joined : Error → Error → Error

-- errors.As(err, &nonRetryableError): some error in the tree is one.
unfoldable pub marked : Error → Bool
marked (non_retryable e) = true
marked (wrap e) = marked e
marked (joined d e) = let r = marked e in marked d || r
marked canceled = false
marked deadline_exceeded = false
marked max_attempts_exceeded = false
marked (other n) = false

abbrev is_canceled : Error → Bool
is_canceled canceled = true
is_canceled _ = false

-- An `error` is `Option Error`; `none` is nil.
unfoldable pub retryable : Option Error → Bool
unfolding marked
retryable none = false
retryable (some e) = if is_canceled e then false else not (marked e)

unfoldable pub disable : Option Error → Option Error
unfolding retryable
disable none = none
disable (some e) = if retryable (some e) then some (non_retryable e) else none

abbrev pub retrier_max_delay_coeff : ℤ
retrier_max_delay_coeff = pos 20

pub record Policy : Type 0 where
  pub attempts : ℤ
  pub backoff : ℤ
  pub timeout : ℤ

abbrev is_zero : ℤ → Bool
is_zero d = leb_ℤ d (pos 0) && leb_ℤ (pos 0) d

-- `Duration.Or` of util/duration.go
unfoldable pub or_else : ℤ → ℤ → ℤ
or_else d o = if is_zero d then o else if ltb_ℤ d (pos 0) then pos 0 else d

unfoldable pub with_defaults : Policy → Policy
unfolding or_else
with_defaults p = record {
  attempts = if is_zero p.attempts then pos 8 else p.attempts;
  backoff = or_else p.backoff (pos 150_000_000);
  timeout = or_else p.timeout (pos 30_000_000_000);
}

unfoldable pub max_delay : Policy → ℤ
max_delay p = i64 (p.backoff *ℤ retrier_max_delay_coeff)

-- `d >> 1` of an int64
abbrev pub half : ℤ → ℤ
half (pos d) = pos (d / 2)
half (negsuc d) = negsuc (d / 2)

-- `delay += backoff; delay = delay + (delay >> 1)`
unfoldable pub grow : Policy → ℤ → ℤ
grow p delay = let d = i64 (delay +ℤ p.backoff) in i64 (d +ℤ half d)

unfoldable pub exhausted : Policy → ℕ → Bool
exhausted p n = ltb_ℤ (pos 0) p.attempts && leb_ℤ p.attempts (pos n)

-- The loop of `StepN`.
unfoldable pub step_loop : Policy → ℕ → ℤ → ℤ
step_loop p zero delay = delay
step_loop p (suc n) delay =
    let d = grow p delay in
    let rest = step_loop p n d in if ltb_ℤ (max_delay p) d then max_delay p else rest

pub data Delay : Type 0 where
  after : ℤ → Delay
  failed : Error → Delay

-- `StepN`
unfoldable pub step_n : Policy → ℕ → Delay
step_n p n = if exhausted p n then failed max_attempts_exceeded else after (step_loop p n p.backoff)

-- The variables behind the pointers of `Step`.
pub record Progress : Type 0 where
  pub step : ℕ
  pub delay : ℤ

abbrev min_ℤ : ℤ → ℤ → ℤ
min_ℤ a b = if ltb_ℤ b a then b else a

abbrev first : ℕ → Bool
first zero = true
first (suc n) = false

-- `Step`: the new variables, and the error.
unfoldable pub step : Policy → Progress → Progress × Option Error
step p s =
    let s' = record s { step = s.step + 1 } in
    if exhausted p s.step
    then (s', some max_attempts_exceeded)
    else if first s.step
    then (record s' { delay = p.backoff }, none)
    else (record s' { delay = min_ℤ (grow p s.delay) (max_delay p) }, none)

-- What a round of `ConsumeAny` meets: the context's error before the wait, the time left to the
-- retrier's deadline, and the context's error if it is done before the delay has passed.
pub record Round : Type 0 where
  pub ctx_err : Option Error
  pub time_left : ℤ
  pub done : Option Error

-- The wait: the context ends it, or the delay passes.
abbrev wait : Round → Option Error
wait r = r.done

-- `ConsumeAny`; the retrier keeps its policy and its progress.
unfoldable pub consume_any : Policy → Progress → Round → Progress × Option Error
consume_any p s r =
    let (s', stopped) = step p s in
    elim stopped [
      | some e ↦ (s', some e)
      | none ↦ elim r.ctx_err [
        | some e ↦ (s', some e)
        | none ↦
            if ltb_ℤ r.time_left s'.delay
            then (if ltb_ℤ p.timeout r.time_left
                then (s', wait r)
                else (s', some deadline_exceeded))
            else (s', wait r)
      ]
    ]

-- `Consume`
unfoldable pub consume : Policy → Progress → Round → Error → Progress × Option Error
unfolding retryable
consume p s r err =
    if retryable (some err)
    then (let (s', e) = consume_any p s r in
        elim e [ none ↦ (s', none) | some d ↦ (s', some (joined d err)) ])
    else (s, some err)

-- What a call of the function returns, and the round of the retrier after it.
pub record Attempt : Type 0 where
  pub result : Option Error
  pub round : Round

-- `Retrier.Run` from call number `i`, where call i meets `calls i`: the number of calls made and the
-- error returned; `none` where the fuel ends first.
unfoldable pub run : ℕ → Policy → Progress → (ℕ → Attempt) → ℕ → Option (ℕ × Option Error)
run zero p s calls i = none
run (suc fuel) p s calls i = elim (calls i).result [
  | none ↦ some (i + 1, none)
  | some err ↦
      let (s', e) = consume p s (calls i).round err in
      elim e [ some d ↦ some (i + 1, some d) | none ↦ run fuel p s' calls (i + 1) ]
]
