-- ===== src/Session/Message.antt =====
-- session/runner.go: `ServeMsg`, `ServeCore` and `ServeJetstream`. What the route does with a request
-- and what the store for results says are arguments. A body is a list of bytes; the error of a status
-- is `other` with that status.
use pmesh.Base.{
  ℕ, zero, suc, ◌+◌, ◌-◌, Bool, true, false, ◌&&◌, ◌||◌, Option, none, some, List, [], ◌∷◌, ◌==◌,
  ltb, leb, if◌then◌else◌,
}
use pmesh.Base.Int.{ℤ}
use pmesh.Retry.{
  Error, other, wrap, Policy, Delay, after, failed, with_defaults, step_n, retryable, disable,
}

-- The fields of `Runner` that settle a message.
pub record Runner : Type 0 where
  pub policy : Policy
  pub no_dead_letter : Bool

-- What becomes of the request of a message: it cannot be made, the route panics, or the buffered
-- response has a status and a body.
pub data Served : Type 0 where
  no_request : (e : Error) → Served
  panics : Served
  answers : (status : ℕ) (body : List ℕ) → Served

-- The named results of `ServeMsg`.
pub record Outcome : Type 0 where
  pub data_out : List ℕ
  pub err : Option Error

abbrev pub success : List ℕ → Outcome
success body = record { data_out = body; err = none }

abbrev pub failure : Option Error → Outcome
failure e = record { data_out = []; err = e }

unfoldable pub classify : ℕ → List ℕ → Outcome
classify status body =
    if leb 200 status && ltb status 299
    then if status == 204 || status == 202 then success [] else success body
    else if status == 404
    then failure (some (other 404))
    else if leb 400 status && ltb status 499
    then failure (disable (some (other status)))
    else failure (some (other status))

-- `ServeMsg`: the deferred function recovers a panic, and the results keep their zero values.
unfoldable pub serve_msg : Served → Outcome
serve_msg (no_request e) = failure (disable (some (wrap e)))
serve_msg panics = success []
serve_msg (answers status body) = classify status body

-- What `ServeCore` sends back: nothing, an error with the status 500, or the result.
pub data Reply : Type 0 where
  silent : Reply
  reply_error : (e : Error) → Reply
  reply_data : (body : List ℕ) → Reply

unfoldable pub serve_core : Bool → Served → Reply
serve_core wants_reply served =
    let o = serve_msg served in
    if wants_reply
    then elim o.err [ some e ↦ reply_error e | none ↦ reply_data o.data_out ]
    else silent

pub data Signal : Type 0 where
  ack nak term : Signal
  nak_with_delay : (delay : ℤ) → Signal

-- What is put into the store for results.
pub data Stored : Type 0 where
  nothing : Stored
  stored_error : (e : Error) → Stored
  stored_data : (body : List ℕ) → Stored

pub record Handled : Type 0 where
  pub signal : Signal
  pub stored : Stored

-- The end of a failure that is not tried again; `stores` says whether the store takes a value.
unfoldable pub bury : Runner → Bool → Error → Handled
bury t stores e =
    if t.no_dead_letter
    then record { signal = term; stored = nothing }
    else if stores
    then record { signal = term; stored = stored_error e }
    else record { signal = nak; stored = nothing }

-- What follows `StepN`.
unfoldable pub retry_or_bury : Runner → Bool → Error → Delay → Handled
retry_or_bury t stores e (after delay) = record { signal = nak_with_delay delay; stored = nothing }
retry_or_bury t stores e (failed d) = bury t stores e

unfoldable pub settle_error : Runner → Bool → ℕ → Error → Handled
settle_error t stores num_delivered e =
    if retryable (some e)
    then retry_or_bury t stores e (step_n (with_defaults t.policy) (num_delivered - 1))
    else bury t stores e

unfoldable pub settle_data : Bool → List ℕ → Handled
settle_data stores [] = record { signal = ack; stored = nothing }
settle_data stores (x ∷ body) =
    if stores
    then record { signal = ack; stored = stored_data (x ∷ body) }
    else record { signal = nak; stored = nothing }

unfoldable pub settle : Runner → Bool → ℕ → List ℕ → Option Error → Handled
settle t stores num_delivered body none = settle_data stores body
settle t stores num_delivered body (some e) = settle_error t stores num_delivered e

-- `ServeJetstream` on the delivery number `num_delivered` of a message, which counts from 1.
unfoldable pub serve_jetstream : Runner → Bool → ℕ → Served → Handled
serve_jetstream t stores num_delivered served =
    let o = serve_msg served in settle t stores num_delivered o.data_out o.err

abbrev pub is_redelivered : Signal → Bool
is_redelivered ack = false
is_redelivered term = false
is_redelivered nak = true
is_redelivered (nak_with_delay d) = true

-- JetStream delivers a message that is not acknowledged or terminated again. The deliveries from number
-- `n` on, where delivery i meets `calls i`: the last one and how it ends; `none` where the fuel ends
-- first.
unfoldable pub deliver : ℕ → Runner → (ℕ → Served) → ℕ → Option (ℕ × Handled)
deliver zero t calls n = none
deliver (suc fuel) t calls n =
    let h = serve_jetstream t true n (calls n) in
    let rest = deliver fuel t calls (n + 1) in if is_redelivered h.signal then rest else some (n, h)
