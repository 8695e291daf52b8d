-- ===== src/Service/Process.antt =====
-- service/svc_app.go: `appProcessState` and its termination. Times are nanoseconds since 1970,
-- deadlines milliseconds. What other goroutines store, what the process table and the signals answer
-- and what the clock shows are arguments.
use pmesh.Base.{
  ℕ, ◌+◌, ◌-◌, ◌*◌, ◌/◌, Bool, true, false, not, ◌&&◌, ◌||◌, Option, none, some, List, [], ◌∷◌, ltb,
  leb, ◌==◌, if◌then◌else◌,
}
use pmesh.Base.Int.{ℤ}

-- The variables of `appProcessState`. `dead` is the error of
-- the context, `upstream` whether there is one and it is marked healthy.
pub record Process : Type 0 where
  pub pid : ℕ
  pub dead : Bool
  pub upstream : Option Bool
  pub terminate_deadline : ℕ
  pub signal_sent : Bool
  pub down_ticks : ℤ

abbrev pub millisecond : ℕ
millisecond = 1_000_000

unfoldable pub terminating : Process → Bool
terminating p = not (p.terminate_deadline == 0)

-- The loop of `bumpDeadline`: the deadline in store, the deadline asked for, and what other
-- goroutines store between a load and the compare-and-swap behind it, round by round.
-- The answer is the deadline then in store and whether it has passed.
unfoldable pub bump_loop : ℕ → ℕ → List ℕ → ℕ → ℕ × Bool
bump_loop now into_t [] prev =
    if not (prev == 0) && leb (prev * millisecond) into_t
    then (prev, ltb (prev * millisecond) now)
    else (into_t / millisecond, false)
bump_loop now into_t (other ∷ others) prev =
    let rest = bump_loop now into_t others other in
    if not (prev == 0) && leb (prev * millisecond) into_t
    then (prev, ltb (prev * millisecond) now)
    else if other == prev
    then (into_t / millisecond, false)
    else rest

-- `bumpDeadline`, with the stop timeout of the configuration.
unfoldable pub bump_deadline : ℕ → ℕ → List ℕ → ℕ → ℕ → ℕ × Bool
bump_deadline stop now others prev into_t =
    if ltb into_t now
    then (1, true)
    else bump_loop now (if ltb (now + stop) into_t then now + stop else into_t) others prev

-- What a call of `tryTerminate` sets off: `requestTermination`, at once or behind `drain`.
pub data Effect : Type 0 where
  nothing request drain_and_request : Effect

abbrev pub kill : Process → Process
kill p = record p { dead = true }

-- `die` only with a timeout.
abbrev pub settle_timeout : Process → ℕ × Bool → Process × Bool
settle_timeout p (deadline, true) = (record p { terminate_deadline = deadline; dead = true }, true)
settle_timeout p (deadline, false) = (record p { terminate_deadline = deadline }, false)

abbrev pub mark_unhealthy : Option Bool → Option Bool
mark_unhealthy none = none
mark_unhealthy (some healthy) = some false

-- The part of `tryTerminate` that updates the deadline.
unfoldable pub update_deadline : ℕ → ℕ → Option ℕ → ℕ → ℕ × Bool
update_deadline stop now (some deadline) dl = bump_deadline stop now [] dl deadline
update_deadline stop now none dl =
    if dl == 0 then bump_deadline stop now [] dl (now + stop) else (dl, ltb dl (now / millisecond))

abbrev send : Process → Process × Bool × Effect
send p = if p.signal_sent then (p, false, nothing) else (
  record p { signal_sent = true },
  false,
  elim p.upstream [ none ↦ request | some healthy ↦ drain_and_request ],
)

abbrev unless_timeout : Process × Bool → Process × Bool × Effect
unless_timeout (p, true) = (p, true, nothing)
unless_timeout (p, false) = send p

-- `tryTerminate` with no other goroutine in between; the third argument is the deadline of the
-- context.
unfoldable pub try_terminate : ℕ → ℕ → Option ℕ → Process → Process × Bool × Effect
try_terminate stop now deadline p =
    if p.dead
    then (p, true, nothing)
    else unless_timeout (
        settle_timeout (record p { upstream = mark_unhealthy p.upstream })
          (update_deadline stop now deadline p.terminate_deadline))

-- The loop of `terminate` behind its first call: each round shows the clock behind the 500 ms, and
-- whether the context of the process ended first. The answer is false when the rounds run out.
unfoldable pub terminate_loop : ℕ → List (ℕ × Bool) → Process → Process × Bool
terminate_loop stop [] p = (p, false)
terminate_loop stop ((now, true) ∷ rounds) p = (kill p, true)
terminate_loop stop ((now, false) ∷ rounds) p =
    let called = try_terminate stop now none p in
    elim (called.1) [ true ↦ (called.0, true) | false ↦ terminate_loop stop rounds called.0 ]

unfoldable pub terminate : ℕ → ℕ → Option ℕ → List (ℕ × Bool) → Process → Process × Bool
terminate stop now deadline rounds p =
    let called = try_terminate stop now deadline p in
    elim (called.1) [ true ↦ (called.0, true) | false ↦ terminate_loop stop rounds called.0 ]

-- What a round of `drain` meets: the load of the upstream, the deadline in store, the clock, and
-- whether the process dies within the 200 ms.
pub record DrainRound : Type 0 where
  pub load : ℕ
  pub deadline : ℕ
  pub now : ℕ
  pub died : Bool

abbrev pub drain_step : ℕ
drain_step = 200 * millisecond

-- `drain`, on the rounds it meets: `none` when these run out. `time.Until` rounds a deadline in the
-- past to less than the step as well.
unfoldable pub drain : List DrainRound → Option Bool
drain [] = none
drain (r ∷ rounds) =
    let rest = drain rounds in
    if r.load == 0
    then some true
    else if ltb ((r.deadline * millisecond - r.now) / 2) drain_step
    then some false
    else if r.died
    then some true
    else rest

-- The answers of the process table and of the signals that `requestTermination` sends.
pub record Signals : Type 0 where
  pub running : Bool
  pub running_error : Bool
  pub found : Bool
  pub interrupted : Bool
  pub terminated : Bool

-- `requestTermination`
unfoldable pub request_termination : Signals → Process → Process
request_termination s p =
    let intr = (s.running || s.running_error) && s.found && s.interrupted in
    if p.dead then p else if not intr && not s.terminated then kill p else p
