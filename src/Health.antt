-- ===== src/Health.antt =====
-- health/monitor.go: what the loop of `observe` makes of the results of the checks, and what it tells
-- the observer. The checks are I/O: their results are arguments. Durations are integers.
pub mod Streak
mod Tests
use pmesh.Base.{ℕ, Bool, true, false, not, ◌&&◌, Option, none, some, List, [], ◌∷◌, if◌then◌else◌}
use pmesh.Base.Int.{ℤ, pos, negsuc, ◌+ℤ◌, ◌-ℤ◌, ltb_ℤ, leb_ℤ}
use pmesh.Retry.{or_else}

pub record MonitorLoop : Type 0 where
  pub interval : ℤ
  pub threshold : ℤ

-- `MonitorLoop.Or`
unfoldable pub loop_or : MonitorLoop → ℤ → ℤ → MonitorLoop
loop_or m d t = record {
  interval = or_else m.interval d;
  threshold = if leb_ℤ m.threshold (pos 0) then t else m.threshold;
}

pub data HealthState : Type 0 where
  healthy unhealthy unknown : HealthState

abbrev pub same_state : HealthState → HealthState → Bool
same_state healthy healthy = true
same_state unhealthy unhealthy = true
same_state unknown unknown = true
same_state _ _ = false

-- The variables of the loop.
pub record Observed : Type 0 where
  pub previous : HealthState
  pub state : ℤ

unfoldable pub start : MonitorLoop → Observed
start up = record { previous = unknown; state = up.threshold -ℤ pos 1 }

-- `max(state, 0) + 1` and `min(state, 0) - 1`
unfoldable pub count : ℤ → Bool → ℤ
count state true = (if ltb_ℤ state (pos 0) then pos 0 else state) +ℤ pos 1
count state false = (if ltb_ℤ (pos 0) state then pos 0 else state) -ℤ pos 1

unfoldable pub judge : MonitorLoop → MonitorLoop → ℤ → HealthState
judge up down state =
    if leb_ℤ up.threshold state
    then healthy
    else if leb_ℤ state (pos 0 -ℤ down.threshold)
    then unhealthy
    else unknown

-- What the observer is told, if anything.
abbrev pub told : HealthState → HealthState → Option Bool
told previous new =
    if same_state new previous
    then none
    else elim new [ healthy ↦ some true | unhealthy ↦ some false | unknown ↦ none ]

-- One round of the loop, behind a check: the variables, the notification and the time to wait.
unfoldable pub observe_round :
    MonitorLoop → MonitorLoop → Observed → Bool → Observed × Option Bool × ℤ
observe_round up down o check =
    let state = count o.state check in
    let new = judge up down state in
    (
      record { previous = new; state = state },
      told o.previous new,
      elim new [ healthy ↦ up.interval | unhealthy ↦ down.interval | unknown ↦ up.interval ],
    )

-- The loop after the checks of a list, the last one first.
unfoldable pub observe : MonitorLoop → MonitorLoop → List Bool → Observed
observe up down [] = start up
observe up down (check ∷ checks) = (observe_round up down (observe up down checks) check).0
