-- ===== src/Retry/Tests.antt =====
-- Runs of the retrier of retry/policy.go and retry/retrier.go.
use pmesh.Base.{ℕ, zero, suc, ◌-◌, ◌≤◌, ◌≡◌, refl, ◌↔◌, none, some, Option, arith}
use pmesh.Base.Int.{pos}
use pmesh.Retry.{Error, other, Policy, Progress, step_n, Round, Attempt, run}
use pmesh.Retry.Backoff.{steps, outcome, step_n-steps}
use pmesh.Retry.Run.{run_total}

-- The default policy with three attempts.
abbrev policy : Policy
policy = record { attempts = pos 3; backoff = pos 150_000_000; timeout = pos 30_000_000_000 }

abbrev start : Progress
start = record { step = 0; delay = pos 0 }

step_n-steps_example : step_n policy 2 ≡ outcome (steps policy 2 start)
step_n-steps_example = step_n-steps policy 150_000_000 2 (refl, omega arith)

abbrev calm : Round
calm = record { ctx_err = none; time_left = pos 60_000_000_000; done = none }

-- The function fails twice.
abbrev flaky : ℕ → Attempt
flaky zero = record { result = some (other 1); round = calm }
flaky (suc zero) = record { result = some (other 2); round = calm }
flaky (suc (suc n)) = record { result = none; round = calm }

run_total_example :
    (n : ℕ) × (e : Option Error) × (run 4 policy start flaky 0 ≡ some (n, e))
    × (n ≤ 4)
    × ((e ≡ none) ↔ ((flaky (n - 1)).result ≡ none))
run_total_example = run_total policy 3 flaky refl (omega arith)
