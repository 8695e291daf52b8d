-- ===== src/Rate/Window/Tests.antt =====
-- Runs of the windows of rate/window.go.
use pmesh.Base.{min, ◌-◌, ◌≡◌, List, [], ◌∷◌, ◌++◌, arith}
use pmesh.Rate.Window.{
  Window, SlidingWindow, pack, inc, inc_loop, reset_sliding, inc_sliding, read_sliding, tick_of,
  store, current, read,
}
use pmesh.Rate.Window.Packing.{standing}
use pmesh.Rate.Window.Schedule.{granted, requests, granted_exact}
use pmesh.Rate.Window.Racing.{OneStep, inc_loop_atomic}
use pmesh.Rate.Window.Carry.{reset_sliding-HasParity, sliding_is_fixed}

-- One request is counted at tick 5; four more come at 5, 5, 6 and 6.
granted_exact_example :
    granted (pack 1 5) 2 (5 ∷ 5 ∷ 6 ∷ 6 ∷ []) 5
    ≡ min (2 - standing (pack 1 5) 5) (requests (5 ∷ 5 ∷ 6 ∷ 6 ∷ []) 5)
unfolding pack
granted_exact_example = granted_exact (pack 1 5) 2 5 (5 ∷ 5 ∷ 6 ∷ 6 ∷ []) (omega arith) (
  omega arith,
  omega arith,
  (omega arith, omega arith, (omega arith, omega arith, (omega arith, omega arith, tt))),
)

abbrev fresh : SlidingWindow
fresh = reset_sliding (record { even = 3; odd = 4 })

sliding_is_fixed_example :
    (inc_sliding fresh 1281 5 ≡ (
      store fresh (tick_of 1281) (inc (current fresh (tick_of 1281)) (tick_of 1281) 5).0,
      (inc (current fresh (tick_of 1281)) (tick_of 1281) 5).1,
    ))
    × (read_sliding fresh 1281 5 ≡ read (current fresh (tick_of 1281)) (tick_of 1281))
sliding_is_fixed_example =
    sliding_is_fixed fresh 1281 5 (reset_sliding-HasParity (record { even = 3; odd = 4 }))
      (omega arith)

-- Another writer counts at tick 9 before the first swap; the second round answers.
abbrev one_writer : List (Window → Window)
one_writer = (λ w. pack 1 9) ∷ (λ w. w) ∷ (λ w. 0) ∷ []

inc_loop_atomic_example :
    (met left : List (Window → Window)) × (one_writer ≡ met ++ left)
    × ((inc_loop one_writer 7 9 2).2 ≡ left)
    × OneStep 9 2 7 met (inc_loop one_writer 7 9 2).0 (inc_loop one_writer 7 9 2).1
inc_loop_atomic_example = inc_loop_atomic 9 2 one_writer 7
