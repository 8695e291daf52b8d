-- ===== src/Retry/Run.antt =====
-- The loop of retry/retrier.go, and the errors that it does not retry.
use pmesh.Base.{
  ℕ, zero, suc, ◌+◌, ◌-◌, ◌≤◌, ◌<◌, ◌≡◌, ◌↔◌, refl, inl, inr, true, false, Option, none, some,
  arith, Option-cases,
}
use pmesh.Base.Int.{pos}
use pmesh.Retry.{
  Error, retryable, disable, Policy, Progress, Round, Attempt, exhausted, step, consume_any,
  consume, run,
}

-- A round that lets the loop go on moves the step, and had attempts left.
pub consume_step :
    (p : Policy) (s : Progress) (r : Round) (err : Error)
    → (consume p s r err).1 ≡ none
    → ((consume p s r err).0.step ≡ s.step + 1)
      × (exhausted p s.step ≡ false)
      × (retryable (some err) ≡ true)
unfolding consume consume_any step
consume_step p s r err h = (ground arith, ground arith, ground arith)

pub not_exhausted-lt :
    (p : Policy) (a n : ℕ) → p.attempts ≡ pos a → 0 < a → exhausted p n ≡ false → n < a
unfolding exhausted
not_exhausted-lt p a n e pa h = ground arith

-- The end of the loop, at call number i.
abbrev Ends : (ℕ → Attempt) → Option (ℕ × Option Error) → ℕ → Type 0
Ends calls answer bound =
    (n : ℕ) × (e : Option Error) × (answer ≡ some (n, e))
    × (n ≤ bound)
    × ((e ≡ none) ↔ ((calls (n - 1)).result ≡ none))

here-Ends :
    (calls : ℕ → Attempt) (i bound : ℕ) (e : Option Error)
    → i < bound
    → ((e ≡ none) ↔ ((calls i).result ≡ none))
    → Ends calls (some (i + 1, e)) bound
here-Ends calls i bound e h same =
    let here : i + 1 - 1 ≡ i = omega arith in (i + 1, e, refl, omega arith, rw here same)

run-Ends :
    (p : Policy) (a : ℕ) (calls : ℕ → Attempt) (fuel i : ℕ) (s : Progress)
    → p.attempts ≡ pos a
    → 0 < a
    → a < fuel + s.step
    → 0 < fuel
    → Ends calls (run fuel p s calls i) (i + (a - s.step) + 1)
unfolding run
run-Ends p a calls zero i s e pa enough more = absurd (omega arith)
run-Ends p a calls (suc fuel) i s e pa enough more = elim (Option-cases (calls i).result) [
  | inl ok ↦
      rw (ok, run)
        (here-Ends calls i (i + (a - s.step) + 1) none (omega arith) (λ _. ok, λ _. refl))
  | inr (err, bad) ↦ elim (Option-cases (consume p s (calls i).round err).1) [
    | inl again ↦
        let s' = (consume p s (calls i).round err).0 in
        let (moved, left, _) = consume_step p s (calls i).round err again in
        let lt = not_exhausted-lt p a s.step e pa left in
        let (n, d, answer, le, same) =
          run-Ends p a calls fuel (i + 1) s' e pa (omega arith) (omega arith) in
        (n, d, rw (bad, again, run) answer, omega arith, same)
    | inr (d, stop) ↦
        rw (bad, stop, run)
          (here-Ends calls i (i + (a - s.step) + 1) (some d) (omega arith) (λ h. cc, λ h. cc))
  ]
]

-- With a positive number of attempts the loop ends, whatever the function returns and the rounds
-- meet: it makes at most one call more than there are attempts, and it returns no error exactly when
-- the last call returned none.
pub run_total :
    (p : Policy) (a : ℕ) (calls : ℕ → Attempt)
    → p.attempts ≡ pos a
    → 0 < a
    → (n : ℕ) × (e : Option Error) × (run (a + 1) p (record { step = 0; delay = pos 0 }) calls 0
        ≡ some (n, e))
      × (n ≤ a + 1)
      × ((e ≡ none) ↔ ((calls (n - 1)).result ≡ none))
run_total p a calls e pa =
    let (n, d, answer, le, same) =
      run-Ends p a calls (a + 1) 0 (record { step = 0; delay = pos 0 }) e pa (omega arith)
        (omega arith) in
    (n, d, answer, omega arith, same)

-- `Disable` marks an error so that it is never retried; but an error that is not retryable in the
-- first place (nil, context.Canceled, one already marked) it turns into nil: the failure is lost.
pub disable_lem :
    (err : Option Error)
    → ((retryable err ≡ false) ↔ (disable err ≡ none)) × (retryable (disable err) ≡ false)
unfolding disable retryable
disable_lem none = ((λ _. refl, λ _. refl), refl)
disable_lem (some e) = ((λ h. ground arith, λ h. ground arith), ground arith)

-- An error that is not retryable ends the loop at once, and unchanged.
pub consume_final :
    (p : Policy) (s : Progress) (r : Round) (err : Error)
    → retryable (some err) ≡ false
    → consume p s r err ≡ (s, some err)
unfolding consume
consume_final p s r err h = ground arith
