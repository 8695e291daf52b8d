-- ===== src/Retry/Backoff.antt =====
-- The delays of retry/policy.go: `Step`, taken from the start, against `StepN`.
use pmesh.Base.{
  ℕ, zero, suc, ◌+◌, ◌*◌, ◌/◌, ◌^◌, ◌≤◌, ◌<◌, min, ◌≡◌, refl, ◌∙◌, sym, ap, inl, inr, true, false,
  Option, none, some, arith, if◌then◌else◌, Bool-cases,
}
use native.Mathlib.Nat.{add-zero, zero-add}
use native.Mathlib.Numerals.{add-one}
use pmesh.Base.Int.{ℤ, pos, ltb_ℤ, ◌+ℤ◌, ◌*ℤ◌, ◌≤ℤ◌, i64}
use pmesh.Retry.{
  Policy, Progress, Delay, after, failed, max_attempts_exceeded, max_delay, grow, exhausted,
  step_loop, step_n, step, Error,
}

-- One round of growth in plain numbers, cut at twenty times the base delay.
unfoldable pub grown : ℕ → ℕ → ℕ
grown b d = min (20 * b) ((d + b) + (d + b) / 2)

grown-le : (b d : ℕ) → grown b d ≤ 20 * b
unfolding grown
grown-le b d = omega arith

grown_over : (b d : ℕ) → 20 * b < d + b + (d + b) / 2 → grown b d ≡ 20 * b
unfolding grown
grown_over b d h = omega arith

grown_under : (b d : ℕ) → d + b + (d + b) / 2 ≤ 20 * b → grown b d ≡ d + b + (d + b) / 2
unfolding grown
grown_under b d h = omega arith

-- The delay after n rounds of growth from d.
pub rounds : ℕ → ℕ → ℕ → ℕ
rounds b zero d = d
rounds b (suc n) d = rounds b n (grown b d)

-- A policy whose base delay is not negative and fits int64 thirty-two times over: nine years.
abbrev pub Fits : Policy → ℕ → Type 0
Fits p b = (p.backoff ≡ pos b) × (32 * b < 2 ^ 63)

max_delay-pos : (p : Policy) (b : ℕ) → Fits p b → max_delay p ≡ pos (20 * b)
unfolding max_delay ◌*ℤ◌ i64
max_delay-pos p b (e, h) = rw e (ground arith)

grow-pos :
    (p : Policy) (b d : ℕ) → Fits p b → d ≤ 20 * b → grow p (pos d) ≡ pos ((d + b) + (d + b) / 2)
unfolding grow ◌+ℤ◌ i64
grow-pos p b d (e, h) k = rw e (ground arith)

rounds-le : (b n d : ℕ) → d ≤ 20 * b → rounds b n d ≤ 20 * b
unfolding rounds
rounds-le b zero d h = h
rounds-le b (suc n) d h = rounds-le b n (grown b d) (grown-le b d)

grown_cap : (b : ℕ) → grown b (20 * b) ≡ 20 * b
unfolding grown
grown_cap b = omega arith

-- At the cap the delay stays.
rounds_cap : (b n : ℕ) → rounds b n (20 * b) ≡ 20 * b
unfolding rounds
rounds_cap b zero = refl
rounds_cap b (suc n) = rw (grown_cap b) (rounds_cap b n)

step_loop-rounds :
    (p : Policy) (b n d : ℕ) → Fits p b → d ≤ 20 * b → step_loop p n (pos d) ≡ pos (rounds b n d)
unfolding step_loop rounds
step_loop-rounds p b zero d f h = refl
step_loop-rounds p b (suc n) d f h =
    let x = d + b + (d + b) / 2 in
    rw (max_delay-pos p b f, grow-pos p b d f h)
      (elim (Bool-cases (ltb_ℤ (pos (20 * b)) (pos x))) [
        | inl over ↦ let e = grown_over b d (ground arith) in rw over (rw e (rw (rounds_cap b n)))
        | inr under ↦
            let e = grown_under b d (ground arith) in
            rw under (rw (← e) (step_loop-rounds p b n (grown b d) f (grown-le b d)))
      ])

-- `Step`, n + 1 times.
pub steps : Policy → ℕ → Progress → Progress × Option Error
steps p zero s = step p s
steps p (suc n) s = steps p n (step p s).0

abbrev pub outcome : Progress × Option Error → Delay
outcome (s, none) = after s.delay
outcome (s, some e) = failed e

exhausted_later : (p : Policy) (m n : ℕ) → m ≤ n → exhausted p m ≡ true → exhausted p n ≡ true
unfolding exhausted
exhausted_later p m n h e = ground arith

step_later :
    (p : Policy) (b j d : ℕ)
    → Fits p b
    → d ≤ 20 * b
    → step p (record { step = suc j; delay = pos d }) ≡ (
        if exhausted p (suc j)
        then (record { step = suc j + 1; delay = pos d }, some max_attempts_exceeded)
        else (record { step = suc j + 1; delay = pos (grown b d) }, none))
unfolding step
step_later p b j d f h =
    rw (max_delay-pos p b f, grow-pos p b d f h)
      (elim (Bool-cases (ltb_ℤ (pos (20 * b)) (pos (d + b + (d + b) / 2)))) [
        | inl over ↦ let e = grown_over b d (ground arith) in rw (over, e)
        | inr under ↦ let e = grown_under b d (ground arith) in rw (under, e)
      ])

steps-exhausted :
    (p : Policy) (n : ℕ) (s : Progress)
    → exhausted p (s.step + n) ≡ true
    → (steps p n s).1 ≡ some max_attempts_exceeded
unfolding steps step
steps-exhausted p zero s e = let e' : exhausted p s.step ≡ true = rw add-zero at e in rw e'
steps-exhausted p (suc n) s e =
    let moved : (step p s).0.step ≡ s.step + 1 = ground arith in
    let same : (step p s).0.step + n ≡ s.step + suc n = omega arith in
    steps-exhausted p n (step p s).0 (rw same e)

outcome_failed : (r : Progress × Option Error) (e : Error) → r.1 ≡ some e → outcome r ≡ failed e
outcome_failed (s, none) e h = cc
outcome_failed (s, some d) e h = ground arith

not_yet : (p : Policy) (m n : ℕ) → m ≤ n → exhausted p n ≡ false → exhausted p m ≡ false
unfolding exhausted
not_yet p m n h e = ground arith

-- From the second call on, `Step` follows the plain recursion as long as attempts are left.
steps_later :
    (p : Policy) (b n j d : ℕ)
    → Fits p b
    → d ≤ 20 * b
    → exhausted p (suc j + n) ≡ false
    → outcome (steps p n (record { step = suc j; delay = pos d }))
      ≡ after (pos (rounds b (suc n) d))
unfolding steps rounds
steps_later p b zero j d f h e =
    let e' : exhausted p (suc j) ≡ false = rw add-zero at e in rw (step_later p b j d f h) (rw e')
steps_later p b (suc n) j d f h e =
    let now = not_yet p (suc j) (suc j + suc n) (omega arith) e in
    let same : suc j + suc n ≡ suc (suc j) + n = omega arith in
    rw (step_later p b j d f h)
      (rw now (rw add-one (steps_later p b n (suc j) (grown b d) f (grown-le b d) (rw same at e))))

steps_start :
    (p : Policy) (b n : ℕ)
    → Fits p b
    → exhausted p n ≡ false
    → outcome (steps p n (record { step = 0; delay = pos 0 })) ≡ after (step_loop p n p.backoff)
unfolding steps step
steps_start p b zero f e = unfold step_loop in rw e
steps_start p b (suc n) f e =
    let now = not_yet p 0 (suc n) (omega arith) e in
    let same : suc n ≡ suc 0 + n = omega arith in
    rw now (
      simp (f.0, zero-add)
        (steps_later p b n 0 b f (omega arith) (rw same at e)
          ∙ ap after (sym (step_loop-rounds p b (suc n) b f (omega arith)))))

-- The delay that `StepN` computes for n is the one that `Step` reaches on its call number n + 1 from
-- the start, and both refuse at the same n, for every policy whose base delay is not negative and
-- fits int64 thirty-two times over.
pub step_n-steps :
    (p : Policy) (b n : ℕ)
    → Fits p b
    → step_n p n ≡ outcome (steps p n (record { step = 0; delay = pos 0 }))
unfolding step_n
step_n-steps p b n f = elim (Bool-cases (exhausted p n)) [
  | inl over ↦ rw over (
      sym (
        outcome_failed (steps p n s₀) max_attempts_exceeded
          (steps-exhausted p n s₀ (rw zero-add over))))
  | inr more ↦ rw more (sym (steps_start p b n f more))
]
  where
    s₀ : Progress
    s₀ = record { step = 0; delay = pos 0 }

rounds_last : (b n d : ℕ) → rounds b (suc n) d ≡ grown b (rounds b n d)
unfolding rounds
rounds_last b zero d = refl
rounds_last b (suc n) d = rounds_last b n (grown b d)

le-grown : (b d : ℕ) → d ≤ 20 * b → d ≤ grown b d
unfolding grown
le-grown b d h = omega arith

le-rounds : (b n d : ℕ) → d ≤ 20 * b → d ≤ rounds b n d
unfolding rounds
le-rounds b zero d h = omega arith
le-rounds b (suc n) d h = omega (arith, le-grown b d h, le-rounds b n (grown b d) (grown-le b d))

step_n-after :
    (p : Policy) (b n : ℕ) (d : ℤ) → Fits p b → step_n p n ≡ after d → d ≡ pos (rounds b n b)
unfolding step_n
step_n-after p b n d f h = ground (arith, step_loop-rounds p b n b f (omega arith), f.0)

-- A delay of `StepN` lies between the base delay and twenty times it, and the delay of the next
-- attempt, if there is one, is not shorter.
pub step_n_bounds :
    (p : Policy) (b n : ℕ) (d d' : ℤ)
    → Fits p b
    → step_n p n ≡ after d
    → step_n p (n + 1) ≡ after d'
    → (pos b ≤ℤ d) × (d ≤ℤ d') × (d' ≤ℤ pos (20 * b))
step_n_bounds p b n d d' f h h' =
    let l : b ≤ 20 * b = omega arith in
    let e : d ≡ pos (rounds b n b) = step_n-after p b n d f h in
    let e' : d' ≡ pos (rounds b (suc n) b) = step_n-after p b (suc n) d' f (rw (← add-one) h') in
    ground (
      arith,
      le-rounds b n b l,
      rounds-le b (suc n) b l,
      rounds_last b n b,
      le-grown b (rounds b n b) (rounds-le b n b l),
      e,
      e',
    )
