-- ===== src/Health/Streak.antt =====
-- Streaks of failures and successes in the loop of health/monitor.go.
use pmesh.Base.{
  ℕ, suc, ◌≡◌, ◌≢◌, refl, sym, ap, ◌∙◌, Bool, true, false, some, List, [], ◌∷◌, arith, ◌⊎◌, inl,
  inr, Bool-cases,
}
use pmesh.Base.Int.{ℤ, pos, ◌+ℤ◌, ◌-ℤ◌, ◌<ℤ◌, ◌≤ℤ◌, leb_ℤ}
use pmesh.Health.{
  MonitorLoop, start, count, judge, observe_round, observe, healthy, unhealthy, unknown,
  HealthState, told,
}

-- How many of the last checks failed in a row.
unfoldable pub failures : List Bool → ℕ
failures [] = 0
failures (true ∷ checks) = 0
failures (false ∷ checks) = suc (failures checks)

-- Failures in a row are counted downwards from zero.
state_lem :
    (up down : MonitorLoop) (checks : List Bool)
    → pos 0 <ℤ up.threshold
    → ((pos 0 ≤ℤ (observe up down checks).state) × (failures checks ≡ 0))
      ⊎ ((observe up down checks).state ≡ pos 0 -ℤ pos (failures checks))
unfolding observe observe_round failures start count ◌-ℤ◌ ◌+ℤ◌
state_lem up down [] h = inl (ground arith)
state_lem up down (true ∷ checks) h = inl (ground (arith, state_lem up down checks h))
state_lem up down (false ∷ checks) h = inr (ground (arith, state_lem up down checks h))

up_not_false : (p : HealthState) → told p healthy ≢ some false
up_not_false healthy h = ground arith
up_not_false unhealthy h = ground arith
up_not_false unknown h = ground arith

unknown_not_false : (p : HealthState) → told p unknown ≢ some false
unknown_not_false healthy h = ground arith
unknown_not_false unhealthy h = ground arith
unknown_not_false unknown h = ground arith

told_false :
    (up down : MonitorLoop) (p : HealthState) (state : ℤ)
    → told p (judge up down state) ≡ some false
    → state ≤ℤ pos 0 -ℤ down.threshold
unfolding judge
told_false up down p state h = elim (Bool-cases (leb_ℤ up.threshold state)) [
  | inl above ↦
      let e : judge up down state ≡ healthy = rw above refl in
      absurd (up_not_false p (ap (told p) (sym e) ∙ h))
  | inr not_above ↦ elim (Bool-cases (leb_ℤ state (pos 0 -ℤ down.threshold))) [
    | inl below ↦ ground arith
    | inr between ↦
        let e : judge up down state ≡ unknown = rw (not_above, between) refl in
        absurd (unknown_not_false p (ap (told p) (sym e) ∙ h))
  ]
]

-- The observer is told that a service is down only at a failed check, and only when at least as many
-- checks have failed in a row as the threshold for it says.
pub told_down :
    (up down : MonitorLoop) (checks : List Bool) (check : Bool)
    → pos 0 <ℤ up.threshold
    → pos 0 <ℤ down.threshold
    → (observe_round up down (observe up down checks) check).1 ≡ some false
    → (check ≡ false) × (down.threshold ≤ℤ pos (failures (check ∷ checks)))
unfolding observe_round failures count ◌-ℤ◌ ◌+ℤ◌
told_down up down checks true hu hd h =
    let s =
      told_false up down (observe up down checks).previous
        (count (observe up down checks).state true) h in
    absurd (ground arith)
told_down up down checks false hu hd h =
    let s =
      told_false up down (observe up down checks).previous
        (count (observe up down checks).state false) h in
    (refl, ground (arith, state_lem up down checks hu))
