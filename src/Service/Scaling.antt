-- ===== src/Service/Scaling.antt =====
-- How many processes run behind a round of `tick` of service/svc_app.go.
use pmesh.Base.{
  ℕ, zero, suc, ◌+◌, ◌-◌, ◌≤◌, ◌<◌, ◌≡◌, Bool, true, false, Option, none, some, List, [], ◌∷◌, ◌++◌,
  arith, refl, ltb, ◌==◌, ◌&&◌, Bool-cases, Option-cases, inl, inr, max, length, if◌then◌else◌,
  if_elim, ltb→lt, and_left, and_right,
}
use pmesh.Base.Int.{ℤ, pos, ◌+ℤ◌, ◌≤ℤ◌, leb_ℤ, i64}
use pmesh.Service.Process.{Process, terminating}
use pmesh.Service.App.{Floats, AppService}
use pmesh.Service.Server.{
  AppServer, Readings, Tally, Spawned, refused, started, unready, get_processes, any_running,
  spawn_initial, spawn_more, stop_process, stop_large, check_memory, refill, measure, measure_all,
  stop_idle, no_tally, total, auto_scale, supply, revive, tick,
}

-- The processes that have not been told to stop.
unfoldable pub active : List Process → ℕ
unfolding terminating
active [] = 0
active (p ∷ ps) = if terminating p then active ps else suc (active ps)

active-append : (ps qs : List Process) → active (ps ++ qs) ≡ active ps + active qs
unfolding active
active-append [] qs = omega arith
active-append (p ∷ ps) qs = ground (arith, active-append ps qs)

active-spawn_more : (balancer : Bool) (o : Option ℕ) → active (spawn_more balancer o) ≤ 1
unfolding active spawn_more terminating
active-spawn_more balancer none = ground arith
active-spawn_more balancer (some pid) = ground arith

active-spawn_initial : (balancer : Bool) (o : Spawned) → active (spawn_initial balancer o) ≤ 1
unfolding spawn_initial active terminating
active-spawn_initial balancer refused = ground arith
active-spawn_initial balancer (started pid) = ground arith
active-spawn_initial balancer (unready pid) = ground arith

active_bound : (p : Process) → active (p ∷ []) ≤ 1
unfolding active
active_bound p = ground arith

active-cons : (p : Process) (ps : List Process) → active (p ∷ ps) ≡ active (p ∷ []) + active ps
unfolding active
active-cons p ps = ground arith

module _ {ℓ} {F : Type ℓ} (fl : Floats F) (app : AppService F) (r : Readings F) where
  refill_bound : (missing i : ℕ) → active ((refill fl app r missing i).0) ≤ missing
  unfolding refill active
  refill_bound zero i = ground arith
  refill_bound (suc missing) i = elim (Option-cases (r.more i)) [
    | inl e ↦ rw (e, refill) (ground arith)
    | inr (pid, e) ↦ elim (Bool-cases app.slow_start) [
      | inl slow ↦ rw (e, slow, refill) (ground (arith, active-spawn_more r.balancer (some pid)))
      | inr fast ↦
          rw (e, fast, refill)
            (ground (
              arith,
              active-spawn_more r.balancer (some pid),
              refill_bound missing (suc i),
              active-append (spawn_more r.balancer (some pid))
                  ((refill fl app r missing (suc i)).0),
            ))
    ]
  ]

  measure_lem :
      (p : Process) (t : Tally)
      → (active ((measure fl app r p t).0 ∷ []) ≡ active (p ∷ []))
        × (total (measure fl app r p t).1 ≡ total t + active (p ∷ []))
  unfolding measure terminating active
  measure_lem p t = ground arith

  measure_all_lem :
      (ps : List Process) (t : Tally)
      → (active (measure_all fl app r ps t).0 ≡ active ps)
        × (total (measure_all fl app r ps t).1 ≡ total t + active ps)
  unfolding measure_all active
  measure_all_lem [] t = ground arith
  measure_all_lem (p ∷ ps) t =
      let first = measure fl app r p t in
      let rest = measure_all fl app r ps first.1 in
      ground (
        arith,
        measure_lem p t,
        measure_all_lem ps first.1,
        active-cons p ps,
        active-cons first.0 rest.0,
      )

  stop_idle_lem :
      (ps : List Process)
      → (active (stop_idle fl app r ps) ≤ active ps)
        × (active ps ≤ suc (active (stop_idle fl app r ps)))
  unfolding stop_idle active terminating
  stop_idle_lem [] = ground arith
  stop_idle_lem (p ∷ ps) = ground (
    arith,
    stop_idle_lem ps,
    active-cons (stop_process fl app r p) ps,
    active_bound (stop_process fl app r p),
  )

  stop_large_lem :
      (ps : List Process)
      → (active (stop_large fl app r ps) ≤ active ps)
        × (length (stop_large fl app r ps) ≡ length ps)
  unfolding stop_large active terminating
  stop_large_lem [] = ground arith
  stop_large_lem (p ∷ ps) = ground (
    arith,
    stop_large_lem ps,
    active-cons (stop_process fl app r p) (stop_large fl app r ps),
    active_bound (stop_process fl app r p),
  )

  -- A round of scaling starts or stops at most one process, within the two numbers of instances.
  abbrev IsScaled : List Process → List Process → AppServer → Type 0
  IsScaled ps appended s =
      (active s.processes ≤ max (active ps) app.cluster_n + active appended)
      × (active ps + active appended ≤ suc (active s.processes))
      × (app.cluster_min ≤ active ps → app.cluster_min ≤ active s.processes)

  auto_scale_lem :
      (ps appended : List Process) (i : ℕ) (up_ticks : ℤ)
      → IsScaled ps appended (auto_scale fl app r ps appended i up_ticks)
  unfolding auto_scale
  auto_scale_lem ps appended i up_ticks =
      let m = measure_all fl app r ps no_tally in
      let t = m.1 in
      let more = spawn_more r.balancer (r.more i) in
      let idle = stop_idle fl app r m.0 in
      let ticks = if t.down == 0 && ltb t.neutral t.up then i64 (up_ticks +ℤ pos 1) else pos 0 in
      let measured = measure_all_lem ps no_tally in
      if_elim (IsScaled ps appended)
        (leb_ℤ app.auto_scale_streak ticks && ltb (total t) app.cluster_n)
        (λ up.
          let room : total t < app.cluster_n =
            ltb→lt (total t) app.cluster_n
              (and_right (leb_ℤ app.auto_scale_streak ticks) (ltb (total t) app.cluster_n) up) in
          ground (
            arith,
            measured,
            active-append (m.0 ++ appended) more,
            active-append m.0 appended,
            active-spawn_more r.balancer (r.more i),
          ))
        (λ not_up.
          if_elim (IsScaled ps appended)
            (ltb app.cluster_min (total t) && ltb t.neutral t.down && t.up == 0)
            (λ down.
              let above : app.cluster_min < total t = ltb→lt app.cluster_min (total t) (
                and_left (ltb app.cluster_min (total t)) (ltb t.neutral t.down) (
                  and_left (ltb app.cluster_min (total t) && ltb t.neutral t.down) (t.up == 0)
                    down)) in
              ground (arith, measured, stop_idle_lem m.0, active-append idle appended))
            (λ not_down. ground (arith, measured, active-append m.0 appended)))

  supply_lem :
      (ps : List Process) (made : List Process × ℕ × Bool) (up_ticks : ℤ)
      → IsScaled ps made.0 (supply fl app r ps made up_ticks)
  supply_lem ps (appended, i, true) up_ticks = ground (arith, active-append ps appended)
  supply_lem ps (appended, i, false) up_ticks =
      if_elim (IsScaled ps appended) app.auto_scale (λ on. auto_scale_lem ps appended i up_ticks)
        (λ off. ground (arith, active-append ps appended))

  pub check_memory_lem :
      (ps : List Process)
      → (active (check_memory fl app r ps) ≤ active ps)
        × (length (check_memory fl app r ps) ≡ length ps)
        × (app.max_memory ≤ℤ pos 0 → active (check_memory fl app r ps) ≡ active ps)
  unfolding check_memory
  check_memory_lem ps = ground (arith, stop_large_lem ps)

  running-active : (ps : List Process) → any_running ps ≡ false → active ps ≡ 0
  unfolding any_running active
  running-active [] e = refl
  running-active (p ∷ ps) e = ground (arith, running-active ps)

  revive_lem :
      (ps : List Process) (up_ticks : ℤ)
      → active (revive fl app r ps up_ticks).processes ≤ max (active ps) 1
  unfolding active
  revive_lem [] up_ticks = ground (arith, active-spawn_initial r.balancer r.initial)
  revive_lem (p ∷ ps) up_ticks = ground arith

  -- A round of the ticker never makes more processes active than the larger of their number before
  -- and of the configured maximum, but for those that it starts to restore the minimum.
  pub tick_upper :
      (s : AppServer)
      → let list = get_processes s.processes in
        1 ≤ app.cluster_n
        → active (tick fl app r s).processes
          ≤ max (active list) app.cluster_n + (app.cluster_min - length list)
  unfolding tick
  tick_upper s h =
      let list = get_processes s.processes in
      let checked = check_memory fl app r list in
      let made = refill fl app r (app.cluster_min - length list) 0 in
      if_elim
        (λ (after : AppServer).
          active after.processes
          ≤ max (active list) app.cluster_n + (app.cluster_min - length list))
        (any_running list)
        (λ some_run. ground (
          arith,
          supply_lem checked made s.up_ticks,
          check_memory_lem list,
          refill_bound (app.cluster_min - length list) 0,
        ))
        (λ none_run. ground (arith, revive_lem list s.up_ticks))

  -- Where no memory limit is set, a round of the ticker stops at most one process, and none where
  -- as few as the configured minimum are active.
  pub tick_lower :
      (s : AppServer)
      → let list = get_processes s.processes in
        app.max_memory ≤ℤ pos 0
        → (active list ≤ suc (active (tick fl app r s).processes))
          × (app.cluster_min ≤ active list → app.cluster_min ≤ active (tick fl app r s).processes)
  unfolding tick
  tick_lower s h =
      let list = get_processes s.processes in
      let checked = check_memory fl app r list in
      let made = refill fl app r (app.cluster_min - length list) 0 in
      if_elim
        (λ (after : AppServer).
          (active list ≤ suc (active after.processes))
          × (app.cluster_min ≤ active list → app.cluster_min ≤ active after.processes))
        (any_running list)
        (λ some_run. ground (arith, supply_lem checked made s.up_ticks, check_memory_lem list))
        (λ none_run. ground (arith, running-active list none_run))
