-- ===== src/Service/Restoring.antt =====
-- That a round of `tick` of service/svc_app.go restores the minimum of processes.
use pmesh.Base.{
  ℕ, zero, suc, ◌+◌, ◌-◌, ◌≤◌, ◌≡◌, ◌≢◌, Bool, true, false, none, List, [], ◌∷◌, ◌++◌, arith, refl,
  ltb, ◌==◌, ◌&&◌, Option-cases, inl, inr, length, length-append, if◌then◌else◌, if_elim,
}
use pmesh.Base.Int.{ℤ, pos, ◌+ℤ◌, leb_ℤ, i64}
use pmesh.Service.Process.{Process}
use pmesh.Service.App.{Floats, AppService}
use pmesh.Service.Server.{
  AppServer, Readings, Tally, get_processes, any_running, spawn_more, check_memory, refill, measure,
  measure_all, stop_idle, no_tally, total, auto_scale, supply, tick,
}
use pmesh.Service.Scaling.{check_memory_lem}

module _ {ℓ} {F : Type ℓ} (fl : Floats F) (app : AppService F) (r : Readings F) where
  refill_sufficient :
      (missing i : ℕ)
      → ((j : ℕ) → r.more j ≢ none)
      → app.slow_start ≡ false
      → length ((refill fl app r missing i).0) ≡ missing
  unfolding refill spawn_more
  refill_sufficient zero i h slow = refl
  refill_sufficient (suc missing) i h slow = elim (Option-cases (r.more i)) [
    | inl e ↦ absurd (h i e)
    | inr (pid, e) ↦ rw (e, slow, refill) (ground (arith, refill_sufficient missing (suc i) h slow))
  ]

  length-measure_all :
      (ps : List Process) (t : Tally) → length (measure_all fl app r ps t).0 ≡ length ps
  unfolding measure_all
  length-measure_all [] t = refl
  length-measure_all (p ∷ ps) t = ground (arith, length-measure_all ps (measure fl app r p t).1)

  length-stop_idle : (ps : List Process) → length (stop_idle fl app r ps) ≡ length ps
  unfolding stop_idle
  length-stop_idle [] = refl
  length-stop_idle (p ∷ ps) = ground (arith, length-stop_idle ps)

  length-auto_scale :
      (ps appended : List Process) (i : ℕ) (up_ticks : ℤ)
      → length ps + length appended ≤ length (auto_scale fl app r ps appended i up_ticks).processes
  unfolding auto_scale
  length-auto_scale ps appended i up_ticks =
      let m = measure_all fl app r ps no_tally in
      let more = spawn_more r.balancer (r.more i) in
      let same = length-measure_all ps no_tally in
      let t = m.1 in
      let ticks = if t.down == 0 && ltb t.neutral t.up then i64 (up_ticks +ℤ pos 1) else pos 0 in
      if_elim (λ (s : AppServer). length ps + length appended ≤ length s.processes)
        (leb_ℤ app.auto_scale_streak ticks && ltb (total t) app.cluster_n)
        (λ up.
          ground (arith, same, length-append (m.0 ++ appended) more, length-append m.0 appended))
        (λ not_up.
          if_elim (λ (s : AppServer). length ps + length appended ≤ length s.processes)
            (ltb app.cluster_min (total t) && ltb t.neutral t.down && t.up == 0)
            (λ down.
              ground (
                arith,
                same,
                length-stop_idle m.0,
                length-append (stop_idle fl app r m.0) appended,
              ))
            (λ not_down. ground (arith, same, length-append m.0 appended)))

  length-supply :
      (ps : List Process) (made : List Process × ℕ × Bool) (up_ticks : ℤ)
      → length ps + length made.0 ≤ length (supply fl app r ps made up_ticks).processes
  length-supply ps (appended, i, true) up_ticks = ground (arith, length-append ps appended)
  length-supply ps (appended, i, false) up_ticks =
      if_elim (λ (s : AppServer). length ps + length appended ≤ length s.processes) app.auto_scale
        (λ on. length-auto_scale ps appended i up_ticks)
        (λ off. ground (arith, length-append ps appended))

  -- Where every process starts and they are not started one by one, a round of the ticker with some
  -- process running restores the configured minimum of processes, counting those that still stop.
  pub tick_restores :
      (s : AppServer)
      → let list = get_processes s.processes in
        ((j : ℕ) → r.more j ≢ none)
        → app.slow_start ≡ false
        → any_running list ≡ true
        → app.cluster_min ≤ length (tick fl app r s).processes
  unfolding tick
  tick_restores s h slow some_run =
      let list = get_processes s.processes in
      let missing = app.cluster_min - length list in
      let checked = check_memory fl app r list in
      rw some_run (
        ground (
          arith,
          length-supply checked (refill fl app r missing 0) s.up_ticks,
          check_memory_lem fl app r list,
          refill_sufficient missing 0 h slow,
        ))
