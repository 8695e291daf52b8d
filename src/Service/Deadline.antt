-- ===== src/Service/Deadline.antt =====
-- The deadlines of a termination in service/svc_app.go: how they move, that a signal is sent once,
-- and that a process that does not stop is killed.
use pmesh.Base.{
  ℕ, ◌+◌, ◌*◌, ◌/◌, ◌≤◌, ◌<◌, ◌≡◌, ◌≢◌, ◌⊎◌, inl, inr, Bool, true, false, Option, none, some, List,
  [], ◌∷◌, refl, arith, ltb, leb, Bool-cases, leb→le, ◌||◌,
}
use pmesh.Service.Process.{
  Process, millisecond, terminating, bump_loop, bump_deadline, update_deadline, Effect, nothing,
  request, drain_and_request, try_terminate, terminate_loop, terminate,
}

-- A deadline is in store, and not behind the previous one.
abbrev pub IsEarlier : ℕ → ℕ → Type 0
IsEarlier prev d = (0 < d) × (0 < prev → d ≤ prev)

-- Each of the deadlines that others store is earlier than the one before.
abbrev pub Falling : ℕ → List ℕ → Type 0
Falling prev [] = Unit
Falling prev (d ∷ ds) = IsEarlier prev d × Falling d ds

-- The answer agrees with the clock, up to the millisecond.
abbrev pub IsTimely : ℕ → ℕ × Bool → Type 0
IsTimely now r =
    (r.1 ≡ true → r.0 * millisecond < now) × (r.1 ≡ false → now < r.0 * millisecond + millisecond)

abbrev IsBumped : ℕ → ℕ → ℕ → ℕ × Bool → Type 0
IsBumped now limit prev r = (r.0 * millisecond ≤ limit) × IsEarlier prev r.0 × IsTimely now r

bump_loop_lem :
    (now into_t : ℕ) (others : List ℕ) (prev : ℕ)
    → millisecond ≤ now
    → now ≤ into_t
    → Falling prev others
    → IsBumped now into_t prev (bump_loop now into_t others prev)
unfolding bump_loop
bump_loop_lem now into_t [] prev h l _ = ground arith
bump_loop_lem now into_t (other ∷ others) prev h l (ho, hs) =
    ground (arith, bump_loop_lem now into_t others other h l hs)

-- Whatever other goroutines store meanwhile, as long as their deadlines only move to the front, the
-- deadline that a call leaves is at most the stop timeout away, does not lie behind the previous
-- one, and the answer says, up to a millisecond, whether it has passed.
pub bump_deadline_lem :
    (stop now : ℕ) (others : List ℕ) (prev into_t : ℕ)
    → 2 * millisecond ≤ now
    → Falling prev others
    → let r = bump_deadline stop now others prev into_t in
      (r.0 * millisecond ≤ now + stop) × IsEarlier prev r.0 × IsTimely now r
unfolding bump_deadline
bump_deadline_lem stop now others prev into_t h f =
    ground (arith, bump_loop_lem now (now + stop) others prev, bump_loop_lem now into_t others prev)

abbrev effects : Effect → ℕ
effects nothing = 0
effects request = 1
effects drain_and_request = 1

-- The calls of `tryTerminate` of a list, each at its time and with the deadline of its context, and
-- how many of them ask for a signal.
unfoldable pub calls : ℕ → List (ℕ × Option ℕ) → Process → Process × ℕ
calls stop [] p = (p, 0)
calls stop ((now, deadline) ∷ cs) p =
    let called = try_terminate stop now deadline p in
    let rest = calls stop cs called.0 in (rest.0, effects called.2 + rest.1)

abbrev sent : Process → ℕ
sent p = elim p.signal_sent [ true ↦ 1 | false ↦ 0 ]

sent_bound : (p : Process) → sent p ≤ 1
sent_bound p = elim (Bool-cases p.signal_sent) [ inl e ↦ ground arith | inr e ↦ ground arith ]

try_terminate_sends :
    (stop now : ℕ) (deadline : Option ℕ) (p : Process)
    → let called = try_terminate stop now deadline p in effects called.2 + sent p ≤ sent called.0
unfolding try_terminate
try_terminate_sends stop now deadline p = elim (Bool-cases p.dead) [
  | inl e ↦ rw e (ground arith)
  | inr e ↦ elim (Bool-cases ((update_deadline stop now deadline p.terminate_deadline).1)) [
    | inl timeout ↦ rw e (ground arith)
    | inr in_time ↦ rw e (ground arith)
  ]
]

calls_sends :
    (stop : ℕ) (cs : List (ℕ × Option ℕ)) (p : Process)
    → (calls stop cs p).1 + sent p ≤ sent (calls stop cs p).0
unfolding calls
calls_sends stop [] p = ground arith
calls_sends stop ((now, deadline) ∷ cs) p =
    let called = try_terminate stop now deadline p in
    ground (arith, try_terminate_sends stop now deadline p, calls_sends stop cs called.0)

-- However often the termination of a process is tried, by the health monitor, the ticker and the
-- server, with whatever deadlines, the process is sent at most one request to stop, and none if one
-- was sent before.
pub calls_once :
    (stop : ℕ) (cs : List (ℕ × Option ℕ)) (p : Process)
    → ((calls stop cs p).1 ≤ 1) × (p.signal_sent ≡ true → (calls stop cs p).1 ≡ 0)
calls_once stop cs p =
    ground (arith, calls_sends stop cs p, sent_bound (calls stop cs p).0, sent_bound p)

-- A call either ends the process, or leaves a deadline at most the stop timeout away, the request to
-- stop sent, and no upstream marked healthy.
abbrev pub IsStopping : ℕ → Process → Type 0
IsStopping limit p =
    (terminating p ≡ true)
    × (p.terminate_deadline * millisecond ≤ limit)
    × (p.signal_sent ≡ true)
    × (p.upstream ≢ some true)

abbrev IsLate : ℕ → ℕ → Type 0
IsLate limit now = limit + 2 * millisecond ≤ now

update_in_time :
    (stop now : ℕ) (deadline : Option ℕ) (dl : ℕ)
    → 2 * millisecond ≤ now
    → (0 < dl → dl * millisecond ≤ now + stop)
    → let r = update_deadline stop now deadline dl in (0 < r.0) × (r.0 * millisecond ≤ now + stop)
unfolding update_deadline
update_in_time stop now none dl h l = ground (arith, bump_deadline_lem stop now [] dl (now + stop))
update_in_time stop now (some d) dl h l = ground (arith, bump_deadline_lem stop now [] dl d)

-- A call that does not end the process leaves it stopping: its deadline is set, at most the stop
-- timeout away, it has been asked to stop, and its upstream, if any, is marked unhealthy.
pub try_terminate_lem :
    (stop now : ℕ) (deadline : Option ℕ) (p : Process)
    → 2 * millisecond ≤ now
    → (0 < p.terminate_deadline → p.terminate_deadline * millisecond ≤ now + stop)
    → let called = try_terminate stop now deadline p in
      ((called.1 ≡ true) × (called.0.dead ≡ true))
      ⊎ ((called.1 ≡ false) × IsStopping (now + stop) called.0)
unfolding try_terminate terminating
try_terminate_lem stop now deadline p h l =
    let u = update_in_time stop now deadline p.terminate_deadline h l in
    elim (Bool-cases p.dead) [
      | inl e ↦ inl (rw e (ground arith))
      | inr e ↦ elim (Bool-cases ((update_deadline stop now deadline p.terminate_deadline).1)) [
        | inl timeout ↦ inl (rw e (ground arith))
        | inr in_time ↦ inr (rw e (ground arith))
      ]
    ]

-- Without a deadline of the context, one that is in store stays.
update_again :
    (stop now d : ℕ) → 0 < d → update_deadline stop now none d ≡ (d, ltb d (now / millisecond))
unfolding update_deadline
update_again stop now d h = ground arith

late_call :
    (stop now limit : ℕ) (p : Process)
    → IsStopping limit p
    → IsLate limit now
    → let called = try_terminate stop now none p in (called.1 ≡ true) × (called.0.dead ≡ true)
unfolding try_terminate terminating
late_call stop now limit p s l =
    let positive : 0 < p.terminate_deadline = ground arith in
    let u = update_again stop now p.terminate_deadline positive in
    let late : ltb p.terminate_deadline (now / millisecond) ≡ true = ground arith in
    elim (Bool-cases p.dead) [
      | inl e ↦ rw e (ground arith)
      | inr e ↦ rw (e, u, late) (ground arith)
    ]

again :
    (stop now limit : ℕ) (p : Process)
    → IsStopping limit p
    → let called = try_terminate stop now none p in
      ((called.1 ≡ true) × (called.0.dead ≡ true))
      ⊎ ((called.1 ≡ false) × IsStopping limit called.0)
unfolding try_terminate terminating
again stop now limit p s =
    let positive : 0 < p.terminate_deadline = ground arith in
    let u = update_again stop now p.terminate_deadline positive in
    elim (Bool-cases p.dead) [
      | inl e ↦ inl (rw e (ground arith))
      | inr e ↦ elim (Bool-cases (ltb p.terminate_deadline (now / millisecond))) [
        | inl late ↦ inl (rw (e, u, late) (ground arith))
        | inr in_time ↦ inr (rw (e, u, in_time) (ground arith))
      ]
    ]

-- Some round meets the end of the process or a clock behind the limit.
unfoldable pub meets_end : ℕ → List (ℕ × Bool) → Bool
meets_end limit [] = false
meets_end limit ((now, died) ∷ rounds) =
    died || leb (limit + 2 * millisecond) now || meets_end limit rounds

terminate_loop_ends :
    (stop limit : ℕ) (rounds : List (ℕ × Bool)) (p : Process)
    → IsStopping limit p
    → meets_end limit rounds ≡ true
    → let r = terminate_loop stop rounds p in (r.1 ≡ true) × (r.0.dead ≡ true)
unfolding terminate_loop meets_end
terminate_loop_ends stop limit [] p s m = ground arith
terminate_loop_ends stop limit ((now, true) ∷ rounds) p s m = (refl, refl)
terminate_loop_ends stop limit ((now, false) ∷ rounds) p s m =
    let called = try_terminate stop now none p in
    elim (again stop now limit p s) [
      | inl (ended, died) ↦ rw (ended, terminate_loop) (refl, died)
      | inr (open_, stopping) ↦ elim (Bool-cases (leb (limit + 2 * millisecond) now)) [
        | inl late ↦
            let l = late_call stop now limit p s (leb→le (limit + 2 * millisecond) now late) in
            rw (l.0, terminate_loop) (refl, l.1)
        | inr early ↦
            rw (open_, terminate_loop)
              (terminate_loop_ends stop limit rounds called.0 stopping (ground arith))
      ]
    ]

-- `terminate` ends: behind its loop the process is dead, as soon as some round finds that it has
-- exited or that the stop timeout, counted from the call, is over (by two milliseconds, as deadlines
-- are rounded down). No request, signal or answer of the process is needed for it.
pub terminate_ends :
    (stop now : ℕ) (deadline : Option ℕ) (rounds : List (ℕ × Bool)) (p : Process)
    → 2 * millisecond ≤ now
    → (0 < p.terminate_deadline → p.terminate_deadline * millisecond ≤ now + stop)
    → meets_end (now + stop) rounds ≡ true
    → let r = terminate stop now deadline rounds p in (r.1 ≡ true) × (r.0.dead ≡ true)
unfolding terminate
terminate_ends stop now deadline rounds p h l m = elim (try_terminate_lem stop now deadline p h l) [
  | inl (ended, died) ↦ rw (ended, terminate) (refl, died)
  | inr (open_, stopping) ↦
      rw (open_, terminate)
        (terminate_loop_ends stop (now + stop) rounds ((try_terminate stop now deadline p).0)
          stopping m)
]
