-- ===== src/Rate/Limit/Clients.antt =====
-- Many goroutines in `Enforce` of rate/limit.go on one counter, as interleaved atomic steps.
use pmesh.Base.{ℕ, ◌+◌, ◌-◌, ◌≤◌, ◌<◌, ◌≡◌, ◌≢◌, refl, ◌⊎◌, inl, inr, false, Option, some, arith}
use pmesh.Base.Int.{ℤ, pos, leb_ℤ}
use pmesh.Rate.Limit.{
  Options, LimitCounter, Probe, joining, Ticket, waiting, probe, join, wake, leave, reset_counter,
}
use pmesh.Rate.Limit.Queue.{probe-queue, join-queue, wake-queue}

-- The counter, the goroutines between their probe and `queue.Add(1)`, those that hold a place in the
-- queue, and those of them that wait for their timer.
pub record System : Type 0 where
  pub counter : LimitCounter
  pub arriving : ℕ
  pub holding : ℕ
  pub sleeping : ℕ

pub data Step (l : Options) (s : System) : System → Type 0 where
  answer :
      {p : Probe} {c : LimitCounter} (now : ℕ)
      → probe l now s.counter ≡ some (p, c)
      → p ≢ joining
      → Step l s (record s { counter = c })
  approach :
      {c : LimitCounter} (now : ℕ)
      → probe l now s.counter ≡ some (joining, c)
      → Step l s (record s { counter = c; arriving = s.arriving + 1 })
  sleep :
      {c : LimitCounter} {d : ℤ} (now : ℕ) (left : Option ℤ)
      → 0 < s.arriving
      → join l now left s.counter ≡ some (waiting d, c)
      → Step l s (record {
        counter = c;
        arriving = s.arriving - 1;
        holding = s.holding + 1;
        sleeping = s.sleeping + 1;
      })
  give_up :
      {c : LimitCounter} {t : Ticket} (now : ℕ) (left : Option ℤ)
      → 0 < s.arriving
      → join l now left s.counter ≡ some (t, c)
      → Step l s (record s { counter = c; arriving = s.arriving - 1; holding = s.holding + 1 })
  rise :
      {c : LimitCounter} (now : ℕ)
      → 0 < s.sleeping
      → wake l now s.counter ≡ some c
      → Step l s (record s { counter = c; sleeping = s.sleeping - 1 })
  cancel : 0 < s.sleeping → Step l s (record s { sleeping = s.sleeping - 1 })
  depart :
      s.sleeping < s.holding
      → Step l s (record s { counter = leave s.counter; holding = s.holding - 1 })
  clear : Step l s (record s { counter = reset_counter s.counter })

pub data Reach (l : Options) (s : System) : System → Type 0 where
  here : Reach l s s
  next : {t u : System} → Reach l s t → Step l t u → Reach l s u

-- The queue counts the places held, and those that sleep are fewer than the burst.
pub record IsBounded (l : Options) (s : System) : Type 0 where
  pub counted : s.counter.queue ≡ s.holding
  pub held : s.sleeping ≤ s.holding
  pub below_burst : (s.sleeping ≡ 0) ⊎ (leb_ℤ l.burst (pos s.sleeping) ≡ false)

Step-IsBounded : {l : Options} {s t : System} → Step l s t → IsBounded l s → IsBounded l t
unfolding leave reset_counter
Step-IsBounded {l} {s} (answer {p} {c} now e _) b =
    ground (arith, probe-queue l now s.counter p c e)
Step-IsBounded {l} {s} (approach {c} now e) b =
    ground (arith, probe-queue l now s.counter joining c e)
Step-IsBounded {l} {s} (sleep {c} {d} now left h e) b =
    let (moved, room) = join-queue l now left s.counter (waiting d) c e in
    let r = room d refl in
    record { counted = ground arith; held = ground arith; below_burst = inr (ground arith) }
Step-IsBounded {l} {s} (give_up {c} {t} now left h e) b =
    let f = (join-queue l now left s.counter t c e).0 in ground arith
Step-IsBounded {l} {s} (rise {c} now h e) b = ground (arith, wake-queue l now s.counter c e)
Step-IsBounded (cancel h) b = ground arith
Step-IsBounded (depart h) b = ground arith
Step-IsBounded clear b = ground arith

-- However the callers interleave, and whenever the counter is reset: from a state in which nobody
-- holds a place, the queue length is the number of places held, and the callers that wait for
-- their timer stay fewer than the burst (none, if the burst is not positive).
pub Reach-IsBounded :
    {l : Options} {s t : System}
    → s.counter.queue ≡ s.holding
    → s.holding ≡ 0
    → s.sleeping ≡ 0
    → Reach l s t
    → IsBounded l t
Reach-IsBounded e f g here = record { counted = e; held = omega arith; below_burst = inl g }
Reach-IsBounded e f g (next r st) = Step-IsBounded st (Reach-IsBounded e f g r)
