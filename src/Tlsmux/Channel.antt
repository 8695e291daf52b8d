-- ===== src/Tlsmux/Channel.antt =====
-- What becomes of the connections of a sublistener of tlsmux/listener.go.
use pmesh.Base.{
  ℕ, ◌+◌, ◌≤◌, ◌≡◌, refl, Bool, true, false, not, ◌&&◌, List, [], ◌∷◌, ◌++◌, ◌==◌, ltb, arith, ap,
  if_elim, length, length-append, if◌then◌else◌,
}
use pmesh.Tlsmux.Sublistener.{
  Channels, open_channels, Event, accept_conn, accept_done, hand_over, refuse, begin_close,
  mark_done, drain, receive, send_conn, take_step, run_events,
}

abbrev pub count : ℕ → List ℕ → ℕ
count c [] = 0
count c (x ∷ xs) = let rest = count c xs in if x == c then rest + 1 else rest

count-append : (c : ℕ) (xs ys : List ℕ) → count c (xs ++ ys) ≡ count c xs + count c ys
count-append c [] ys = omega arith
count-append c (x ∷ xs) ys = ground (arith, count-append c xs ys)

abbrev pub bit : Bool → ℕ
bit true = 1
bit false = 0

bit_le : (b : Bool) → bit b ≤ 1
bit_le true = omega arith
bit_le false = omega arith

-- Each connection is somewhere, only a closed backlog loses one, the backlog is bounded and empty once it is closed, and at most one call of
-- `Close` drains it.
record IsKept (s : Channels) : Type 0 where
  kept :
      (c : ℕ)
      → count c s.handed
        ≡ count c s.accepted + count c s.dropped + count c s.backlog + count c s.lost
  lost_late : s.backlog_closed ≡ false → length s.lost ≡ 0
  lost_panics : length s.lost ≤ s.panics
  bounded : length s.backlog ≤ 8
  emptied : s.backlog_closed ≡ true → length s.backlog ≡ 0
  once : s.drainers + bit s.backlog_closed ≡ bit s.done

receive-IsKept : (b : List ℕ) (s : Channels) → s.backlog ≡ b → IsKept s → IsKept (receive b s)
unfolding receive
receive-IsKept [] s e inv =
    if_elim IsKept s.backlog_closed
      (λ t. record {
        kept = inv.kept;
        bounded = inv.bounded;
        lost_late = inv.lost_late;
        lost_panics = let k = inv.lost_panics in omega arith;
        emptied = inv.emptied;
        once = inv.once;
      })
      (λ f. inv)
receive-IsKept (x ∷ rest) s e inv = record {
  kept = λ c. let k = inv.kept c in let f = ap (count c) e in ground arith;
  bounded = let k = inv.bounded in let f = ap length e in omega arith;
  lost_late = inv.lost_late;
  lost_panics = inv.lost_panics;
  emptied = λ t. let k = inv.emptied t in let f = ap length e in omega arith;
  once = inv.once;
}

send_conn-IsKept : (x : ℕ) (s : Channels) → IsKept s → IsKept (send_conn x s)
unfolding send_conn
send_conn-IsKept x s inv =
    if_elim IsKept s.backlog_closed
      (λ t. record {
        kept = λ c. let k = inv.kept c in ground arith;
        bounded = inv.bounded;
        lost_late = λ open_. absurd (ground arith);
        lost_panics = let k = inv.lost_panics in omega arith;
        emptied = inv.emptied;
        once = inv.once;
      })
      λ f.
        if_elim IsKept (ltb (length s.backlog) 8)
          (λ t. record {
            kept = λ c.
                let k = inv.kept c in let m = count-append c s.backlog (x ∷ []) in ground arith;
            bounded = let m = length-append s.backlog (x ∷ []) in ground arith;
            lost_late = inv.lost_late;
            lost_panics = inv.lost_panics;
            emptied = λ shut. absurd (ground arith);
            once = inv.once;
          })
          (λ full. inv)

drain-IsKept : (s : Channels) → IsKept s → IsKept (take_step drain s)
unfolding take_step
drain-IsKept s inv =
    if_elim IsKept (ltb 0 s.drainers)
      (λ some_drain.
        if_elim IsKept s.backlog_closed
          (λ t. absurd (let o = inv.once in let l = bit_le s.done in ground arith))
          (λ f. record {
            kept = λ c.
                let k = inv.kept c in let m = count-append c s.backlog s.dropped in ground arith;
            bounded = omega arith;
            lost_late = λ t. absurd (ground arith);
            lost_panics = inv.lost_panics;
            emptied = λ t. refl;
            once = let o = inv.once in let l = bit_le s.done in ground arith;
          }))
      (λ no_drain. inv)

mark-IsKept : (s : Channels) → IsKept s → IsKept (take_step mark_done s)
unfolding take_step
mark-IsKept s inv =
    if_elim IsKept (ltb 0 s.closers)
      (λ some_closer.
        if_elim IsKept s.done
          (λ t. record {
            kept = inv.kept;
            bounded = inv.bounded;
            lost_late = inv.lost_late;
            lost_panics = let k = inv.lost_panics in omega arith;
            emptied = inv.emptied;
            once = inv.once;
          })
          (λ f. record {
            kept = inv.kept;
            bounded = inv.bounded;
            lost_late = inv.lost_late;
            lost_panics = let k = inv.lost_panics in omega arith;
            emptied = inv.emptied;
            once = let o = inv.once in ground arith;
          }))
      (λ no_closer. inv)

take_take_step-IsKept : (e : Event) (s : Channels) → IsKept s → IsKept (take_step e s)
unfolding take_step
take_take_step-IsKept accept_conn s inv = receive-IsKept s.backlog s refl inv
take_take_step-IsKept accept_done s inv = inv
take_take_step-IsKept (hand_over c) s inv = send_conn-IsKept c s inv
take_take_step-IsKept (refuse x) s inv =
    if_elim IsKept s.done
      (λ t. record {
        kept = λ c. let k = inv.kept c in ground arith;
        bounded = inv.bounded;
        lost_late = inv.lost_late;
        lost_panics = let k = inv.lost_panics in omega arith;
        emptied = inv.emptied;
        once = inv.once;
      })
      (λ f. inv)
take_take_step-IsKept begin_close s inv =
    if_elim IsKept s.done (λ t. inv)
      (λ f. record {
        kept = inv.kept;
        bounded = inv.bounded;
        lost_late = inv.lost_late;
        lost_panics = let k = inv.lost_panics in omega arith;
        emptied = inv.emptied;
        once = inv.once;
      })
take_take_step-IsKept mark_done s inv = mark-IsKept s inv
take_take_step-IsKept drain s inv = drain-IsKept s inv

run-IsKept : (s : Channels) (events : List Event) → IsKept s → IsKept (run_events s events)
unfolding run_events
run-IsKept s [] inv = inv
run-IsKept s (e ∷ events) inv = run-IsKept (take_step e s) events (take_take_step-IsKept e s inv)

start-IsKept : IsKept open_channels
unfolding open_channels
start-IsKept = record {
  kept = λ c. refl;
  bounded = omega arith;
  lost_late = λ t. refl;
  lost_panics = omega arith;
  emptied = λ t. refl;
  once = refl;
}

-- However the goroutines interleave: of the connections that were handed in, each is accepted, closed,
-- still in the backlog or lost in a panic of `handleConn`, as often as it was handed in; there are at
-- least as many panics as losses, and no loss before the backlog is closed; and the backlog, of at most
-- 8, is empty once `Close` has drained it, which one call at most does.
pub connections_kept :
    (events : List Event) (c : ℕ)
    → let s = run_events open_channels events in
      (count c s.handed
        ≡ count c s.accepted + count c s.dropped + count c s.backlog + count c s.lost)
      × (length s.lost ≤ s.panics)
      × ((not s.backlog_closed && ltb 0 (length s.lost)) ≡ false)
      × (length s.backlog ≤ 8)
      × ((s.backlog_closed && ltb 0 (length s.backlog)) ≡ false)
      × (s.drainers + bit s.backlog_closed ≤ 1)
connections_kept events c =
    let inv = run-IsKept open_channels events start-IsKept in
    (
      inv.kept c,
      inv.lost_panics,
      let e = inv.lost_late in ground arith,
      inv.bounded,
      let e = inv.emptied in ground arith,
      let o = inv.once in let l = bit_le (run_events open_channels events).done in omega arith,
    )
