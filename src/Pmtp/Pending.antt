-- ===== src/Pmtp/Pending.antt =====
-- What becomes of the packets that wait for a reply in pmtp/jrpc_code.go.
use pmesh.Base.{
  ℕ, ◌+◌, ◌%◌, ◌^◌, ◌≤◌, ◌≡◌, ◌≢◌, refl, Option, none, some, List, [], ◌∷◌, ◌++◌, arith, ◌==◌,
  if◌then◌else◌, Bool-cases, Option-cases, inl, inr,
}
use pmesh.Pmtp.Duplex.{
  Duplex, DuplexError, Signal, masked, is_reply, new_duplex, find_pending, delete_pending,
  close_all, shutdown, pop, promise, sent, ended, next_seq, begin_roundtrip, Frame, no_header,
  frame, finish_reply, input_round, Event, call, receive, stop, step, run,
}

-- How often a packet waits, and how often its channel has carried something.
unfoldable pub waiting : ℕ → List (ℕ × ℕ) → ℕ
waiting p [] = 0
waiting p ((s, q) ∷ ps) = (if q == p then 1 else 0) + waiting p ps

unfoldable pub signalled : ℕ → List (ℕ × Signal) → ℕ
signalled p [] = 0
signalled p ((q, s) ∷ ss) = (if q == p then 1 else 0) + signalled p ss

signalled-append :
    (p : ℕ) (ss ts : List (ℕ × Signal)) → signalled p (ss ++ ts) ≡ signalled p ss + signalled p ts
unfolding signalled
signalled-append p [] ts = omega arith
signalled-append p ((q, s) ∷ ss) ts = ground (arith, signalled-append p ss ts)

signalled-close_all : (p : ℕ) (ps : List (ℕ × ℕ)) → signalled p (close_all ps) ≡ waiting p ps
unfolding signalled waiting close_all
signalled-close_all p [] = refl
signalled-close_all p ((s, q) ∷ ps) = ground (arith, signalled-close_all p ps)

waiting-delete_pending :
    (p s : ℕ) (ps : List (ℕ × ℕ)) → waiting p (delete_pending s ps) ≤ waiting p ps
unfolding waiting delete_pending
waiting-delete_pending p s [] = ground arith
waiting-delete_pending p s ((t, q) ∷ ps) = ground (arith, waiting-delete_pending p s ps)

-- The packet that is found waits once more than those that are left.
pub waiting-find_pending :
    (p s q : ℕ) (ps : List (ℕ × ℕ))
    → find_pending s ps ≡ some q
    → waiting p (delete_pending s ps) + (if q == p then 1 else 0) ≤ waiting p ps
unfolding waiting delete_pending find_pending
waiting-find_pending p s q [] e = ground arith
waiting-find_pending p s q ((t, r) ∷ ps) e = elim (Bool-cases (t == s)) [
  | inl here ↦ ground (arith, waiting-delete_pending p s ps)
  | inr there ↦ ground (arith, waiting-find_pending p s q ps)
]

-- How often a packet waits or was signalled.
abbrev tally : ℕ → Duplex → ℕ
tally p d = waiting p d.pending + signalled p d.signals

tally-shutdown : (p : ℕ) (e : Option DuplexError) (d : Duplex) → tally p (shutdown e d) ≡ tally p d
unfolding shutdown waiting
tally-shutdown p e d = elim (Option-cases d.failed) [
  | inl up ↦
      rw (up, shutdown)
        (ground (
          arith,
          signalled-append p (close_all d.pending) d.signals,
          signalled-close_all p d.pending,
        ))
  | inr (f, down) ↦ rw (down, shutdown) refl
]

-- A shutdown of an open connection signals every packet that waits, once, and leaves none waiting.
pub shutdown_signals :
    (p : ℕ) (e : Option DuplexError) (d : Duplex)
    → d.failed ≡ none
    → (signalled p (shutdown e d).signals ≡ waiting p d.pending + signalled p d.signals)
      × (waiting p (shutdown e d).pending ≡ 0)
      × ((shutdown e d).failed ≢ none)
unfolding shutdown waiting
shutdown_signals p e d up =
    rw (up, shutdown)
      (ground (
        arith,
        signalled-append p (close_all d.pending) d.signals,
        signalled-close_all p d.pending,
      ))

tally-promise :
    (q s p : ℕ) (d : Duplex) → tally q (promise s p d).0 ≤ tally q d + (if p == q then 1 else 0)
unfolding promise waiting
tally-promise q s p d = elim (Option-cases d.failed) [
  | inl up ↦ rw (up, promise) (ground (arith, waiting-delete_pending q s d.pending))
  | inr (f, down) ↦ rw (down, promise) (ground arith)
]

tally-sent :
    (q : ℕ) (w : Option DuplexError) (r : Duplex × Option DuplexError)
    → tally q (sent w r).0 ≡ tally q r.0
tally-sent q w (d, some f) = refl
tally-sent q none (d, none) = refl
tally-sent q (some e) (d, none) = tally-shutdown q (some e) d

tally-ended : (q : ℕ) (r : Duplex × Option DuplexError) → tally q (ended r) ≡ tally q r.0
tally-ended q (d, none) = refl
tally-ended q (d, some e) = tally-shutdown q (some e) d

abbrev got : ℕ → Option ℕ → ℕ
got q none = 0
got q (some p) = if p == q then 1 else 0

tally-pop : (q s : ℕ) (d : Duplex) → tally q (pop s d).0 + got q (pop s d).1 ≤ tally q d
unfolding pop
tally-pop q s d = elim (Option-cases d.failed) [
  | inl up ↦ elim (Option-cases (find_pending (masked s) d.pending)) [
    | inl unknown ↦ rw (up, pop) (rw (unknown) (ground arith))
    | inr (p, found) ↦
        rw (up, pop)
          (rw (found) (ground (arith, waiting-find_pending q (masked s) p d.pending found)))
  ]
  | inr (f, down) ↦ rw (down, pop) (ground arith)
]

tally-finish_reply :
    (q s : ℕ) (body : Option DuplexError) (r : Duplex × Option ℕ)
    → tally q (finish_reply s body r).0 ≤ tally q r.0 + got q r.1
unfolding signalled
tally-finish_reply q s (some e) (d, p) = ground arith
tally-finish_reply q s none (d, none) = ground arith
tally-finish_reply q s none (d, some p) = ground arith

tally-begin_roundtrip :
    (q p : ℕ) (w : Option DuplexError) (d : Duplex)
    → tally q (begin_roundtrip p w d).0 ≤ tally q d + (if p == q then 1 else 0)
unfolding begin_roundtrip
tally-begin_roundtrip q p w d =
    let s = masked ((d.seq + 1) % 2 ^ 32) in
    ground (arith, tally-sent q w (promise s p (next_seq d)), tally-promise q s p (next_seq d))

-- A frame adds nothing to the tally of a packet.
tally-input_round : (q : ℕ) (f : Frame) (d : Duplex) → tally q (input_round f d).0 ≤ tally q d
unfolding input_round
tally-input_round q (no_header e) d = ground arith
tally-input_round q (frame s body) d = elim (Bool-cases (is_reply s)) [
  | inl reply ↦
      rw (reply, input_round)
        (ground (arith, tally-pop q s d, tally-finish_reply q s body (pop s d)))
  | inr request ↦ rw (request, input_round) (ground arith)
]

-- How many of the events are calls for a packet.
unfoldable pub calls : ℕ → List Event → ℕ
calls q [] = 0
calls q (call p w ∷ es) = (if p == q then 1 else 0) + calls q es
calls q (receive f ∷ es) = calls q es
calls q (stop e ∷ es) = calls q es

tally-step : (q : ℕ) (e : Event) (d : Duplex) → tally q (step e d) ≤ tally q d + calls q (e ∷ [])
unfolding step calls
tally-step q (call p w) d = ground (arith, tally-begin_roundtrip q p w d)
tally-step q (receive f) d =
    ground (arith, tally-ended q (input_round f d), tally-input_round q f d)
tally-step q (stop e) d = ground (arith, tally-shutdown q e d)

tally-run : (q : ℕ) (es : List Event) (d : Duplex) → tally q (run es d) ≤ tally q d + calls q es
unfolding run calls
tally-run q [] d = ground arith
tally-run q (call p w ∷ es) d =
    ground (arith, tally-step q (call p w) d, tally-run q es (step (call p w) d))
tally-run q (receive f ∷ es) d =
    ground (arith, tally-step q (receive f) d, tally-run q es (step (receive f) d))
tally-run q (stop e ∷ es) d =
    ground (arith, tally-step q (stop e) d, tally-run q es (step (stop e) d))

-- Whatever the connection delivers, whenever it fails and whoever shuts it down, the channel of a
-- packet carries at most one signal for each call it is used for: it is not closed twice, and nothing
-- is sent on it behind its close.
pub signalled_once :
    (q : ℕ) (es : List Event) → signalled q (run es new_duplex).signals ≤ calls q es
unfolding waiting signalled
signalled_once q es = ground (arith, tally-run q es new_duplex)
