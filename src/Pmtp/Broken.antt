-- ===== src/Pmtp/Broken.antt =====
-- Connections of pmtp/jrpc_code.go that are down, and replies that break off.
use pmesh.Base.{
  ℕ, ◌+◌, ◌%◌, ◌^◌, ◌≡◌, refl, ap, ◌∙◌, true, Option, none, some, List, [], ◌∷◌, arith, Bool-cases,
  inl, inr, ==_refl,
}
use pmesh.Pmtp.Duplex.{
  Duplex, DuplexError, masked, is_reply, find_pending, delete_pending, shutdown, pop, promise,
  put_pending, take_found, sent, ended, next_seq, begin_roundtrip, no_header, frame, finish_reply,
  input_round, Event, call, receive, stop, step, run,
}
use pmesh.Pmtp.Pending.{waiting, signalled, waiting-find_pending, shutdown_signals}

-- A connection that is shut down stays so, and signals no one.
abbrev IsDown : Duplex → DuplexError → Duplex → Type 0
IsDown d f d' = (d'.failed ≡ some f) × (d'.signals ≡ d.signals)

shutdown-IsDown :
    (f : DuplexError) (e : Option DuplexError) (d : Duplex)
    → d.failed ≡ some f
    → IsDown d f (shutdown e d)
unfolding shutdown
shutdown-IsDown f e d h = rw (h, shutdown) (ground arith)

promise_down :
    (f : DuplexError) (s p : ℕ) (d : Duplex) → d.failed ≡ some f → promise s p d ≡ (d, some f)
unfolding promise
promise_down f s p d h = ap (λ g. put_pending g s p d) h

pop_down : (f : DuplexError) (s : ℕ) (d : Duplex) → d.failed ≡ some f → pop s d ≡ (d, none)
unfolding pop
pop_down f s d h = ap (λ g. take_found g (find_pending (masked s) d.pending) (masked s) d) h

step-IsDown : (f : DuplexError) (e : Event) (d : Duplex) → d.failed ≡ some f → IsDown d f (step e d)
unfolding step begin_roundtrip input_round
step-IsDown f (call p w) d h =
    let e = promise_down f (masked ((d.seq + 1) % 2 ^ 32)) p (next_seq d) h in
    (ap (λ r. (sent w r).0.failed) e ∙ h, ap (λ r. (sent w r).0.signals) e)
step-IsDown f (receive (no_header e)) d h = shutdown-IsDown f (some e) d h
step-IsDown f (receive (frame s none)) d h = elim (Bool-cases (is_reply s)) [
  | inl reply ↦ rw (reply, input_round) (rw (pop_down f s d h) (h, refl))
  | inr request ↦ rw (request, input_round) (h, refl)
]
step-IsDown f (receive (frame s (some e))) d h = elim (Bool-cases (is_reply s)) [
  | inl reply ↦ rw (reply, input_round) (rw (pop_down f s d h) (shutdown-IsDown f (some e) d h))
  | inr request ↦ rw (request, input_round) (shutdown-IsDown f (some e) d h)
]
step-IsDown f (stop e) d h = shutdown-IsDown f e d h

down_run :
    (f : DuplexError) (es : List Event) (d : Duplex)
    → d.failed ≡ some f
    → (run es d).signals ≡ d.signals
unfolding run
down_run f [] d h = refl
down_run f (e ∷ es) d h = let s = step-IsDown f e d h in down_run f es (step e d) s.0 ∙ s.1

pop_found :
    (q s : ℕ) (d : Duplex)
    → d.failed ≡ none
    → find_pending (masked s) d.pending ≡ some q
    → pop s d ≡ (record d { pending = delete_pending (masked s) d.pending }, some q)
unfolding pop
pop_found q s d up found =
    ap (λ g. take_found g (find_pending (masked s) d.pending) (masked s) d) up
    ∙ ap (λ o. take_found none o (masked s) d) found

broken_reply :
    (q s : ℕ) (e : DuplexError) (d : Duplex)
    → d.failed ≡ none
    → is_reply s ≡ true
    → find_pending (masked s) d.pending ≡ some q
    → step (receive (frame s (some e))) d
      ≡ shutdown (some e) (record d { pending = delete_pending (masked s) d.pending })
unfolding step input_round
broken_reply q s e d up reply found =
    rw (reply, input_round) (ap (λ r. ended (finish_reply s (some e) r)) (pop_found q s d up found))

failed_shutdown :
    (e : DuplexError) (d : Duplex) → d.failed ≡ none → (shutdown (some e) d).failed ≡ some e
unfolding shutdown
failed_shutdown e d up = rw (up, shutdown) refl

-- A packet whose reply breaks off behind its header is never signalled, neither with the reply nor
-- by the shutdown that the error leads to, whatever happens to the connection afterwards: the call
-- that waits for it does not return.
pub reply_broken :
    (q s : ℕ) (e : DuplexError) (es : List Event) (d : Duplex)
    → d.failed ≡ none
    → is_reply s ≡ true
    → find_pending (masked s) d.pending ≡ some q
    → waiting q d.pending ≡ 1
    → signalled q d.signals ≡ 0
    → signalled q (run es (step (receive (frame s (some e))) d)).signals ≡ 0
reply_broken q s e es d up reply found one quiet =
    let left = record d { pending = delete_pending (masked s) d.pending } in
    let down = failed_shutdown e left up in
    let (told, alone, failed) = shutdown_signals q (some e) left up in
    let less = waiting-find_pending q (masked s) q d.pending found in
    rw (broken_reply q s e d up reply found) (
      ap (signalled q) (down_run e es (shutdown (some e) left) down)
      ∙ ground (arith, told, less, ==_refl q))
