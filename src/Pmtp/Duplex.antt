-- ===== src/Pmtp/Duplex.antt =====
-- pmtp/jrpc_code.go: `jrpcDuplex`. Packets are named by numbers. What the connection delivers and
-- whether a write succeeds are arguments; the critical sections and the steps of the input loop are
-- the steps of the model.
use pmesh.Base.{
  ℕ, ◌+◌, ◌%◌, ◌^◌, Bool, Option, none, some, List, [], ◌∷◌, ◌++◌, leb, ◌==◌, if◌then◌else◌,
}

pub data DuplexError : Type 0 where
  client_closed : DuplexError
  other : ℕ → DuplexError

-- What a packet's channel has carried: the sequence number of its reply, or that it was closed.
pub data Signal : Type 0 where
  replied : ℕ → Signal
  closed_ : Signal

-- `signals` has what each channel has carried, the last one first. `failed` is `err`, which is stored
-- together with `closed`.
pub record Duplex : Type 0 where
  pub seq : ℕ
  pub pending : List (ℕ × ℕ)
  pub failed : Option DuplexError
  pub signals : List (ℕ × Signal)

abbrev pub flag_reply : ℕ
flag_reply = 2 ^ 31

-- `s & FlagMask` and `seq & FlagReply == FlagReply`, of a uint32
abbrev pub masked : ℕ → ℕ
masked s = s % 2 ^ 31

abbrev pub is_reply : ℕ → Bool
is_reply s = leb flag_reply (s % 2 ^ 32)

abbrev pub new_duplex : Duplex
new_duplex = record { seq = 0; pending = []; failed = none; signals = [] }

unfoldable pub find_pending : ℕ → List (ℕ × ℕ) → Option ℕ
find_pending s [] = none
find_pending s ((t, p) ∷ ps) = let rest = find_pending s ps in if t == s then some p else rest

-- `delete(d.pending, s)`
unfoldable pub delete_pending : ℕ → List (ℕ × ℕ) → List (ℕ × ℕ)
delete_pending s [] = []
delete_pending s ((t, p) ∷ ps) =
    let rest = delete_pending s ps in if t == s then rest else (t, p) ∷ rest

unfoldable pub close_all : List (ℕ × ℕ) → List (ℕ × Signal)
close_all [] = []
close_all ((s, p) ∷ ps) = (p, closed_) ∷ close_all ps

abbrev or_closed : Option DuplexError → DuplexError
or_closed none = client_closed
or_closed (some e) = e

-- `Shutdown`: its effect on the state.
unfoldable pub shutdown : Option DuplexError → Duplex → Duplex
shutdown e d = elim d.failed [
  | some f ↦ d
  | none ↦ record d {
    pending = [];
    failed = some (or_closed e);
    signals = close_all d.pending ++ d.signals;
  }
]

abbrev pub take_found : Option DuplexError → Option ℕ → ℕ → Duplex → Duplex × Option ℕ
take_found (some f) found s d = (d, none)
take_found none none s d = (d, none)
take_found none (some p) s d = (record d { pending = delete_pending s d.pending }, some p)

-- `pop`
unfoldable pub pop : ℕ → Duplex → Duplex × Option ℕ
pop s d = take_found d.failed (find_pending (masked s) d.pending) (masked s) d

abbrev pub put_pending : Option DuplexError → ℕ → ℕ → Duplex → Duplex × Option DuplexError
put_pending (some f) s p d = (d, some f)
put_pending none s p d = (record d { pending = (s, p) ∷ delete_pending s d.pending }, none)

-- `promise`: the error, if any. An entry of the same number is replaced.
unfoldable pub promise : ℕ → ℕ → Duplex → Duplex × Option DuplexError
promise s p d = put_pending d.failed s p d

abbrev pub next_seq : Duplex → Duplex
next_seq d = record d { seq = (d.seq + 1) % 2 ^ 32 }

-- The write behind `promise`, with its error if it fails.
abbrev pub sent : Option DuplexError → Duplex × Option DuplexError → Duplex × Option DuplexError
sent w (d, some f) = (d, some f)
sent none (d, none) = (d, none)
sent (some e) (d, none) = (shutdown (some e) d, some e)

-- `roundtrip` up to the wait: the sequence number, `promise` and the write.
unfoldable pub begin_roundtrip : ℕ → Option DuplexError → Duplex → Duplex × Option DuplexError
begin_roundtrip p w d = sent w (promise (masked ((d.seq + 1) % 2 ^ 32)) p (next_seq d))

-- What a round of `input` reads: no header, or a header and then a body, or the error in its place.
pub data Frame : Type 0 where
  no_header : DuplexError → Frame
  frame : ℕ → Option DuplexError → Frame

-- The body of a reply, behind `pop`.
abbrev pub finish_reply : ℕ → Option DuplexError → Duplex × Option ℕ → Duplex × Option DuplexError
finish_reply s (some e) (d, p) = (d, some e)
finish_reply s none (d, none) = (d, none)
finish_reply s none (d, some p) = (record d { signals = (p, replied s) ∷ d.signals }, none)

-- A round of the loop of `input`: an error ends it. A request is served by another goroutine.
unfoldable pub input_round : Frame → Duplex → Duplex × Option DuplexError
input_round (no_header e) d = (d, some e)
input_round (frame s body) d = if is_reply s then finish_reply s body (pop s d) else (d, body)

-- `input` on the frames of a list, with the shutdown at its end; without an error it goes on.
unfoldable pub input : List Frame → Duplex → Duplex
input [] d = d
input (f ∷ fs) d =
    let round = input_round f d in
    elim (round.1) [ some e ↦ shutdown (some e) round.0 | none ↦ input fs round.0 ]

-- A call for a fresh packet, a round of the input loop that goes on, one that ends it, and a shutdown
-- by a close, or by a reply that could not be written.
pub data Event : Type 0 where
  call : ℕ → Option DuplexError → Event
  receive : Frame → Event
  stop : Option DuplexError → Event

abbrev pub ended : Duplex × Option DuplexError → Duplex
ended (d, none) = d
ended (d, some e) = shutdown (some e) d

unfoldable pub step : Event → Duplex → Duplex
step (call p write_error) d = (begin_roundtrip p write_error d).0
step (receive f) d = ended (input_round f d)
step (stop e) d = shutdown e d

unfoldable pub run : List Event → Duplex → Duplex
run [] d = d
run (e ∷ es) d = run es (step e d)
