-- ===== src/Pmtp/Tests.antt =====
-- Two calls on a connection of pmtp, a reply that breaks off, and a pool.
use pmesh.Base.{
  ℕ, ◌++◌, ◌*◌, true, false, arith, ◌≤◌, ◌≡◌, refl, none, some, List, [], ◌∷◌, ◌+◌, ◌^◌,
}
use pmesh.Base.Text.{codes}
use pmesh.Pmtp.Stream.{
  Frame, read_frames, continue_with, read_frame, with_header, read_header, read_body, with_id,
  with_line, read_until, write_frames, write_frame, put_uint32, body_bytes, terminated,
}
use pmesh.Pmtp.Stream.Frames.{received_all, read_frames-write_frames}
use pmesh.Pmtp.Duplex.{
  Duplex, other, call, receive, stop, frame, new_duplex, find_pending, step, run, Event,
}
use pmesh.Pmtp.Pool.{Busy, pending, acquire}
use pmesh.Pmtp.Sharing.{idle_pool, is_served, acquire_served}
use pmesh.Pmtp.Pending.{waiting, signalled, calls, signalled_once}
use pmesh.Pmtp.Broken.{reply_broken}

abbrev exchange : List Event
exchange =
    call 7 none
    ∷ call 8 none
    ∷ receive (frame (2 ^ 31 + 1) none)
    ∷ stop none
    ∷ receive (frame (2 ^ 31 + 2) none)
    ∷ []

signalled_once_example : signalled 7 (run exchange new_duplex).signals ≤ calls 7 exchange
signalled_once_example = signalled_once 7 exchange

-- A pool of two slots, the first of them taken by an idle client.
abbrev all_idle : ℕ → Busy
all_idle c = pending 0

acquire_served_example :
    is_served all_idle (acquire all_idle (some 9) (idle_pool none false 3 (none ∷ []))).1 ≡ true
acquire_served_example =
    acquire_served all_idle 9 (idle_pool none false 3 (none ∷ [])) refl refl (omega arith) refl

-- Packet 7 waits for reply 1.
abbrev waits : Duplex
waits = record { seq = 1; pending = (1, 7) ∷ []; failed = none; signals = [] }

reply_broken_example :
    signalled 7
      (run (stop none ∷ []) (step (receive (frame (2 ^ 31 + 1) (some (other 5)))) waits)).signals
    ≡ 0
unfolding find_pending waiting signalled
reply_broken_example =
    reply_broken 7 (2 ^ 31 + 1) (other 5) (stop none ∷ []) waits refl refl refl refl refl

abbrev last_frame : List Frame
last_frame = record { header = 4; id = []; body = codes "[1]" } ∷ []

abbrev greeting : List Frame
greeting = record { header = 3; id = codes "hi"; body = [] } ∷ last_frame

read_frames-write_frames_example :
    read_frames 2 (write_frames greeting ++ 9 ∷ []) ≡ (received_all greeting, 9 ∷ [])
read_frames-write_frames_example = read_frames-write_frames greeting (9 ∷ []) refl

-- A json.RawMessage of two lines is written as it is, and its second line is read as a header.
abbrev two_lines : Frame
two_lines = record { header = 1; id = []; body = 123 ∷ 10 ∷ 125 ∷ [] }

two_lines_cut : read_frames 2 (write_frames (two_lines ∷ greeting)) ≡ (
  record { header = 1; id = []; body = 123 ∷ 10 ∷ [] }
      ∷ record {
        header = 125 + 10 * 2 ^ 8 + 3 * 2 ^ 16;
        id = [];
        body = 0 ∷ 104 ∷ 105 ∷ 0 ∷ 123 ∷ 125 ∷ 10 ∷ [];
      }
      ∷ [],
  write_frames last_frame,
)
unfolding read_frames continue_with read_frame with_header read_header read_body with_id with_line
    read_until write_frames write_frame put_uint32 body_bytes terminated
two_lines_cut = refl
