-- ===== src/Tlsmux/Sublistener.antt =====
-- The channels of a sublistener of tlsmux/listener.go, shared by the goroutines that accept, that hand
-- in connections and that close. A connection is a number. A `select` with more than one case that is
-- ready takes any of them, so each case is an event of its own; an event whose case is not ready
-- changes nothing.
use pmesh.Base.{ℕ, ◌+◌, ◌-◌, Bool, true, false, List, [], ◌∷◌, ◌++◌, ltb, if◌then◌else◌, length}

pub record Channels : Type 0 where
  pub backlog : List ℕ
  pub backlog_closed : Bool
  pub done : Bool
  pub closers : ℕ  -- calls of `Close` between the test of `done` and `close(sub.done)`
  pub drainers : ℕ  -- calls of `Close` behind `close(sub.done)`
  pub handed : List ℕ  -- what `handleConn` was given, where its call has ended
  pub accepted : List ℕ
  pub dropped : List ℕ  -- connections that were closed
  pub nil_accepts : ℕ  -- returns of `Accept` with neither a connection nor an error
  pub panics : ℕ
  pub lost : List ℕ  -- connections whose `handleConn` has panicked in the send

-- As `Listen` makes them.
unfoldable pub open_channels : Channels
open_channels = record {
  backlog = [];
  backlog_closed = false;
  done = false;
  closers = 0;
  drainers = 0;
  handed = [];
  accepted = [];
  dropped = [];
  nil_accepts = 0;
  panics = 0;
  lost = [];
}

pub data Event : Type 0 where
  accept_conn : Event  -- `Accept`: the case of the backlog
  accept_done : Event  -- `Accept`: the case of `done`
  hand_over : (c : ℕ) → Event  -- `handleConn`: the case that sends
  refuse : (c : ℕ) → Event  -- `handleConn`: the case of `done`
  begin_close : Event  -- `Close`: the test of `done`
  mark_done : Event  -- `Close`: close(sub.done)
  drain : Event  -- `Close`: close(sub.backlog), and the loop

-- Receiving from the backlog: a closed one gives nil when it is empty.
unfoldable pub receive : List ℕ → Channels → Channels
receive [] s = if s.backlog_closed then record s { nil_accepts = s.nil_accepts + 1 } else s
receive (c ∷ rest) s = record s { backlog = rest; accepted = c ∷ s.accepted }

-- Sending to the backlog, which holds 8: a closed one panics.
unfoldable pub send_conn : ℕ → Channels → Channels
send_conn c s =
    if s.backlog_closed
    then record s { panics = s.panics + 1; handed = c ∷ s.handed; lost = c ∷ s.lost }
    else if ltb (length s.backlog) 8
    then record s { backlog = s.backlog ++ (c ∷ []); handed = c ∷ s.handed }
    else s

-- Closing a channel that is closed panics.
unfoldable pub take_step : Event → Channels → Channels
take_step accept_conn s = receive s.backlog s
take_step accept_done s = s
take_step (hand_over c) s = send_conn c s
take_step (refuse c) s =
    if s.done then record s { dropped = c ∷ s.dropped; handed = c ∷ s.handed } else s
take_step begin_close s = if s.done then s else record s { closers = s.closers + 1 }
take_step mark_done s =
    if ltb 0 s.closers
    then if s.done
      then record s { closers = s.closers - 1; panics = s.panics + 1 }
      else record s { closers = s.closers - 1; done = true; drainers = s.drainers + 1 }
    else s
take_step drain s =
    if ltb 0 s.drainers
    then if s.backlog_closed
      then record s { drainers = s.drainers - 1; panics = s.panics + 1 }
      else record s {
        drainers = s.drainers - 1;
        backlog_closed = true;
        backlog = [];
        dropped = s.backlog ++ s.dropped;
      }
    else s

unfoldable pub run_events : Channels → List Event → Channels
run_events s [] = s
run_events s (e ∷ events) = run_events (take_step e s) events
