-- ===== src/Tlsmux/Tests.antt =====
-- Listeners and connections of tlsmux/listener.go at concrete protocols.
use pmesh.Base.{
  ◌+◌, ◌≤◌, ◌≡◌, refl, false, ◌&&◌, none, some, List, [], ◌∷◌, ltb, not, length, if◌then◌else◌,
}
use pmesh.Base.Text.{Text, text_eq, codes}
use pmesh.Tlsmux.{
  Config, Mux, new_mux_listener, bound_to, is_sub, any_bound, bind_all, served_protos,
  served_config, already_bound, listener_closed, listen, close_locked, close, find_listener, uses,
  resolves, get_config_for_client, handle_conn, Call, call_listen, call_close_all, handle_call, run,
}
use pmesh.Tlsmux.Binding.{listen_atomic, close_lem}
use pmesh.Tlsmux.Lookup.{listed, is_listening, is_bound}
use pmesh.Tlsmux.Sublistener.{
  open_channels, Event, accept_conn, hand_over, begin_close, mark_done, drain, receive, send_conn,
  take_step, run_events,
}
use pmesh.Tlsmux.Channel.{count, bit, connections_kept}

abbrev plain : Config
plain = record { next_protos = []; has_resolver = false }

abbrev h2 : Text
h2 = codes "h2"

abbrev http1 : Text
http1 = codes "http/1.1"

abbrev web_mux : Mux
web_mux = (listen new_mux_listener plain (h2 ∷ http1 ∷ [])).0

abbrev starts : List Call
starts = call_listen plain (h2 ∷ http1 ∷ []) ∷ call_listen plain [] ∷ []

abbrev both_mux : Mux
both_mux = run new_mux_listener starts

binds_twice : (listen web_mux plain (codes "x" ∷ h2 ∷ [])).1 ≡ already_bound
unfolding new_mux_listener listen served_protos served_config any_bound bind_all bound_to text_eq
binds_twice = refl

prefers_first : get_config_for_client both_mux (codes "x" ∷ http1 ∷ []) ≡ uses 0
unfolding run handle_call new_mux_listener listen served_protos served_config any_bound bind_all
    bound_to text_eq find_listener get_config_for_client resolves
prefers_first = refl

falls_back : handle_conn both_mux (some []) ≡ some 1
unfolding run handle_call new_mux_listener listen served_protos served_config any_bound bind_all
    bound_to text_eq find_listener handle_conn
falls_back = refl

closed_refuses : (listen (handle_call web_mux call_close_all) plain []).1 ≡ listener_closed
unfolding handle_call close_locked new_mux_listener listen served_protos served_config any_bound
    bind_all bound_to text_eq
closed_refuses = refl

listen_atomic_example :
    let result = listen both_mux plain (codes "x" ∷ h2 ∷ []) in
    let taken = is_listening result.1 && listed h2 (served_protos plain (codes "x" ∷ h2 ∷ [])) in
    (bound_to h2 result.0.sub
      ≡ (if taken then some (length both_mux.made) else bound_to h2 both_mux.sub))
    × ((taken && is_bound (bound_to h2 both_mux.sub)) ≡ false)
listen_atomic_example = listen_atomic both_mux plain (codes "x" ∷ h2 ∷ []) h2

close_lem_example :
    bound_to h2 (close both_mux 0).sub
    ≡ (if is_sub 0 (bound_to h2 both_mux.sub) then none else bound_to h2 both_mux.sub)
close_lem_example = close_lem starts 0 h2

abbrev late_send : List Event
late_send = hand_over 1 ∷ begin_close ∷ mark_done ∷ drain ∷ hand_over 2 ∷ accept_conn ∷ []

-- A connection that is handed over after `Close` panics, and an `Accept` gives nil.
late_send_panics :
    ((run_events open_channels late_send).panics ≡ 1)
    × ((run_events open_channels late_send).nil_accepts ≡ 1)
unfolding run_events take_step open_channels send_conn receive
late_send_panics = (refl, refl)

-- Two calls of `Close` that both find the sublistener open: the second one panics.
two_closes_panic :
    (run_events open_channels (begin_close ∷ begin_close ∷ mark_done ∷ mark_done ∷ [])).panics ≡ 1
unfolding run_events take_step open_channels
two_closes_panic = refl

connections_kept_example :
    let s = run_events open_channels late_send in
    (count 2 s.handed ≡ count 2 s.accepted + count 2 s.dropped + count 2 s.backlog + count 2 s.lost)
    × (length s.lost ≤ s.panics)
    × ((not s.backlog_closed && ltb 0 (length s.lost)) ≡ false)
    × (length s.backlog ≤ 8)
    × ((s.backlog_closed && ltb 0 (length s.backlog)) ≡ false)
    × (s.drainers + bit s.backlog_closed ≤ 1)
connections_kept_example = connections_kept late_send 2
