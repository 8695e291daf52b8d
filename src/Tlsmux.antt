-- ===== src/Tlsmux.antt =====
-- tlsmux/listener.go: the listener that hands TLS connections to a sublistener for each protocol. A
-- sublistener is named by its place in the list of those that `Listen` has made; a protocol is a text.
-- The map `mx.sub` is a list of entries, whose first one counts; the nil map is the empty list.
pub mod Lookup
pub mod Binding
pub mod Sublistener
pub mod Channel
mod Tests
use pmesh.Base.{
  ℕ, zero, suc, Bool, true, false, ◌&&◌, ◌||◌, Option, none, some, List, [], ◌∷◌, ◌++◌, ◌==◌,
  if◌then◌else◌, length, map,
}
use pmesh.Base.Text.{Text, text_eq, codes}

abbrev pub Bindings : Type 0
Bindings = List (Text × ℕ)

-- The part of tls.Config that the multiplexer reads: `NextProtos`, and whether `GetConfigForClient` is
-- set.
pub record Config : Type 0 where
  pub next_protos : List Text
  pub has_resolver : Bool

-- `sublistener`, without its channels.
pub record Sub : Type 0 where
  pub config : Config
  pub protos : List Text

-- `Listener`, with the sublisteners made so far and those that `closeLocked` has started to close.
pub record Mux : Type 0 where
  pub made : List Sub
  pub sub : Bindings
  pub closed : Bool
  pub close_on_drain : Bool
  pub closing : List ℕ

-- `NewMuxListener`
unfoldable pub new_mux_listener : Mux
new_mux_listener = record {
  made = [];
  sub = [];
  closed = false;
  close_on_drain = false;
  closing = [];
}

-- `mx.sub[proto]`
unfoldable pub bound_to : Text → Bindings → Option ℕ
bound_to p [] = none
bound_to p (e ∷ b) = if text_eq e.0 p then some e.1 else bound_to p b

-- `delete(mx.sub, proto)`
unfoldable pub unbind : Text → Bindings → Bindings
unbind p [] = []
unbind p (e ∷ b) = let rest = unbind p b in if text_eq e.0 p then rest else e ∷ rest

abbrev pub is_sub : ℕ → Option ℕ → Bool
is_sub k none = false
is_sub k (some j) = j == k

-- The loop of `close`: only the own protocols of the sublistener.
unfoldable pub unbind_own : ℕ → List Text → Bindings → Bindings
unbind_own k [] b = b
unbind_own k (p ∷ ps) b = unbind_own k ps (if is_sub k (bound_to p b) then unbind p b else b)

-- The check of `Listen`.
unfoldable pub any_bound : List Text → Bindings → Bool
any_bound [] b = false
any_bound (p ∷ ps) b = elim (bound_to p b) [ none ↦ any_bound ps b | some k ↦ true ]

-- The loop of `Listen` that binds.
unfoldable pub bind_all : ℕ → List Text → Bindings → Bindings
bind_all k [] b = b
bind_all k (p ∷ ps) b = bind_all k ps ((p, k) ∷ b)

abbrev pub any_protocol : Text
any_protocol = codes "*"

-- What `Listen` serves: the protocols given, else those of the configuration, else any.
unfoldable pub served_protos : Config → List Text → List Text
served_protos config (p ∷ ps) = p ∷ ps
served_protos config [] = elim config.next_protos [ [] ↦ any_protocol ∷ [] | p ∷ ps ↦ p ∷ ps ]

-- The configuration with the protocols given.
unfoldable pub served_config : Config → List Text → Config
served_config config [] = config
served_config config (p ∷ ps) = record config { next_protos = p ∷ ps }

pub data Listening : Type 0 where
  listener_closed : Listening  -- ErrListenerClosed
  already_bound : Listening
  listening : (k : ℕ) → Listening

-- `Listen`
unfoldable pub listen : Mux → Config → List Text → Mux × Listening
listen mx config protos =
    let ps = served_protos config protos in
    let k = length mx.made in
    if mx.closed
    then (mx, listener_closed)
    else if any_bound ps mx.sub
    then (mx, already_bound)
    else (
      record mx {
        made = mx.made ++ (record { config = served_config config protos; protos = ps } ∷ []);
        sub = bind_all k ps mx.sub;
      },
      listening k,
    )

-- `closeLocked`: the sublisteners are closed by a goroutine of their own.
unfoldable pub close_locked : Mux → Mux
close_locked mx = record mx {
  sub = [];
  closed = true;
  closing = map (λ (e : Text × ℕ). e.1) mx.sub ++ mx.closing;
}

abbrev pub is_empty : Bindings → Bool
is_empty [] = true
is_empty (_ ∷ _) = false

-- The protocols of a sublistener.
unfoldable pub protos_of : List Sub → ℕ → List Text
protos_of [] k = []
protos_of (s ∷ made) zero = s.protos
protos_of (s ∷ made) (suc k) = protos_of made k

-- `mx.close(sub)`, which a sublistener calls at the end of its `Close`.
unfoldable pub close : Mux → ℕ → Mux
close mx k =
    let rest = unbind_own k (protos_of mx.made k) mx.sub in
    let left = record mx { sub = rest } in
    if is_empty rest && mx.close_on_drain then close_locked left else left

-- `findListener`
unfoldable pub find_listener : List Text → Bindings → Option ℕ
find_listener [] b = bound_to any_protocol b
find_listener (p ∷ ps) b = elim (bound_to p b) [ none ↦ find_listener ps b | some k ↦ some k ]

pub data Answer : Type 0 where
  no_listener : Answer
  asks : (k : ℕ) → Answer  -- `GetConfigForClient` of the sublistener's configuration
  uses : (k : ℕ) → Answer  -- the configuration of the sublistener

unfoldable pub resolves : List Sub → ℕ → Bool
resolves [] k = false
resolves (s ∷ made) zero = s.config.has_resolver
resolves (s ∷ made) (suc k) = resolves made k

-- `GetConfigForClient`, with the protocols that the client supports.
unfoldable pub get_config_for_client : Mux → List Text → Answer
get_config_for_client mx supported = elim (find_listener supported mx.sub) [
  | none ↦ no_listener
  | some k ↦ if resolves mx.made k then asks k else uses k
]

-- `handleConn` behind the handshake: the sublistener of the negotiated protocol, or `none`, and the
-- connection is closed. `handshake` is `none` where it failed.
unfoldable pub handle_conn : Mux → Option Text → Option ℕ
handle_conn mx none = none
handle_conn mx (some proto) = find_listener (proto ∷ []) mx.sub

pub data Call : Type 0 where
  call_listen : (config : Config) (protos : List Text) → Call
  call_close : (k : ℕ) → Call
  call_close_all : Call  -- `Listener.Close`

unfoldable pub handle_call : Mux → Call → Mux
handle_call mx (call_listen config protos) = (listen mx config protos).0
handle_call mx (call_close k) = close mx k
handle_call mx call_close_all = close_locked mx

unfoldable pub run : Mux → List Call → Mux
run mx [] = mx
run mx (c ∷ calls) = run (handle_call mx c) calls
