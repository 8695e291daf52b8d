-- ===== src/Tlsmux/Binding.antt =====
-- Which sublistener of tlsmux/listener.go serves a protocol.
use pmesh.Base.{
  ℕ, zero, suc, ◌<◌, ◌≡◌, ◌≢◌, refl, sym, ◌∙◌, ap, Bool, true, false, ◌&&◌, none, some, List, [],
  ◌∷◌, ◌++◌, ◌==◌, if◌then◌else◌, arith, Bool-cases, Option-cases, inl, inr, length, length-append,
  if_elim,
}
use pmesh.Base.Text.{Text}
use pmesh.Tlsmux.{
  Bindings, Config, Sub, Mux, new_mux_listener, bound_to, is_sub, unbind_own, any_bound,
  served_protos, served_config, listen, close_locked, is_empty, protos_of, close, find_listener,
  any_protocol, Call, call_listen, call_close, call_close_all, handle_call, run,
}
use pmesh.Tlsmux.Lookup.{
  listed, is_listening, is_bound, bound_to-bind_all, any_bound-listed, bound_to-unbind_own,
}

-- `Listen` binds all protocols that it serves to the new sublistener, none of which was bound before, or
-- it changes nothing; a protocol that it does not serve keeps its sublistener.
pub listen_atomic :
    (mx : Mux) (config : Config) (protos : List Text) (p : Text)
    → let result = listen mx config protos in
      let taken = is_listening result.1 && listed p (served_protos config protos) in
      (bound_to p result.0.sub ≡ (if taken then some (length mx.made) else bound_to p mx.sub))
      × ((taken && is_bound (bound_to p mx.sub)) ≡ false)
unfolding listen
listen_atomic mx config protos p =
    let ps = served_protos config protos in
    elim (Bool-cases mx.closed) [
      | inl shut ↦ ground arith
      | inr opened ↦ elim (Bool-cases (any_bound ps mx.sub)) [
        | inl bound ↦ ground arith
        | inr free ↦
            let after = bound_to-bind_all p (length mx.made) ps mx.sub in
            elim (Bool-cases (listed p ps)) [
              | inl mine ↦ let before = any_bound-listed p ps mx.sub free mine in ground arith
              | inr other ↦ ground arith
            ]
      ]
    ]

-- `findListener` takes the first protocol offered that is bound, and `*` where none is.
pub find_listener_lem :
    (ps qs : List Text) (p : Text) (b : Bindings)
    → any_bound ps b ≡ false
    → (find_listener (ps ++ p ∷ qs) b
        ≡ (if is_bound (bound_to p b) then bound_to p b else find_listener qs b))
      × (find_listener ps b ≡ bound_to any_protocol b)
unfolding find_listener any_bound
find_listener_lem [] qs p b free = elim (Option-cases (bound_to p b)) [
  | inl e ↦ ground arith
  | inr (k, e) ↦ ground arith
]
find_listener_lem (q ∷ ps) qs p b free = elim (Option-cases (bound_to q b)) [
  | inl e ↦ ground (arith, find_listener_lem ps qs p b)
  | inr (k, e) ↦ ground arith
]

-- Each protocol that is bound is one of the protocols of its sublistener.
abbrev pub IsOwned : Mux → Type 0
IsOwned mx =
    (p : Text) (k : ℕ)
    → bound_to p mx.sub ≡ some k
    → (listed p (protos_of mx.made k) ≡ true) × (k < length mx.made)

protos_of-last : (made : List Sub) (s : Sub) → protos_of (made ++ (s ∷ [])) (length made) ≡ s.protos
unfolding protos_of
protos_of-last [] s = refl
protos_of-last (t ∷ made) s = protos_of-last made s

protos_of-append :
    (made : List Sub) (s : Sub) (k : ℕ)
    → k < length made
    → protos_of (made ++ (s ∷ [])) k ≡ protos_of made k
unfolding protos_of
protos_of-append [] s k h = absurd (omega arith)
protos_of-append (t ∷ made) s zero h = refl
protos_of-append (t ∷ made) s (suc k) h = protos_of-append made s k (omega arith)

listen-IsOwned :
    (mx : Mux) (config : Config) (protos : List Text)
    → IsOwned mx
    → IsOwned (listen mx config protos).0
unfolding listen
listen-IsOwned mx config protos owned p k h =
    let ps = served_protos config protos in
    let s : Sub = record { config = served_config config protos; protos = ps } in
    elim (Bool-cases mx.closed) [
      | inl shut ↦ ground (arith, owned p k)
      | inr opened ↦ elim (Bool-cases (any_bound ps mx.sub)) [
        | inl bound ↦ ground (arith, owned p k)
        | inr free ↦
            let after = bound_to-bind_all p (length mx.made) ps mx.sub in
            let last = protos_of-last mx.made s in
            let more = length-append mx.made (s ∷ []) in
            elim (Bool-cases (listed p ps)) [
              | inl mine ↦ ground arith
              | inr other ↦
                  let old = owned p k (ground arith) in
                  let kept = protos_of-append mx.made s k old.1 in ground arith
            ]
      ]
    ]

sub-locked :
    (t : Bool) (mx : Mux)
    → is_empty mx.sub ≡ true
    → (if t then close_locked mx else mx).sub ≡ mx.sub
unfolding close_locked
sub-locked false mx e = refl
sub-locked true mx e = sym (empty mx.sub e)
  where
    empty : (b : Bindings) → is_empty b ≡ true → b ≡ []
    empty [] e = refl
    empty (x ∷ b) e = ground arith

sub-close : (mx : Mux) (k : ℕ) → (close mx k).sub ≡ unbind_own k (protos_of mx.made k) mx.sub
unfolding close
sub-close mx k =
    let rest = unbind_own k (protos_of mx.made k) mx.sub in
    elim (Bool-cases (is_empty rest)) [
      | inl e ↦
          ap
            (λ t.
              (if t && mx.close_on_drain
                then close_locked (record mx { sub = rest })
                else record mx { sub = rest }).sub)
            e
          ∙ sub-locked mx.close_on_drain (record mx { sub = rest }) e
      | inr e ↦
          ap
            (λ t.
              (if t && mx.close_on_drain
                then close_locked (record mx { sub = rest })
                else record mx { sub = rest }).sub)
            e
    ]

made-close : (mx : Mux) (k : ℕ) → (close mx k).made ≡ mx.made
unfolding close close_locked
made-close mx k =
    if_elim (λ (m : Mux). m.made ≡ mx.made)
      (is_empty (unbind_own k (protos_of mx.made k) mx.sub) && mx.close_on_drain) (λ t. refl)
      (λ f. refl)

-- `close` where each protocol belongs to its sublistener.
owned_close :
    (mx : Mux) (k : ℕ) (p : Text)
    → IsOwned mx
    → bound_to p (close mx k).sub
      ≡ (if is_sub k (bound_to p mx.sub) then none else bound_to p mx.sub)
owned_close mx k p owned =
    let after =
      ap (bound_to p) (sub-close mx k) ∙ bound_to-unbind_own p k (protos_of mx.made k) mx.sub in
    elim (Option-cases (bound_to p mx.sub)) [
      | inl e ↦ ground arith
      | inr (j, e) ↦ elim (Bool-cases (j == k)) [
        | inl same ↦
            let eq : j ≡ k = ground arith in
            let own : listed p (protos_of mx.made k) ≡ true = (owned p k (rw (← eq) e)).0 in
            ground arith
        | inr other ↦ ground arith
      ]
    ]

nothing_bound : (p : Text) (k : ℕ) → bound_to p [] ≢ some k
unfolding bound_to
nothing_bound p k h = ground arith

none_left : (mx : Mux) → IsOwned (close_locked mx)
unfolding close_locked
none_left mx p k h = absurd (nothing_bound p k h)

handle_call-IsOwned : (mx : Mux) (c : Call) → IsOwned mx → IsOwned (handle_call mx c)
unfolding handle_call
handle_call-IsOwned mx (call_listen config protos) owned = listen-IsOwned mx config protos owned
handle_call-IsOwned mx (call_close j) owned = λ p k h.
    let o = owned_close mx j p owned in
    let m = made-close mx j in let old = owned p k (ground arith) in rw m old
handle_call-IsOwned mx call_close_all owned = none_left mx

run-IsOwned : (mx : Mux) (calls : List Call) → IsOwned mx → IsOwned (run mx calls)
unfolding run
run-IsOwned mx [] owned = owned
run-IsOwned mx (c ∷ calls) owned =
    run-IsOwned (handle_call mx c) calls (handle_call-IsOwned mx c owned)

-- After any calls, closing a sublistener unbinds exactly the protocols that it serves, and each other
-- protocol keeps its sublistener.
pub close_lem :
    (calls : List Call) (k : ℕ) (p : Text)
    → let mx = run new_mux_listener calls in
      bound_to p (close mx k).sub
      ≡ (if is_sub k (bound_to p mx.sub) then none else bound_to p mx.sub)
unfolding new_mux_listener
close_lem calls k p =
    owned_close (run new_mux_listener calls) k p
      (run-IsOwned new_mux_listener calls (λ p k h. absurd (nothing_bound p k h)))
