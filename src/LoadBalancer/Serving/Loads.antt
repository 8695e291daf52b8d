-- ===== src/LoadBalancer/Serving/Loads.antt =====
-- The loads of the upstreams over a request of lb/lb.go.
use pmesh.Base.{
  ℕ, zero, suc, ◌+◌, ◌-◌, ◌≡◌, refl, sym, ◌∙◌, ap, Bool, Option, none, some, ◌==◌, if◌then◌else◌,
  if_elim, arith, Bool-cases, inl, inr, ==_refl,
}
use pmesh.Retry.{Error, Policy, Progress, consume, consume_any, with_defaults}
use pmesh.LoadBalancer.{
  u32, Upstream, Ptr, Heap, LoadBalancer, Session, Pick, picked, pick_failed, pick_upstream,
}
use pmesh.LoadBalancer.Response.{
  begin_serve, end_serve, Modified, pass_on, abort, ask, modify_response, Options, Reaction,
  nothing, limit_reached, buffered, retry, on_error_response,
}
use pmesh.LoadBalancer.Serving.{
  Answer, responds, errs, Attempt, World, Served, put_upstream, retry_or_end, on_error, react,
  meets_of, modified, proxied, end_at, begin_at, serve_pick, serve_http, serve, serve_request,
  start_request, no_upstream,
}

-- The loads of the upstreams are those of another heap.
abbrev Keeps : Heap → Served → Type 0
Keeps h (w, f) = (q : Ptr) → (w.heap q).load_factor ≡ (h q).load_factor

-- The attempts that follow keep the loads.
abbrev KeepsNext : (World → Served) → Type 0
KeepsNext next = (w : World) → Keeps w.heap (next w)

on_error-Keeps :
    (next : World → Served) (p : Policy) (m : Attempt) (w : World) (e : Error)
    → KeepsNext next
    → Keeps w.heap (on_error next p m w e)
unfolding on_error
on_error-Keeps next p m w e kn =
    if_elim (Keeps w.heap) m.cancelled (λ t q. refl)
      (λ f. by_result (consume p w.progress m.round e).0 (consume p w.progress m.round e).1)
  where
    by_result :
        (s : Progress) (d : Option Error)
        → Keeps w.heap (retry_or_end next (record w { progress = s }) d)
    by_result s none = kn (record w { progress = s })
    by_result s (some d) = λ q. refl

react-Keeps :
    (next : World → Served) (w : World) (status : ℕ) (s : Progress) (r : Reaction)
    → KeepsNext next
    → Keeps w.heap (react next w status s r)
react-Keeps next w status s nothing kn = λ q. refl
react-Keeps next w status s limit_reached kn = λ q. refl
react-Keeps next w status s buffered kn = λ q. refl
react-Keeps next w status s retry kn = kn (record w { progress = s })

modified-Keeps :
    (next : World → Served) (o : Options) (p : Policy) (m : Attempt) (w : World) (status : ℕ)
    (r : Modified)
    → KeepsNext next
    → Keeps w.heap (modified next o p m w status r)
unfolding modified
modified-Keeps next o p m w status pass_on kn = λ q. refl
modified-Keeps next o p m w status abort kn = λ q. refl
modified-Keeps next o p m w status ask kn =
    react-Keeps next w status (consume_any p w.progress m.round).0
      (on_error_response o status (meets_of p m w)) kn

put-load :
    (u : Ptr) (x : Upstream) (w : World) (q : Ptr)
    → x.load_factor ≡ (w.heap u).load_factor
    → ((put_upstream u x w).heap q).load_factor ≡ (w.heap q).load_factor
put-load u x w q e = elim (Bool-cases (q == u)) [
  | inl same ↦
      let f : q ≡ u = ground arith in
      let g : (w.heap q).load_factor ≡ (w.heap u).load_factor =
        ap (λ t. (w.heap t).load_factor) f in
      rw same (e ∙ sym g)
  | inr other ↦ rw other refl
]

modify_response-load :
    (status : ℕ) (cancelled : Bool) (u : Upstream)
    → (modify_response status cancelled u).0.load_factor ≡ u.load_factor
unfolding modify_response
modify_response-load status cancelled u = ground arith

Keeps-trans :
    (g h : Heap) (s : Served)
    → ((q : Ptr) → (h q).load_factor ≡ (g q).load_factor)
    → Keeps h s
    → Keeps g s
Keeps-trans g h (w, f) e k = λ q. k q ∙ e q

abbrev counted : Upstream → Upstream
counted x = record x { error_count = u32 (x.error_count + 1) }

proxied-Keeps :
    (next : World → Served) (o : Options) (p : Policy) (m : Attempt) (u : Ptr) (w : World)
    (a : Answer)
    → KeepsNext next
    → Keeps w.heap (proxied next o p m u w a)
unfolding proxied
proxied-Keeps next o p m u w (errs e) kn =
    let x : Upstream = counted (w.heap u) in
    Keeps-trans w.heap (put_upstream u x w).heap (on_error next p m (put_upstream u x w) e)
      (λ q. put-load u x w q refl) (on_error-Keeps next p m (put_upstream u x w) e kn)
proxied-Keeps next o p m u w (responds status) kn =
    let x = (modify_response status m.cancelled (w.heap u)).0 in
    let r = (modify_response status m.cancelled (w.heap u)).1 in
    Keeps-trans w.heap (put_upstream u x w).heap (modified next o p m (put_upstream u x w) status r)
      (λ q. put-load u x w q (modify_response-load status m.cancelled (w.heap u)))
      (modified-Keeps next o p m (put_upstream u x w) status r kn)

begin-load :
    (u : Ptr) (w : World) (q : Ptr)
    → ((begin_at u w).heap q).load_factor
      ≡ (if q == u then (w.heap u).load_factor + 1 else (w.heap q).load_factor)
unfolding begin_serve
begin-load u w q = ground arith

end-load :
    (u : Ptr) (s : Served) (q : Ptr)
    → ((end_at u s).0.heap q).load_factor
      ≡ (if q == u then (s.0.heap u).load_factor - 1 else (s.0.heap q).load_factor)
unfolding end_serve
end-load u (w, f) q = ground arith

-- What runs between the beginning and the end of an upstream keeps the loads, so all of it does.
around-Keeps :
    (u : Ptr) (w : World) (s : Served) → Keeps (begin_at u w).heap s → Keeps w.heap (end_at u s)
around-Keeps u w (v, f) k q =
    let b = begin-load u w q in
    let c = begin-load u w u in
    let e = end-load u (v, f) q in
    let kq = k q in
    let ku = k u in
    let same = ==_refl u in
    elim (Bool-cases (q == u)) [
      | inl hit ↦
          let eq : q ≡ u = ground arith in
          let g : (w.heap q).load_factor ≡ (w.heap u).load_factor =
            ap (λ t. (w.heap t).load_factor) eq in
          let l : (v.heap u).load_factor ≡ (w.heap u).load_factor + 1 =
            ku
            ∙ (c
                ∙ ap (λ t. if t then (w.heap u).load_factor + 1 else (w.heap u).load_factor)
                    same) in
          e
          ∙ (ap (λ t. if t then (v.heap u).load_factor - 1 else (v.heap q).load_factor) hit
              ∙ omega (arith, l, g))
      | inr miss ↦
          e
          ∙ (ap (λ t. if t then (v.heap u).load_factor - 1 else (v.heap q).load_factor) miss
              ∙ (kq
                  ∙ (b
                      ∙ ap (λ t. if t then (w.heap u).load_factor + 1 else (w.heap q).load_factor)
                          miss)))
    ]

serve_http-Keeps :
    (next : World → Served) (o : Options) (p : Policy) (m : Attempt) (w : World)
    → KeepsNext next
    → Keeps w.heap (serve_http next o p m w)
unfolding serve_http serve_pick
serve_http-Keeps next o p m w kn =
    let x = pick_upstream w.heap w.lb w.ctx m.rand in
    by_pick (record w { lb = x.0; ctx = record { upstream = w.ctx.upstream; session = x.1 } }) x.2
  where
    by_pick : (v : World) (k : Pick) → Keeps v.heap (serve_pick next o p m v k)
    by_pick v (pick_failed e) = on_error-Keeps next p m v no_upstream kn
    by_pick v (picked u) =
        around-Keeps u v (proxied next o p m u (begin_at u v) m.answer)
          (proxied-Keeps next o p m u (begin_at u v) m.answer kn)

serve-Keeps :
    (fuel : ℕ) (o : Options) (p : Policy) (meets : ℕ → Attempt) (i : ℕ) (w : World)
    → Keeps w.heap (serve fuel o p meets i w)
unfolding serve
serve-Keeps zero o p meets i w = λ q. refl
serve-Keeps (suc fuel) o p meets i w =
    serve_http-Keeps (λ w'. serve fuel o p meets (i + 1) w') o p (meets i) w
      (λ w'. serve-Keeps fuel o p meets (i + 1) w')

-- Whatever a request meets and however often it is sent again, each upstream has in the end the load
-- that it had before.
pub serve_request-load :
    (fuel : ℕ) (o : Options) (p : Policy) (meets : ℕ → Attempt) (h : Heap) (lb : LoadBalancer)
    (session : Session) (q : Ptr)
    → ((serve_request fuel o p meets h lb session).0.heap q).load_factor ≡ (h q).load_factor
unfolding serve_request
serve_request-load fuel o p meets h lb session =
    serve-Keeps fuel o (with_defaults p) meets 0 (start_request h lb session)
