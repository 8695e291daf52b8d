-- ===== src/LoadBalancer/Serving/Ending.antt =====
-- A request of lb/lb.go comes to an end.
use pmesh.Base.{
  ℕ, zero, suc, ◌+◌, ◌<◌, ◌≡◌, refl, ◌∙◌, ap, Bool, true, false, Option, none, some, if_elim, arith,
  ◌≤◌,
}
use pmesh.Base.Int.{pos}
use pmesh.Retry.{
  Error, Policy, Progress, Round, consume, consume_any, with_defaults, exhausted, step,
}
use pmesh.Retry.Run.{consume_step, not_exhausted-lt}
use pmesh.LoadBalancer.{
  Upstream, Ptr, Heap, LoadBalancer, Session, Pick, picked, pick_failed, pick_upstream,
}
use pmesh.LoadBalancer.Response.{
  Modified, pass_on, abort, ask, modify_response, Options, Reaction, nothing, limit_reached,
  buffered, retry, on_error_response, retry_only,
}
use pmesh.LoadBalancer.Serving.{
  Answer, responds, errs, Attempt, World, Final, relayed, connection_reset, rate_limited,
  error_response, upstream_error, silent, Served, put_upstream, retry_or_end, on_error, is_none,
  react, meets_of, modified, proxied, end_at, begin_at, serve_pick, serve_http, serve,
  serve_request, start_request, no_upstream,
}

-- What an attempt met where it gave the client this: a response is relayed as it came, the connection is
-- reset for status 444, the answer of a rate limit or an error handler is for a status from 400 to 599,
-- and there is no answer only for a request that was cancelled.
abbrev pub IsDueTo : Attempt → Final → Type 0
IsDueTo m (relayed status) = m.answer ≡ responds status
IsDueTo m connection_reset = m.answer ≡ responds 444
IsDueTo m rate_limited =
    (status : ℕ) × (m.answer ≡ responds status) × (400 ≤ status) × (status ≤ 599)
IsDueTo m error_response =
    (status : ℕ) × (m.answer ≡ responds status) × (400 ≤ status) × (status ≤ 599)
IsDueTo m upstream_error = m.cancelled ≡ false
IsDueTo m silent = m.cancelled ≡ true

consume_any-step :
    (p : Policy) (s : Progress) (r : Round)
    → (consume_any p s r).1 ≡ none
    → ((consume_any p s r).0.step ≡ s.step + 1) × (exhausted p s.step ≡ false)
unfolding consume_any step
consume_any-step p s r h = (ground arith, ground arith)

modify_response-abort :
    (status : ℕ) (cancelled : Bool) (u : Upstream)
    → (modify_response status cancelled u).1 ≡ abort
    → status ≡ 444
unfolding modify_response
modify_response-abort status cancelled u h = ground arith

modify_response-ask :
    (status : ℕ) (cancelled : Bool) (u : Upstream)
    → (modify_response status cancelled u).1 ≡ ask
    → (400 ≤ status) × (status ≤ 599)
unfolding modify_response
modify_response-ask status cancelled u h = (ground arith, ground arith)

module _ (Q : Final → Type 0) where
  -- The request ends, with an answer as asked for.
  abbrev Ended : Served → Type 0
  Ended (w, f) = (x : Final) × (f ≡ some x) × Q x

  -- What follows ends if it starts after one more step, with attempts left before it.
  abbrev EndsNext : Policy → ℕ → (World → Served) → Type 0
  EndsNext p n next = (w : World) → w.progress.step ≡ n + 1 → exhausted p n ≡ false → Ended (next w)

  module _ (m : Attempt) (fit : (x : Final) → IsDueTo m x → Q x) where
    on_error-Ended :
        (next : World → Served) (p : Policy) (w : World) (e : Error)
        → EndsNext p w.progress.step next
        → Ended (on_error next p m w e)
    unfolding on_error
    on_error-Ended next p w e en =
        if_elim Ended m.cancelled (λ t. (silent, refl, fit silent t))
          (λ f. by_result f (consume p w.progress m.round e).1 refl)
      where
        by_result :
            m.cancelled ≡ false
            → (d : Option Error) → (consume p w.progress m.round e).1 ≡ d
            → Ended
                (retry_or_end next (record w { progress = (consume p w.progress m.round e).0 }) d)
        by_result f none h =
            let (moved, left, _) = consume_step p w.progress m.round e h in
            en (record w { progress = (consume p w.progress m.round e).0 }) moved left
        by_result f (some d) h = (upstream_error, refl, fit upstream_error f)

    react-Ended :
        (next : World → Served) (o : Options) (p : Policy) (w : World) (status : ℕ) (r : Reaction)
        → m.answer ≡ responds status
        → (400 ≤ status) × (status ≤ 599)
        → on_error_response o status (meets_of p m w) ≡ r
        → EndsNext p w.progress.step next
        → Ended (react next w status (consume_any p w.progress m.round).0 r)
    react-Ended next o p w status nothing a k h en = (relayed status, refl, fit (relayed status) a)
    react-Ended next o p w status limit_reached a k h en =
        (rate_limited, refl, fit rate_limited (status, a, k.0, k.1))
    react-Ended next o p w status buffered a k h en =
        (error_response, refl, fit error_response (status, a, k.0, k.1))
    react-Ended next o p w status retry a k h en =
        let consumed = (retry_only o status (meets_of p m w) h).3 in
        let fine : (consume_any p w.progress m.round).1 ≡ none =
          none_of (consume_any p w.progress m.round).1 consumed in
        let (moved, left) = consume_any-step p w.progress m.round fine in
        en (record w { progress = (consume_any p w.progress m.round).0 }) moved left
      where
        none_of : (d : Option Error) → is_none d ≡ true → d ≡ none
        none_of none t = refl
        none_of (some d) t = ground arith

    modified-Ended :
        (next : World → Served) (o : Options) (p : Policy) (w : World) (status : ℕ) (u : Upstream)
        (r : Modified)
        → m.answer ≡ responds status
        → (modify_response status m.cancelled u).1 ≡ r
        → EndsNext p w.progress.step next
        → Ended (modified next o p m w status r)
    unfolding modified
    modified-Ended next o p w status u pass_on a h en =
        (relayed status, refl, fit (relayed status) a)
    modified-Ended next o p w status u abort a h en =
        let e = modify_response-abort status m.cancelled u h in
        (connection_reset, refl, fit connection_reset (a ∙ ap responds e))
    modified-Ended next o p w status u ask a h en =
        react-Ended next o p w status (on_error_response o status (meets_of p m w)) a
          (modify_response-ask status m.cancelled u h) refl en

    proxied-Ended :
        (next : World → Served) (o : Options) (p : Policy) (u : Ptr) (w : World) (a : Answer)
        → m.answer ≡ a
        → EndsNext p w.progress.step next
        → Ended (proxied next o p m u w a)
    unfolding proxied
    proxied-Ended next o p u w (errs e) h en = on_error-Ended next p _ e en
    proxied-Ended next o p u w (responds status) h en =
        modified-Ended next o p (put_upstream u (modify_response status m.cancelled (w.heap u)).0 w)
          status (w.heap u) (modify_response status m.cancelled (w.heap u)).1 h refl en

    end_at-Ended : (u : Ptr) (s : Served) → Ended s → Ended (end_at u s)
    end_at-Ended u (w, f) e = e

    serve_http-Ended :
        (next : World → Served) (o : Options) (p : Policy) (w : World)
        → EndsNext p w.progress.step next
        → Ended (serve_http next o p m w)
    unfolding serve_http serve_pick
    serve_http-Ended next o p w en =
        let x = pick_upstream w.heap w.lb w.ctx m.rand in
        by_pick (record w { lb = x.0; ctx = record { upstream = w.ctx.upstream; session = x.1 } })
          x.2 en
      where
        by_pick :
            (v : World) (k : Pick)
            → EndsNext p v.progress.step next
            → Ended (serve_pick next o p m v k)
        by_pick v (pick_failed e) vn = on_error-Ended next p v no_upstream vn
        by_pick v (picked u) vn =
            end_at-Ended u (proxied next o p m u (begin_at u v) m.answer)
              (proxied-Ended next o p u (begin_at u v) m.answer refl vn)

-- One of the first n attempts has given the client this.
abbrev pub IsMet : (ℕ → Attempt) → ℕ → Final → Type 0
IsMet meets n x = (j : ℕ) × (j < n) × IsDueTo (meets j) x

serve-Ended :
    (a n fuel : ℕ) (o : Options) (p : Policy) (meets : ℕ → Attempt) (i : ℕ) (w : World)
    → p.attempts ≡ pos a
    → 0 < a
    → a < fuel + w.progress.step
    → 0 < fuel
    → i + fuel ≤ n
    → Ended (IsMet meets n) (serve fuel o p meets i w)
unfolding serve
serve-Ended a n zero o p meets i w pa some_attempt enough more le = absurd (omega arith)
serve-Ended a n (suc fuel) o p meets i w pa some_attempt enough more le =
    serve_http-Ended (IsMet meets n) (meets i) (λ x due. (i, omega arith, due))
      (λ w'. serve fuel o p meets (i + 1) w') o p w
      λ w' moved left.
        let lt = not_exhausted-lt p a w.progress.step pa some_attempt left in
        serve-Ended a n fuel o p meets (i + 1) w' pa some_attempt (omega arith) (omega arith)
          (omega arith)

-- With a limited number of attempts, whatever the upstreams answer and the error handlers do, a request
-- ends after at most one attempt more, by what one of these attempts met: the response of its upstream
-- relayed as it came, the connection reset for status 444, the answer of a rate limit or of an error
-- handler to a status from 400 to 599, an upstream error, or no answer, where that attempt found the
-- request cancelled.
pub serve_request_ends :
    (a : ℕ) (o : Options) (p : Policy) (meets : ℕ → Attempt) (h : Heap) (lb : LoadBalancer)
    (session : Session)
    → (with_defaults p).attempts ≡ pos a
    → 0 < a
    → (x : Final) × ((serve_request (a + 1) o p meets h lb session).1 ≡ some x)
      × IsMet meets (a + 1) x
unfolding serve_request
serve_request_ends a o p meets h lb session pa some_attempt =
    serve-Ended a (a + 1) (a + 1) o (with_defaults p) meets 0 (start_request h lb session) pa
      some_attempt (omega arith) (omega arith) (omega arith)
