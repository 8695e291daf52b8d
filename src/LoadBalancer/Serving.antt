-- ===== src/LoadBalancer/Serving.antt =====
-- lb/lb.go: `ServeHTTP`, `serveHTTP`, `lbRetryHandler` and `OnError`, with the handlers of lb/upstream.go
-- around the proxy: a request from its first upstream to what the client gets. Each attempt has a unit
-- of fuel. What an attempt meets is an argument: the answer of the upstream, the state of the
-- request's context, and what the clock tells the retrier. Other requests do not run meanwhile.
pub mod Ending
pub mod Loads
mod Tests
use pmesh.Base.{ℕ, zero, suc, ◌+◌, Bool, true, false, Option, none, some, ◌==◌, if◌then◌else◌}
use pmesh.Base.Int.{pos}
use pmesh.Retry.{Error, other, Policy, Progress, Round, consume_any, consume, with_defaults}
use pmesh.LoadBalancer.{
  Upstream, Ptr, Heap, LoadBalancer, Session, Context, u32, Pick, picked, pick_failed,
  pick_upstream,
}
use pmesh.LoadBalancer.Response.{
  begin_serve, end_serve, Modified, pass_on, abort, ask, modify_response, HandlerResult, Options,
  Meets, Reaction, nothing, limit_reached, buffered, retry, on_error_response,
}

-- The answer of an upstream: a response with its status, or the error of the transport.
pub data Answer : Type 0 where
  responds : (status : ℕ) → Answer
  errs : (e : Error) → Answer

-- What an attempt meets.
pub record Attempt : Type 0 where
  pub rand : ℕ
  pub answer : Answer
  pub cancelled : Bool  -- the request's context is done
  pub is_get : Bool
  pub limiter_answers : Bool
  pub handler_result : HandlerResult
  pub round : Round  -- of the retrier

-- The upstreams, the balancer, the request's context and its retrier.
pub record World : Type 0 where
  pub heap : Heap
  pub lb : LoadBalancer
  pub ctx : Context
  pub progress : Progress

-- What the client gets.
pub data Final : Type 0 where
  relayed : (status : ℕ) → Final  -- the response of the upstream
  connection_reset rate_limited error_response upstream_error silent : Final

abbrev pub Served : Type 0
Served = World × Option Final

abbrev pub put_upstream : Ptr → Upstream → World → World
put_upstream u x w = record w { heap = λ p. if p == u then x else w.heap p }

-- The next attempt, or the end.
abbrev pub retry_or_end : (World → Served) → World → Option Error → Served
retry_or_end next w none = next w
retry_or_end next w (some e) = (w, some upstream_error)

-- `OnError`
unfoldable pub on_error : (World → Served) → Policy → Attempt → World → Error → Served
on_error next p m w err =
    if m.cancelled
    then (w, some silent)
    else (let (s, e) = consume p w.progress m.round err in
        retry_or_end next (record w { progress = s }) e)

abbrev pub is_none : Option Error → Bool
is_none none = true
is_none (some e) = false

-- The handler that `OnErrorResponse` gives, run by the proxy's error handler.
abbrev pub react : (World → Served) → World → ℕ → Progress → Reaction → Served
react next w status s nothing = (w, some (relayed status))
react next w status s limit_reached = (w, some rate_limited)
react next w status s buffered = (w, some error_response)
react next w status s retry = next (record w { progress = s })

-- `Meets` of `OnErrorResponse`, with the retrier's part taken from the retrier.
abbrev pub meets_of : Policy → Attempt → World → Meets
meets_of p m w = record {
  is_get = m.is_get;
  retrier_step = w.progress.step;
  limiter_answers = m.limiter_answers;
  handler_result = m.handler_result;
  retrier_consumes = is_none (consume_any p w.progress m.round).1;
}

unfoldable pub modified :
    (World → Served) → Options → Policy → Attempt → World → ℕ → Modified → Served
modified next o p m w status pass_on = (w, some (relayed status))
modified next o p m w status abort = (w, some connection_reset)
modified next o p m w status ask =
    react next w status (consume_any p w.progress m.round).0
      (on_error_response o status (meets_of p m w))

-- The proxy's `ErrorHandler` and `ModifyResponse`.
unfoldable pub proxied :
    (World → Served) → Options → Policy → Attempt → Ptr → World → Answer → Served
proxied next o p m u w (errs e) =
    let x = w.heap u in
    on_error next p m (put_upstream u (record x { error_count = u32 (x.error_count + 1) }) w) e
proxied next o p m u w (responds status) =
    let (x, result) = modify_response status m.cancelled (w.heap u) in
    modified next o p m (put_upstream u x w) status result

-- The deferred end of `Upstream.ServeHTTP`.
abbrev pub end_at : Ptr → Served → Served
end_at u (w, f) = (put_upstream u (end_serve (w.heap u)) w, f)

abbrev pub begin_at : Ptr → World → World
begin_at u w =
    put_upstream u (begin_serve (w.heap u))
      (record w { ctx = record { upstream = some u; session = w.ctx.session } })

-- The error of `PickUpstream`, ErrNoHealthyUpstreams.
abbrev pub no_upstream : Error
no_upstream = other 0

-- `serveHTTP` behind `PickUpstream`.
unfoldable pub serve_pick : (World → Served) → Options → Policy → Attempt → World → Pick → Served
serve_pick next o p m w (pick_failed e) = on_error next p m w no_upstream
serve_pick next o p m w (picked u) = end_at u (proxied next o p m u (begin_at u w) m.answer)

-- `serveHTTP`
unfoldable pub serve_http : (World → Served) → Options → Policy → Attempt → World → Served
serve_http next o p m w =
    let (lb, session, pick) = pick_upstream w.heap w.lb w.ctx m.rand in
    serve_pick next o p m
      (record w { lb = lb; ctx = record { upstream = w.ctx.upstream; session = session } }) pick

-- The attempts from number `i` on, where attempt i meets `meets i`; `none` where the fuel ends first.
unfoldable pub serve : ℕ → Options → Policy → (ℕ → Attempt) → ℕ → World → Served
serve zero o p meets i w = (w, none)
serve (suc fuel) o p meets i w = serve_http (λ w'. serve fuel o p meets (i + 1) w') o p (meets i) w

-- A fresh context.
abbrev pub start_request : Heap → LoadBalancer → Session → World
start_request h lb session = record {
  heap = h;
  lb = lb;
  ctx = record { upstream = none; session = session };
  progress = record { step = 0; delay = pos 0 };
}

-- `LoadBalancer.ServeHTTP`, with the retrier that `RetrierContext` makes of the policy.
unfoldable pub serve_request :
    ℕ → Options → Policy → (ℕ → Attempt) → Heap → LoadBalancer → Session → Served
serve_request fuel o p meets h lb session =
    serve fuel o (with_defaults p) meets 0 (start_request h lb session)
