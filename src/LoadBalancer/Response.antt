-- ===== src/LoadBalancer/Response.antt =====
-- lb/upstream.go and the error paths of lb/lb.go: the metrics of an upstream, and what becomes of an
-- upstream's response or error.
use pmesh.Base.{
  ℕ, ◌+◌, ◌-◌, ◌≤◌, ◌≡◌, ◌≢◌, Bool, true, false, not, ◌&&◌, ◌||◌, Option, none, some, ◌==◌, leb,
  if◌then◌else◌, arith,
}
use pmesh.LoadBalancer.{Upstream, u32}

-- `Upstream.ServeHTTP` around the proxy, which may change the upstream meanwhile.
unfoldable pub begin_serve : Upstream → Upstream
begin_serve u = record u {
  load_factor = u.load_factor + 1;
  request_count = u32 (u.request_count + 1);
}

unfoldable pub end_serve : Upstream → Upstream
end_serve u = record u { load_factor = u.load_factor - 1 }

abbrev pub is_5xx : ℕ → Bool
is_5xx status = leb 500 status && leb status 599

abbrev pub is_4xx : ℕ → Bool
is_4xx status = leb 400 status && leb status 499

-- What `ModifyResponse` does with a response: the body goes to the client, the connection is
-- aborted, or the balancer is asked.
pub data Modified : Type 0 where
  pass_on abort ask : Modified

-- `ModifyResponse`; `cancelled` says that the request's context is done.
unfoldable pub modify_response : ℕ → Bool → Upstream → Upstream × Modified
modify_response status cancelled u =
    if not (leb 400 status && leb status 599)
    then (u, pass_on)
    else if status == 444
    then (record u { client_error_count = u32 (u.client_error_count + 1) }, abort)
    else if cancelled
    then (u, pass_on)
    else if is_5xx status
    then (record u { server_error_count = u32 (u.server_error_count + 1) }, ask)
    else if is_4xx status
    then (record u { client_error_count = u32 (u.client_error_count + 1) }, ask)
    else (u, ask)

pub data HandlerResult : Type 0 where
  done continue_ drop : HandlerResult

-- The options for one class of errors: whether a rate limit is set, and whether there is a handler.
pub record ErrorOptions : Type 0 where
  pub limited : Bool
  pub handled : Bool

pub record Options : Type 0 where
  pub error_4xx : Option ErrorOptions
  pub error_5xx : Option ErrorOptions
  pub error_404 : Option ErrorOptions

-- What the request meets: its method, the retrier's step, whether the limiter answers, what the
-- handler returns, and whether the retrier consumes an error.
pub record Meets : Type 0 where
  pub is_get : Bool
  pub retrier_step : ℕ
  pub limiter_answers : Bool
  pub handler_result : HandlerResult
  pub retrier_consumes : Bool

-- The handler that `OnErrorResponse` returns; `nothing` is nil, the upstream's response.
pub data Reaction : Type 0 where
  nothing limit_reached buffered retry : Reaction

unfoldable pub error_options : Options → ℕ → Option ErrorOptions
error_options o status =
    if is_5xx status
    then o.error_5xx
    else if status == 404
    then o.error_404
    else if is_4xx status
    then o.error_4xx
    else none

unfoldable pub conclude : ℕ → Bool → Meets → Reaction
conclude status retriable m =
    if is_4xx status then nothing else if retriable && m.retrier_consumes then retry else nothing

unfoldable pub run_handler : ℕ → Bool → Meets → HandlerResult → Reaction
unfolding conclude
run_handler status retriable m done = buffered
run_handler status retriable m continue_ = conclude status retriable m
run_handler status retriable m drop = conclude status false m

-- `OnErrorResponse`
unfoldable pub on_error_response : Options → ℕ → Meets → Reaction
unfolding error_options conclude run_handler
on_error_response o status m =
    let retriable = is_5xx status && m.is_get in
    elim (error_options o status) [
      | none ↦ conclude status retriable m
      | some opt ↦
          if opt.limited && m.retrier_step == 0 && m.limiter_answers
          then limit_reached
          else if opt.handled
          then run_handler status retriable m m.handler_result
          else conclude status retriable m
    ]

-- A request is sent again only where it was a GET, the upstream answered 5xx and the retrier
-- consumed the error; an error handler that drops the request stops that.
pub retry_only :
    (o : Options) (status : ℕ) (m : Meets)
    → on_error_response o status m ≡ retry
    → (m.is_get ≡ true)
      × (500 ≤ status)
      × (status ≤ 599)
      × (m.retrier_consumes ≡ true)
      × ((opt : ErrorOptions)
          → error_options o status ≡ some opt
          → opt.handled ≡ true
          → m.handler_result ≡ continue_)
unfolding on_error_response
retry_only o status m h =
    (ground arith, ground arith, ground arith, ground arith, λ opt e k. ground arith)

-- A served request leaves the load as it found it. Every response is counted in at most one of the
-- error counters: a 5xx as a server error, a 4xx as a client error, both only where the request was
-- not cancelled, except that 444 always counts; and only those responses reach the balancer.
pub modify_response_lem :
    (status : ℕ) (cancelled : Bool) (u : Upstream)
    → let (u', m) = modify_response status cancelled (begin_serve u) in
      ((end_serve u').load_factor ≡ u.load_factor)
      × (u'.server_error_count ≡ (
          if is_5xx status && not cancelled
          then u32 (u.server_error_count + 1)
          else u.server_error_count))
      × (u'.client_error_count ≡ (
          if status == 444 || (is_4xx status && not cancelled)
          then u32 (u.client_error_count + 1)
          else u.client_error_count))
      × ((m ≡ ask) → (400 ≤ status) × (status ≤ 599) × (status ≢ 444) × (cancelled ≡ false))
unfolding modify_response begin_serve end_serve
modify_response_lem status cancelled u =
    (ground arith, ground arith, ground arith, λ h. ground arith)
