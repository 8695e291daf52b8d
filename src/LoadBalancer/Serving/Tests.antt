-- ===== src/LoadBalancer/Serving/Tests.antt =====
-- Requests of lb/lb.go whose upstreams fail.
use pmesh.Base.{ℕ, ◌≡◌, refl, arith, true, false, none, some, [], ◌∷◌}
use pmesh.Base.Int.{pos}
use pmesh.Retry.{Policy, other, with_defaults}
use pmesh.LoadBalancer.{Upstream, Heap, LoadBalancer, Session, round_robin, none_state}
use pmesh.LoadBalancer.Response.{Options, continue_}
use pmesh.LoadBalancer.Serving.{Attempt, errs, Final, serve_request}
use pmesh.LoadBalancer.Serving.Ending.{IsMet, serve_request_ends}
use pmesh.LoadBalancer.Serving.Loads.{serve_request-load}

abbrev idle_upstream : Upstream
idle_upstream = record {
  healthy = true;
  load_factor = 3;
  request_count = 0;
  error_count = 0;
  server_error_count = 0;
  client_error_count = 0;
}

abbrev one_heap : Heap
one_heap p = idle_upstream

abbrev one_lb : LoadBalancer
one_lb = record { strategy = round_robin; state = none_state; upstreams = 7 ∷ []; counter = 0 }

abbrev no_session : Session
no_session = record { local = false; ip_hash = 0; value = none }

abbrev plain_options : Options
plain_options = record { error_4xx = none; error_5xx = none; error_404 = none }

abbrev two_attempts : Policy
two_attempts = record { attempts = pos 2; backoff = pos 1; timeout = pos 1000 }

-- The transport fails, and the retrier has time.
abbrev refused : ℕ → Attempt
refused i = record {
  rand = 0;
  answer = errs (other 1);
  cancelled = false;
  is_get = true;
  limiter_answers = false;
  handler_result = continue_;
  round = record { ctx_err = none; time_left = pos 900; done = none };
}

two_limit : (with_defaults two_attempts).attempts ≡ pos 2
unfolding with_defaults
two_limit = refl

serve_request_ends_example :
    (x : Final) × ((serve_request 3 plain_options two_attempts refused one_heap one_lb no_session).1
      ≡ some x)
    × IsMet refused 3 x
serve_request_ends_example =
    serve_request_ends 2 plain_options two_attempts refused one_heap one_lb no_session two_limit
      (omega arith)

serve_request-load_example :
    ((serve_request 3 plain_options two_attempts refused one_heap one_lb no_session).0.heap
      7).load_factor
    ≡ 3
serve_request-load_example =
    serve_request-load 3 plain_options two_attempts refused one_heap one_lb no_session 7
