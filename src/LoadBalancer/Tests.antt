-- ===== src/LoadBalancer/Tests.antt =====
-- Runs of the balancer of lb/lb.go.
use pmesh.Base.{
  ℕ, ◌*◌, ◌≤◌, ◌<◌, ◌≡◌, refl, inl, inr, true, false, not, none, some, [], ◌∷◌, ◌==◌, arith,
}
use pmesh.LoadBalancer.{
  Heap, Ptr, LoadBalancer, Session, Context, random, round_robin, least_conn, sticky, is_ptr,
  select, next_upstream,
}
use pmesh.LoadBalancer.Choice.{In, candidates, select_avoids}
use pmesh.LoadBalancer.Least.{select_least}
use pmesh.LoadBalancer.Fairness.{after_calls, round_robin_fair}
use pmesh.LoadBalancer.Response.{Options, Meets, continue_}

-- Upstream 1 is down; the load of an upstream is ten times its number.
abbrev heap : Heap
heap p = record {
  healthy = not (p == 1);
  load_factor = p * 10;
  request_count = 0;
  error_count = 0;
  server_error_count = 0;
  client_error_count = 0;
}

abbrev down : Heap
down p = record (heap 1) { load_factor = p }

abbrev stranger : Session
stranger = record { local = false; ip_hash = 77; value = none }

abbrev first_try : Context
first_try = record { upstream = none; session = stranger }

abbrev balancer : LoadBalancer
balancer = record {
  strategy = round_robin;
  state = sticky;
  upstreams = 1 ∷ 2 ∷ 3 ∷ 4 ∷ [];
  counter = 5;
}

select_avoids_example :
    (x : Ptr) × (select heap random 9 (some 2) (1 ∷ 2 ∷ 3 ∷ []) ≡ some x)
    × ((heap x).healthy ≡ true)
    × (is_ptr (some 2) x ≡ false)
    × In x (1 ∷ 2 ∷ 3 ∷ [])
select_avoids_example =
    select_avoids heap random 9 (some 2) 1 2 (3 ∷ []) 3 refl (inr (inr (inl refl))) refl refl

select_least_example :
    (x : Ptr) × (select heap least_conn 0 none (3 ∷ 1 ∷ 2 ∷ []) ≡ some x)
    × ((heap x).healthy ≡ true)
    × In x (3 ∷ 1 ∷ 2 ∷ [])
    × ((y : Ptr)
        → In y (3 ∷ 1 ∷ 2 ∷ [])
        → (heap y).healthy ≡ true
        → (heap x).load_factor ≤ (heap y).load_factor)
select_least_example =
    select_least heap 0 none 3 1 (2 ∷ []) 2 (inr (inr (inl refl))) refl (omega arith)

round_robin_fair_example :
    (i : ℕ) × (i < 3)
    × ((next_upstream heap (after_calls heap first_try (λ n. n) i balancer) first_try i).1 ≡ some 4)
unfolding candidates
round_robin_fair_example =
    round_robin_fair heap first_try (λ n. n) balancer 1 2 (3 ∷ 4 ∷ []) 2 refl refl refl
      (omega arith) (omega arith)

abbrev server_errors : Options
server_errors = record {
  error_4xx = none;
  error_5xx = some (record { limited = true; handled = false });
  error_404 = none;
}

abbrev lucky : Meets
lucky = record {
  is_get = true;
  retrier_step = 0;
  limiter_answers = false;
  handler_result = continue_;
  retrier_consumes = true;
}

abbrev unavailable : ℕ
unavailable = 503
