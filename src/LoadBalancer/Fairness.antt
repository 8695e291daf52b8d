-- ===== src/LoadBalancer/Fairness.antt =====
-- Round robin in lb/lb.go: which upstream each call of a sequence chooses.
use pmesh.Base.{
  ℕ, zero, suc, ◌+◌, ◌-◌, ◌%◌, ◌/◌, ◌*◌, inl, inr, ◌^◌, ◌≤◌, ◌<◌, ◌≡◌, refl, ◌∙◌, sym, ap, false,
  Option, none, some, List, [], ◌∷◌, length, get_elem?, arith, Bool-cases, leb,
}
use native.Mathlib.Nat.{mod-lt, add-mod-mod, add-mul-mod_self_left, mod-eq_of_lt, div-add-mod}
use pmesh.LoadBalancer.{
  Heap, Ptr, LoadBalancer, Context, Strategy, round_robin, u32, is_least, get_healthy_idx,
  count_healthy, first_healthy, select, next_upstream,
}
use pmesh.LoadBalancer.Choice.{candidates, nth_or_last, healthy_idx_loop-nth}

-- The healthy upstreams, in order.
abbrev pub healthy : Heap → List Ptr → List Ptr
healthy h us = candidates h none us

count_healthy-length : (h : Heap) (us : List Ptr) → count_healthy h us ≡ length (healthy h us)
unfolding count_healthy candidates
count_healthy-length h [] = refl
count_healthy-length h (u ∷ us) = ground (arith, count_healthy-length h us)

first_healthy-get : (h : Heap) (us : List Ptr) → first_healthy h us ≡ get_elem? (healthy h us) 0
unfolding first_healthy candidates
first_healthy-get h [] = refl
first_healthy-get h (u ∷ us) = ground (arith, first_healthy-get h us)

nth_or_last-get :
    (us : List Ptr) (n : ℕ) (res : Option Ptr)
    → n < length us
    → nth_or_last us n res ≡ get_elem? us n
unfolding nth_or_last
nth_or_last-get [] n res h = elim h [ ]
nth_or_last-get (u ∷ us) zero res h = refl
nth_or_last-get (u ∷ us) (suc n) res h = nth_or_last-get us n (some u) (omega arith)

get_elem?-some : (us : List Ptr) (n : ℕ) → n < length us → (u : Ptr) × (get_elem? us n ≡ some u)
get_elem?-some [] n h = elim h [ ]
get_elem?-some (u ∷ us) zero h = (u, refl)
get_elem?-some (u ∷ us) (suc n) h = get_elem?-some us n (omega arith)

get_healthy_idx-get :
    (h : Heap) (us : List Ptr) (n : ℕ)
    → n < length (healthy h us)
    → get_healthy_idx h us n none ≡ get_elem? (healthy h us) n
unfolding get_healthy_idx
get_healthy_idx-get h us n lt =
    let (u, e) = get_elem?-some (healthy h us) n lt in
    ground
      (arith, healthy_idx_loop-nth h none us n none, nth_or_last-get (healthy h us) n none lt, e)

get_elem?-nil : (us : List Ptr) (n : ℕ) → length us ≡ 0 → get_elem? us n ≡ get_elem? us 0
get_elem?-nil [] n e = refl
get_elem?-nil (u ∷ us) n e = absurd (omega arith)

get_elem?_few :
    (us : List Ptr) (n : ℕ) → length us ≤ 1 → get_elem? us (n % length us) ≡ get_elem? us 0
get_elem?_few [] n h = refl
get_elem?_few (u ∷ []) n h = let e : n % 1 ≡ 0 = omega arith in rw e
get_elem?_few (u ∷ v ∷ us) n h = absurd (omega arith)

-- With no failed attempt behind it, a call that does not use least-conn chooses out of two or more
-- upstreams the healthy one at the entropy's remainder by their number, and none if none is healthy.
pub select_indexed :
    (h : Heap) (strat : Strategy) (n : ℕ) (u v : Ptr) (us : List Ptr)
    → is_least strat ≡ false
    → select h strat n none (u ∷ v ∷ us)
      ≡ get_elem? (healthy h (u ∷ v ∷ us)) (n % length (healthy h (u ∷ v ∷ us)))
unfolding select
select_indexed h strat n u v us s =
    let l : List Ptr = u ∷ v ∷ us in
    let m = length (healthy h l) in
    elim (Bool-cases (leb (count_healthy h l) 1)) [
      | inl few ↦
          rw (s, few)
            (first_healthy-get h l
              ∙ sym (get_elem?_few (healthy h l) n (ground (arith, count_healthy-length h l))))
      | inr many ↦
          rw (s, many, count_healthy-length h l)
            (get_healthy_idx-get h l (n % m) (mod-lt n (ground (arith, count_healthy-length h l))))
    ]

-- The balancer after a number of calls, and the choice of the next one.
pub after_calls : Heap → Context → (ℕ → ℕ) → ℕ → LoadBalancer → LoadBalancer
after_calls h ctx rand zero lb = lb
after_calls h ctx rand (suc n) lb = (next_upstream h (after_calls h ctx rand n lb) ctx (rand n)).0

select_indexed_of :
    (h : Heap) (strat : Strategy) (n : ℕ) (u v : Ptr) (us l : List Ptr)
    → is_least strat ≡ false
    → l ≡ u ∷ v ∷ us
    → select h strat n none l ≡ get_elem? (healthy h l) (n % length (healthy h l))
select_indexed_of h strat n u v us l s e = rw e (select_indexed h strat n u v us s)

next_upstream_round :
    (h : Heap) (lb : LoadBalancer) (ctx : Context) (r : ℕ)
    → ctx.upstream ≡ none
    → lb.strategy ≡ round_robin
    → next_upstream h lb ctx r ≡ (
      record lb { counter = u32 (lb.counter + 1) },
      select h round_robin (u32 (lb.counter + 1)) none lb.upstreams,
    )
unfolding next_upstream
next_upstream_round h lb ctx r e s = ground arith

-- The balancer that stands after n calls of round robin with no failed attempts.
after_calls_lem :
    (h : Heap) (ctx : Context) (rand : ℕ → ℕ) (n : ℕ) (lb : LoadBalancer)
    → ctx.upstream ≡ none
    → lb.strategy ≡ round_robin
    → lb.counter + n < 2 ^ 32
    → after_calls h ctx rand n lb ≡ record lb { counter = lb.counter + n }
unfolding after_calls
after_calls_lem h ctx rand zero lb e s small = ground arith
after_calls_lem h ctx rand (suc n) lb e s small =
    let lb' = record lb { counter = lb.counter + n } in
    let before = after_calls_lem h ctx rand n lb e s (omega arith) in
    rw (before, after_calls) (rw (next_upstream_round h lb' ctx (rand n) e s) (ground arith))

reach_index : (a j m : ℕ) → j < m → (a + (j + m - a % m) % m) % m ≡ j
reach_index a j m h =
    let q = a / m in
    let d : a ≡ m * q + a % m = sym (div-add-mod a m) in
    let r = mod-lt a {m = m} (omega arith) in
    let whole : a + (j + m - a % m) ≡ j + (m * q + m) = omega (arith, d, r) in
    let wide : m * q + m ≡ m * (q + 1) = grind arith in
    add-mod-mod a (j + m - a % m) m
    ∙ ap (λ (t : ℕ). t % m) (whole ∙ ap (λ (t : ℕ). j + t) wide)
    ∙ add-mul-mod_self_left j m (q + 1)
    ∙ mod-eq_of_lt h

-- Round robin is fair: as long as the counter does not wrap, of as many calls in a row as there are
-- healthy upstreams one goes to each of them, whatever the random numbers are.
pub round_robin_fair :
    (h : Heap) (ctx : Context) (rand : ℕ → ℕ) (lb : LoadBalancer) (u v : Ptr) (us : List Ptr)
    (j : ℕ)
    → ctx.upstream ≡ none
    → lb.strategy ≡ round_robin
    → lb.upstreams ≡ u ∷ v ∷ us
    → lb.counter + length (healthy h lb.upstreams) < 2 ^ 32
    → j < length (healthy h lb.upstreams)
    → (i : ℕ) × (i < length (healthy h lb.upstreams))
      × ((next_upstream h (after_calls h ctx rand i lb) ctx (rand i)).1
          ≡ get_elem? (healthy h lb.upstreams) j)
round_robin_fair h ctx rand lb u v us j e s l small lt =
    let m = length (healthy h lb.upstreams) in
    let i = (j + m - (lb.counter + 1) % m) % m in
    let lti = mod-lt (j + m - (lb.counter + 1) % m) {m = m} (omega arith) in
    let lb' = record lb { counter = lb.counter + i } in
    let fits : u32 (lb'.counter + 1) ≡ lb.counter + 1 + i = omega (arith, lti) in
    let index : (lb.counter + 1 + i) % m ≡ j = reach_index (lb.counter + 1) j m lt in
    (
      i,
      lti,
      rw (after_calls_lem h ctx rand i lb e s (omega (arith, lti))) (
          rw (next_upstream_round h lb' ctx (rand i) e s) (
            rw fits (
              select_indexed_of h round_robin (lb.counter + 1 + i) u v us lb.upstreams refl l
              ∙ ap (get_elem? (healthy h lb.upstreams)) index))),
    )
