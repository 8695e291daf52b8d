-- ===== src/LoadBalancer/Sticky.antt =====
-- Sticky sessions in lb/lb.go, and the case of no healthy upstream.
use pmesh.Base.{
  ℕ, ◌≡◌, refl, inl, inr, false, Option, none, some, List, [], ◌∷◌, arith, Option-cases,
  if◌then◌else◌,
}
use pmesh.LoadBalancer.{
  Heap, Ptr, LoadBalancer, Context, Strategy, is_least, sticky_load, sticky_cas, next_upstream,
  to_pick, pick_fresh, pick_upstream, select, least_loop, first_healthy, count_healthy,
}
use pmesh.LoadBalancer.Choice.{In}

-- A session in which nothing was stored for the balancer never gets a sticky upstream: the
-- compare-and-swap of a nil pointer finds no value to swap. Every pick is then a fresh one, and the
-- session is left as it was.
pub pick_upstream-unstuck :
    (h : Heap) (lb : LoadBalancer) (ctx : Context) (rand : ℕ)
    → ctx.session.value ≡ none
    → pick_upstream h lb ctx rand
      ≡ ((next_upstream h lb ctx rand).0, ctx.session, to_pick (next_upstream h lb ctx rand).1)
unfolding pick_upstream pick_fresh sticky_load sticky_cas
pick_upstream-unstuck h lb ctx rand e = ground (arith, Option-cases (next_upstream h lb ctx rand).1)

all_down_loop :
    (h : Heap) (us : List Ptr) (u : Ptr) (best : ℕ)
    → ((w : Ptr) → In w us → (h w).healthy ≡ false)
    → least_loop h us u best ≡ u
unfolding least_loop
all_down_loop h [] u best down = refl
all_down_loop h (v ∷ us) u best down =
    ground (arith, down v (inl refl), all_down_loop h us u best (λ w i. down w (inr i)))

all_down_count :
    (h : Heap) (us : List Ptr)
    → ((w : Ptr) → In w us → (h w).healthy ≡ false)
    → (count_healthy h us ≡ 0) × (first_healthy h us ≡ none)
unfolding count_healthy first_healthy
all_down_count h [] down = (refl, refl)
all_down_count h (v ∷ us) down =
    let (c, f) = all_down_count h us (λ w i. down w (inr i)) in
    ground (arith, down v (inl refl), c, f)

-- With two or more upstreams and none of them healthy, least-conn still sends the request to the
-- first one, and every other strategy chooses none.
pub select_all_down :
    (h : Heap) (strat : Strategy) (n : ℕ) (bad : Option Ptr) (u v : Ptr) (us : List Ptr)
    → ((w : Ptr) → In w (u ∷ v ∷ us) → (h w).healthy ≡ false)
    → select h strat n bad (u ∷ v ∷ us) ≡ (if is_least strat then some u else none)
unfolding select
select_all_down h strat n bad u v us down =
    let (c, f) = all_down_count h (u ∷ v ∷ us) down in
    let best = if (h u).healthy then (h u).load_factor else 0x7fffffff in
    ground (arith, c, f, all_down_loop h (v ∷ us) u best (λ w i. down w (inr i)))
