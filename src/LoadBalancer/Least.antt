-- ===== src/LoadBalancer/Least.antt =====
-- The least-connections choice of lb/lb.go.
use pmesh.Base.{
  ℕ, ◌≤◌, ◌<◌, ◌≡◌, refl, sym, ◌⊎◌, inl, inr, Bool, true, false, ◌&&◌, Option, some, List, [], ◌∷◌,
  arith, Bool-cases, if◌then◌else◌, ltb,
}
use pmesh.LoadBalancer.Choice.{In}
use pmesh.LoadBalancer.{Heap, Ptr, least_conn, least_loop, select}

-- The least load that the least-connections loop has seen.
record LeastOk (h : Heap) (us : List Ptr) (result : Ptr) (best : ℕ) (r : Ptr) : Type 0 where
  least : ℕ
  within : least ≤ best
  below : (w : Ptr) → In w us → (h w).healthy ≡ true → least ≤ (h w).load_factor
  source :
      ((r ≡ result) × (least ≡ best))
      ⊎ (In r us × ((h r).healthy ≡ true) × ((h r).load_factor ≡ least))

abbrev improves : Heap → Ptr → ℕ → Bool
improves h u best = (h u).healthy && ltb (h u).load_factor best

LeastOk-take :
    (h : Heap) (us : List Ptr) (u result : Ptr) (best : ℕ) (r : Ptr)
    → improves h u best ≡ true
    → LeastOk h us u (h u).load_factor r
    → LeastOk h (u ∷ us) result best r
LeastOk-take h us u result best r better o = record {
  least = o.least;
  within = ground (arith, o.within);
  below = λ w i good. elim i [ inl e ↦ rw e o.within | inr j ↦ o.below w j good ];
  source = elim o.source [
    | inl (e, same) ↦ inr (inl e, rw e (ground arith), rw e (sym same))
    | inr (j, good, same) ↦ inr (inr j, good, same)
  ];
}

LeastOk-skip :
    (h : Heap) (us : List Ptr) (u result : Ptr) (best : ℕ) (r : Ptr)
    → improves h u best ≡ false
    → LeastOk h us result best r
    → LeastOk h (u ∷ us) result best r
LeastOk-skip h us u result best r worse o = record {
  least = o.least;
  within = o.within;
  below = λ w i good. elim i [
    | inl e ↦ rw e (let good' : (h u).healthy ≡ true = rw (← e) good in ground (arith, o.within))
    | inr j ↦ o.below w j good
  ];
  source = elim o.source [ inl same ↦ inl same | inr (j, good, same) ↦ inr (inr j, good, same) ];
}

least_loop_take :
    (h : Heap) (us : List Ptr) (u result : Ptr) (best : ℕ)
    → improves h u best ≡ true
    → least_loop h (u ∷ us) result best ≡ least_loop h us u (h u).load_factor
unfolding least_loop
least_loop_take h us u result best better = ground arith

least_loop_skip :
    (h : Heap) (us : List Ptr) (u result : Ptr) (best : ℕ)
    → improves h u best ≡ false
    → least_loop h (u ∷ us) result best ≡ least_loop h us result best
unfolding least_loop
least_loop_skip h us u result best worse = ground arith

least_loop_lem :
    (h : Heap) (us : List Ptr) (result : Ptr) (best : ℕ)
    → LeastOk h us result best (least_loop h us result best)
least_loop_lem h [] result best =
    unfold least_loop in
    record {
      least = best;
      within = omega arith;
      below = λ w i. absurd i;
      source = inl (refl, refl);
    }
least_loop_lem h (u ∷ us) result best = elim (Bool-cases (improves h u best)) [
  | inl better ↦ rw (least_loop_take h us u result best better) (
      LeastOk-take h us u result best (least_loop h us u (h u).load_factor) better
        (least_loop_lem h us u (h u).load_factor))
  | inr worse ↦ rw (least_loop_skip h us u result best worse) (
      LeastOk-skip h us u result best (least_loop h us result best) worse
        (least_loop_lem h us result best))
]

-- The load that the first upstream enters the comparison with.
abbrev start : Heap → Ptr → ℕ
start h u = if (h u).healthy then (h u).load_factor else 0x7fffffff

start-healthy : (h : Heap) (u : Ptr) → (h u).healthy ≡ true → start h u ≡ (h u).load_factor
start-healthy h u g = rw g

head_healthy :
    (h : Heap) (u v : Ptr) (us : List Ptr) (w : Ptr) (least : ℕ)
    → In w (u ∷ v ∷ us)
    → (h w).healthy ≡ true
    → (h w).load_factor < 0x7fffffff
    → least ≡ start h u
    → ((y : Ptr) → In y (v ∷ us) → (h y).healthy ≡ true → least ≤ (h y).load_factor)
    → (h u).healthy ≡ true
head_healthy h u v us w least (inl e) good small same below = rw (← e) good
head_healthy h u v us w least (inr i) good small same below = ground (arith, below w i good)

below_all :
    (h : Heap) (u v : Ptr) (us : List Ptr) (least : ℕ)
    → least ≤ start h u
    → ((y : Ptr) → In y (v ∷ us) → (h y).healthy ≡ true → least ≤ (h y).load_factor)
    → (y : Ptr) → In y (u ∷ v ∷ us)
    → (h y).healthy ≡ true
    → {l : ℕ} → l ≤ least
    → l ≤ (h y).load_factor
below_all h u v us least within below y (inl e) gy le =
    let gu : (h u).healthy ≡ true = rw (← e) gy in
    let eu = start-healthy h u gu in rw e (omega arith)
below_all h u v us least within below y (inr k) gy le = omega (arith, below y k gy)

-- Out of two or more upstreams least-conn chooses a healthy one whose load no healthy one is below,
-- where some healthy upstream has a load below the largest int32.
pub select_least :
    (h : Heap) (n : ℕ) (bad : Option Ptr) (u v : Ptr) (us : List Ptr) (w : Ptr)
    → In w (u ∷ v ∷ us)
    → (h w).healthy ≡ true
    → (h w).load_factor < 0x7fffffff
    → (x : Ptr) × (select h least_conn n bad (u ∷ v ∷ us) ≡ some x)
      × ((h x).healthy ≡ true)
      × In x (u ∷ v ∷ us)
      × ((y : Ptr)
          → In y (u ∷ v ∷ us)
          → (h y).healthy ≡ true
          → (h x).load_factor ≤ (h y).load_factor)
unfolding select
select_least h n bad u v us w i good small =
    let best = start h u in
    let x = least_loop h (v ∷ us) u best in
    let o = least_loop_lem h (v ∷ us) u best in
    elim o.source [
      | inl (e, same) ↦
          let gu = head_healthy h u v us w o.least i good small same o.below in
          (
            x,
            refl,
            rw e gu,
            inl e,
            λ y k gy. rw e (
                below_all h u v us o.least o.within o.below y k gy
                  (omega (arith, start-healthy h u gu, same))),
          )
      | inr (j, gx, same) ↦ (
        x,
        refl,
        gx,
        inr j,
        λ y k gy. below_all h u v us o.least o.within o.below y k gy (omega (arith, same)),
      )
    ]
