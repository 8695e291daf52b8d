-- ===== src/LoadBalancer/Choice.antt =====
-- Which upstream lb/lb.go chooses.
use pmesh.Base.{
  ℕ, zero, suc, ◌-◌, ◌%◌, ◌≤◌, ◌<◌, ◌≡◌, refl, ◌⊎◌, inl, inr, Bool, true, false, not, ◌&&◌, Option,
  none, some, List, [], ◌∷◌, arith, Bool-cases, if◌then◌else◌, leb,
}
use mathlib.Core.Path.{subst}
use pmesh.LoadBalancer.{
  Heap, Ptr, Strategy, is_ptr, is_least, healthy_idx_loop, get_healthy_idx, count_healthy,
  first_healthy, select,
}

abbrev pub In : Ptr → List Ptr → Type 0
In u [] = ⊥
In u (v ∷ us) = (u ≡ v) ⊎ In u us

-- The upstreams that may be chosen after a failed attempt: the healthy ones but the failed one.
unfoldable pub candidates : Heap → Option Ptr → List Ptr → List Ptr
candidates h bad [] = []
candidates h bad (u ∷ us) =
    let rest = candidates h bad us in if (h u).healthy && not (is_ptr bad u) then u ∷ rest else rest

-- The entry at a position, or the last one; `res` where there is none.
unfoldable pub nth_or_last : List Ptr → ℕ → Option Ptr → Option Ptr
nth_or_last [] n res = res
nth_or_last (u ∷ us) zero res = some u
nth_or_last (u ∷ us) (suc n) res = nth_or_last us n (some u)

pub healthy_idx_loop-nth :
    (h : Heap) (bad : Option Ptr) (us : List Ptr) (n : ℕ) (res : Option Ptr)
    → healthy_idx_loop h bad us n res ≡ nth_or_last (candidates h bad us) n res
unfolding healthy_idx_loop candidates nth_or_last
healthy_idx_loop-nth h bad [] n res = refl
healthy_idx_loop-nth h bad (u ∷ us) zero res =
    ground (arith, healthy_idx_loop-nth h bad us zero res)
healthy_idx_loop-nth h bad (u ∷ us) (suc n) res = ground (
  arith,
  healthy_idx_loop-nth h bad us (suc n) res,
  healthy_idx_loop-nth h bad us (suc n - 1) (some u),
)

abbrev keeps : Heap → Option Ptr → Ptr → Bool
keeps h bad v = (h v).healthy && not (is_ptr bad v)

candidates_take :
    (h : Heap) (bad : Option Ptr) (v : Ptr) (us : List Ptr)
    → keeps h bad v ≡ true
    → candidates h bad (v ∷ us) ≡ v ∷ candidates h bad us
unfolding candidates
candidates_take h bad v us e = rw e

candidates_skip :
    (h : Heap) (bad : Option Ptr) (v : Ptr) (us : List Ptr)
    → keeps h bad v ≡ false
    → candidates h bad (v ∷ us) ≡ candidates h bad us
unfolding candidates
candidates_skip h bad v us e = rw e

keeps_parts :
    (h : Heap) (bad : Option Ptr) (u v : Ptr)
    → u ≡ v
    → keeps h bad v ≡ true
    → ((h u).healthy ≡ true) × (is_ptr bad u ≡ false)
keeps_parts h bad u v e k = rw e (ground arith)

keeps_of_parts :
    (h : Heap) (bad : Option Ptr) (u v : Ptr)
    → u ≡ v
    → (h u).healthy ≡ true
    → is_ptr bad u ≡ false
    → keeps h bad v ≡ true
keeps_of_parts h bad u v e good other = rw (← e) (rw (good, other))

candidates-In :
    (h : Heap) (bad : Option Ptr) (us : List Ptr) (u : Ptr)
    → In u (candidates h bad us)
    → ((h u).healthy ≡ true) × (is_ptr bad u ≡ false) × In u us
unfolding candidates
candidates-In h bad [] u i = absurd i
candidates-In h bad (v ∷ us) u i = elim (Bool-cases (keeps h bad v)) [
  | inl k ↦ elim (subst (In u) (candidates_take h bad v us k) i) [
    | inl e ↦ let (g, o) = keeps_parts h bad u v e k in (g, o, inl e)
    | inr j ↦ let (g, o, m) = candidates-In h bad us u j in (g, o, inr m)
  ]
  | inr k ↦
      let (g, o, m) = candidates-In h bad us u (subst (In u) (candidates_skip h bad v us k) i) in
      (g, o, inr m)
]

In-candidates :
    (h : Heap) (bad : Option Ptr) (us : List Ptr) (u : Ptr)
    → In u us
    → (h u).healthy ≡ true
    → is_ptr bad u ≡ false
    → In u (candidates h bad us)
unfolding candidates
In-candidates h bad [] u i good other = absurd i
In-candidates h bad (v ∷ us) u (inl e) good other =
    rw (candidates_take h bad v us (keeps_of_parts h bad u v e good other)) (inl e)
In-candidates h bad (v ∷ us) u (inr i) good other = elim (Bool-cases (keeps h bad v)) [
  | inl k ↦ rw (candidates_take h bad v us k) (inr (In-candidates h bad us u i good other))
  | inr k ↦ rw (candidates_skip h bad v us k) (In-candidates h bad us u i good other)
]

nth_or_last-In :
    (us : List Ptr) (n : ℕ) (res : Option Ptr) (u : Ptr)
    → In u us
    → (v : Ptr) × (nth_or_last us n res ≡ some v) × In v us
unfolding nth_or_last
nth_or_last-In [] n res u i = absurd i
nth_or_last-In (v ∷ us) zero res u i = (v, refl, inl refl)
nth_or_last-In (v ∷ []) (suc n) res u i = (v, refl, inl refl)
nth_or_last-In (v ∷ w ∷ us) (suc n) res u i =
    let (x, e, j) = nth_or_last-In (w ∷ us) n (some v) w (inl refl) in (x, e, inr j)

count_healthy-pos :
    (h : Heap) (us : List Ptr) (u : Ptr) → In u us → (h u).healthy ≡ true → 0 < count_healthy h us
unfolding count_healthy
count_healthy-pos h [] u i good = absurd i
count_healthy-pos h (v ∷ us) u (inl e) good =
    let g : (h v).healthy ≡ true = rw (← e) good in ground arith
count_healthy-pos h (v ∷ us) u (inr i) good = ground (arith, count_healthy-pos h us u i good)

first_healthy_only :
    (h : Heap) (us : List Ptr) (u : Ptr)
    → In u us
    → (h u).healthy ≡ true
    → count_healthy h us ≤ 1
    → first_healthy h us ≡ some u
unfolding count_healthy first_healthy
first_healthy_only h [] u i good one = absurd i
first_healthy_only h (v ∷ us) u (inl e) good one =
    let g : (h v).healthy ≡ true = rw (← e) good in ground (arith, e)
first_healthy_only h (v ∷ us) u (inr i) good one =
    ground (arith, count_healthy-pos h us u i good, first_healthy_only h us u i good)

get_healthy_idx-some :
    (h : Heap) (us : List Ptr) (n : ℕ) (bad : Option Ptr) (x : Ptr)
    → nth_or_last (candidates h bad us) n none ≡ some x
    → get_healthy_idx h us n bad ≡ some x
unfolding get_healthy_idx
get_healthy_idx-some h us n bad x e = ground (arith, healthy_idx_loop-nth h bad us n none, e)

-- While some healthy upstream other than the failed one is left, every strategy but least-conn
-- chooses such a one out of two or more upstreams: never an unhealthy one, never the failed one.
pub select_avoids :
    (h : Heap) (strat : Strategy) (n : ℕ) (bad : Option Ptr) (u v : Ptr) (us : List Ptr) (w : Ptr)
    → is_least strat ≡ false
    → In w (u ∷ v ∷ us)
    → (h w).healthy ≡ true
    → is_ptr bad w ≡ false
    → (x : Ptr) × (select h strat n bad (u ∷ v ∷ us) ≡ some x)
      × ((h x).healthy ≡ true)
      × (is_ptr bad x ≡ false)
      × In x (u ∷ v ∷ us)
unfolding select
select_avoids h strat n bad u v us w s i good other =
    let l : List Ptr = u ∷ v ∷ us in
    let healthy_n = count_healthy h l in
    elim (Bool-cases (leb healthy_n 1)) [
      | inl one ↦ (w, rw (s, one) (first_healthy_only h l w i good (ground arith)), good, other, i)
      | inr many ↦
          let c = In-candidates h bad l w i good other in
          let (x, e, j) = nth_or_last-In (candidates h bad l) (n % healthy_n) none w c in
          let (gx, ox, ix) = candidates-In h bad l x j in
          (x, rw (s, many) (get_healthy_idx-some h l (n % healthy_n) bad x e), gx, ox, ix)
    ]
