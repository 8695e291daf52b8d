-- ===== src/Rate/Window/Schedule.antt =====
-- Sequences of requests against one window of rate/window.go.
use pmesh.Base.{
  ℕ, ◌+◌, ◌-◌, ◌^◌, ◌≤◌, ◌<◌, min, ◌≡◌, refl, true, arith, leb, ◌==◌, if◌then◌else◌, ◌&&◌, List, [],
  ◌∷◌, inl, inr, Bool-cases,
}
use pmesh.Rate.Window.{Window, u32, stamp_of, pack, inc}
use pmesh.Rate.Window.Packing.{standing, inc_refused, inc_granted, pack_fields}

-- How many of the requests, made one after the other at the listed ticks, are granted at tick t.
pub granted : Window → ℕ → List ℕ → ℕ → ℕ
granted w limit [] t = 0
granted w limit (now ∷ ticks) t =
    let (w', ok) = inc w now limit in (if ok && now == t then 1 else 0) + granted w' limit ticks t

pub requests : List ℕ → ℕ → ℕ
requests [] t = 0
requests (now ∷ ticks) t = (if now == t then 1 else 0) + requests ticks t

-- The ticks do not fall, start at `lo` or later, and are uint32.
abbrev pub Ascends : ℕ → List ℕ → Type 0
Ascends lo [] = Unit
Ascends lo (now ∷ ticks) = (lo ≤ now) × (now < 2 ^ 32) × Ascends now ticks

Ascends-weaken : (lo hi : ℕ) (ticks : List ℕ) → lo ≤ hi → Ascends hi ticks → Ascends lo ticks
Ascends-weaken lo hi [] h a = tt
Ascends-weaken lo hi (now ∷ ticks) h a = (omega arith, a.1, a.2)

requests_before : (lo t : ℕ) (ticks : List ℕ) → t < lo → Ascends lo ticks → requests ticks t ≡ 0
unfolding requests
requests_before lo t [] h a = refl
requests_before lo t (now ∷ ticks) h a =
    ground (arith, requests_before now t ticks (omega arith) a.2)

granted_step :
    (w limit now t : ℕ) (ticks : List ℕ)
    → limit < 2 ^ 32
    → Ascends (stamp_of w) (now ∷ ticks)
    → ((w' : Window)
        → Ascends (stamp_of w') ticks
        → granted w' limit ticks t ≡ min (limit - standing w' t) (requests ticks t))
    → granted w limit (now ∷ ticks) t ≡ min (limit - standing w t) (requests (now ∷ ticks) t)
unfolding granted requests
granted_step w limit now t ticks hl a ih = elim (Bool-cases (leb limit (standing w now))) [
  | inl full ↦ rw (inc_refused w now limit (ground arith)) (
      ground
        (arith, ih w (Ascends-weaken (stamp_of w) now ticks a.0 a.2), requests_before now t ticks))
  | inr open_ ↦
      let c = standing w now in
      let w' = pack (u32 (c + 1)) now in
      let f = pack_fields (u32 (c + 1)) now (omega arith) a.1 in
      rw (inc_granted w now limit (ground arith)) (
        ground (
          arith,
          ih w' (Ascends-weaken (stamp_of w') now ticks (omega arith) a.2),
          requests_before now t ticks,
          f,
        ))
]

-- Requests at ticks that do not fall are counted exactly: of the requests at a tick the window
-- grants as many as its limit leaves room for, whatever was asked at other ticks.
pub granted_exact :
    (w limit t : ℕ) (ticks : List ℕ)
    → limit < 2 ^ 32
    → Ascends (stamp_of w) ticks
    → granted w limit ticks t ≡ min (limit - standing w t) (requests ticks t)
granted_exact w limit t [] hl a = unfold granted requests in omega arith
granted_exact w limit t (now ∷ ticks) hl a =
    granted_step w limit now t ticks hl a (λ w' b. granted_exact w' limit t ticks hl b)

-- A request that carries an older tick rewinds the stamp of a window that has room left: the next
-- request at the newer tick starts again from a count of one, whatever the window had counted.
pub inc_late_forgets :
    (c t late limit : ℕ)
    → t < 2 ^ 32
    → late < t
    → c < limit
    → limit < 2 ^ 32
    → inc (inc (pack c t) late limit).0 t limit ≡ (pack 1 t, true)
inc_late_forgets c t late limit ht hlate hc hl =
    let f = pack_fields c t (omega arith) ht in
    let g = pack_fields (c + 1) late (omega arith) (omega arith) in
    let kept : standing (pack c t) late ≡ c = ground arith in
    let small : u32 (c + 1) ≡ c + 1 = omega arith in
    let gone : standing (pack (c + 1) late) t ≡ 0 = ground arith in
    rw (inc_granted (pack c t) late limit (omega arith))
      (rw (kept, small) (rw (inc_granted (pack (c + 1) late) t limit (omega arith)) (rw gone)))
