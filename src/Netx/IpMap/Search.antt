-- ===== src/Netx/IpMap/Search.antt =====
-- The binary search of netx/ipmap.go.
use pmesh.Base.{
  ℕ, zero, suc, ◌+◌, ◌/◌, ◌%◌, ◌^◌, ◌≤◌, ◌<◌, ◌≡◌, refl, sym, ap, ◌∙◌, true, not, ◌&&◌, some, List,
  [], ◌∷◌, ◌==◌, ltb, length, get_elem?, arith, Bool-cases, Option-cases, inl, inr,
}
use pmesh.Netx.Ip.{Ip, is_v4}
use pmesh.Netx.IpMap.{Info4, IpMap, to_right, to_left, hit, side4, find_loop, find}

-- Each range begins no later than it ends, and each is in front of those that follow it.
abbrev Behind {ℓ} : {A : Type ℓ} → ℕ → List (Info4 A) → Type 0
Behind n [] = Unit
Behind n (e ∷ es) = (n < e.first) × (e.first ≤ e.last) × Behind e.last es

abbrev pub Sorted {ℓ} : {A : Type ℓ} → List (Info4 A) → Type 0
Sorted [] = Unit
Sorted (e ∷ es) = (e.first ≤ e.last) × Behind e.last es

module _ {ℓ} {A : Type ℓ} where
  in_order :
      (n : ℕ) (es : List (Info4 A)) (k : ℕ) (e : Info4 A)
      → Behind n es
      → get_elem? es k ≡ some e
      → (n < e.first) × (e.first ≤ e.last)
  in_order n [] k e b h = ground arith
  in_order n (x ∷ es) zero e b h = ground arith
  in_order n (x ∷ es) (suc k) e b h = ground (arith, in_order x.last es k e b.2 h)

  apart :
      (es : List (Info4 A)) (i k : ℕ) (d e : Info4 A)
      → Sorted es
      → get_elem? es i ≡ some d
      → get_elem? es k ≡ some e
      → i < k
      → (d.first ≤ d.last) × (d.last < e.first) × (e.first ≤ e.last)
  apart [] i k d e s hd he h = ground arith
  apart (x ∷ es) zero zero d e s hd he h = absurd (omega arith)
  apart (x ∷ es) (suc i) zero d e s hd he h = absurd (omega arith)
  apart (x ∷ es) zero (suc k) d e s hd he h = ground (arith, in_order x.last es k e s.1 he)
  apart (x ∷ []) (suc i) (suc k) d e s hd he h = ground arith
  apart (x ∷ y ∷ es) (suc i) (suc k) d e s hd he h =
      apart (y ∷ es) i k d e (s.1.1, s.1.2) hd he (omega arith)

  get_elem?-lt :
      (es : List (Info4 A)) (k : ℕ) (e : Info4 A) → get_elem? es k ≡ some e → k < length es
  get_elem?-lt [] k e h = ground arith
  get_elem?-lt (x ∷ es) zero e h = omega arith
  get_elem?-lt (x ∷ es) (suc k) e h = omega (arith, get_elem?-lt es k e h)

  get_elem?-some :
      (es : List (Info4 A)) (k : ℕ) → k < length es → (e : Info4 A) × (get_elem? es k ≡ some e)
  get_elem?-some [] k h = absurd (omega arith)
  get_elem?-some (x ∷ es) zero h = (x, refl)
  get_elem?-some (x ∷ es) (suc k) h = get_elem?-some es k (omega arith)

  find_loop-hit :
      (es : List (Info4 A)) (ip k fuel i j : ℕ) (e : Info4 A)
      → Sorted es
      → get_elem? es k ≡ some e
      → e.first ≤ ip
      → ip ≤ e.last
      → i ≤ k
      → k < j
      → j ≤ length es
      → j ≤ i + fuel
      → find_loop (λ d. side4 d ip) (λ d. d.info) es fuel i j ≡ some e.info
  unfolding find_loop side4
  find_loop-hit es ip k zero i j e s he lo hi hik hkj hj hf = absurd (omega arith)
  find_loop-hit es ip k (suc fuel) i j e s he lo hi hik hkj hj hf =
      let (d, hd) = get_elem?-some es ((i + j) / 2) (omega arith) in
      let run : ltb i j ≡ true = ground arith in
      elim (Bool-cases (ltb ((i + j) / 2) k)) [
        | inl before ↦
            let a = apart es ((i + j) / 2) k d e s hd he (ground arith) in
            let right : side4 d ip ≡ to_right = ground arith in
            rw (run, hd, right, find_loop)
              (find_loop-hit es ip k fuel ((i + j) / 2 + 1) j e s he lo hi (ground arith) hkj hj
                (omega arith))
        | inr not_before ↦ elim (Bool-cases (ltb k ((i + j) / 2))) [
          | inl behind ↦
              let a = apart es k ((i + j) / 2) e d s he hd (ground arith) in
              let left : side4 d ip ≡ to_left = ground arith in
              rw (run, hd, left, find_loop)
                (find_loop-hit es ip k fuel i ((i + j) / 2) e s he lo hi hik (ground arith)
                  (omega arith) (omega arith))
          | inr not_behind ↦
              let same : (i + j) / 2 ≡ k = ground arith in
              let here : some d ≡ some e = sym hd ∙ ap (get_elem? es) same ∙ he in
              let at_e : d ≡ e = ground arith in
              let found : side4 d ip ≡ hit = rw at_e (ground arith) in
              rw (run, hd, found, find_loop) (ap (λ (x : Info4 A). some x.info) at_e)
        ]
      ]

  ordered :
      (es : List (Info4 A)) (k : ℕ) (e : Info4 A)
      → Sorted es
      → get_elem? es k ≡ some e
      → e.first ≤ e.last
  ordered [] k e s h = ground arith
  ordered (x ∷ es) zero e s h = ground arith
  ordered (x ∷ es) (suc k) e s h = (in_order x.last es k e s.1 h).1

  find_loop_sound :
      (es : List (Info4 A)) (ip fuel i j : ℕ) (v : A)
      → Sorted es
      → find_loop (λ d. side4 d ip) (λ d. d.info) es fuel i j ≡ some v
      → (k : ℕ) × (e : Info4 A) × (get_elem? es k ≡ some e)
        × (e.info ≡ v)
        × (e.first ≤ ip)
        × (ip ≤ e.last)
  unfolding find_loop side4
  find_loop_sound es ip zero i j v s h = ground arith
  find_loop_sound es ip (suc fuel) i j v s h = elim (Option-cases (get_elem? es ((i + j) / 2))) [
    | inl out ↦ ground arith
    | inr (d, hd) ↦ elim (Bool-cases (ltb d.last ip)) [
      | inl past ↦ find_loop_sound es ip fuel ((i + j) / 2 + 1) j v s (ground arith)
      | inr within ↦ elim (Bool-cases (not (d.last == 0) && ltb ip d.first)) [
        | inl ahead ↦ find_loop_sound es ip fuel i ((i + j) / 2) v s (ground arith)
        | inr there ↦ (
          (i + j) / 2,
          d,
          hd,
          ground arith,
          ground (arith, ordered es ((i + j) / 2) d s hd),
          ground arith,
        )
      ]
    ]
  ]

-- Where the ranges of version 4 are sorted and apart, `Find` gives the information of the range that
-- holds the address: the search always ends with it.
pub find_complete {ℓ} :
    {A : Type ℓ} (s : IpMap A) (ip : Ip) (k : ℕ) (e : Info4 A)
    → is_v4 ip ≡ true
    → Sorted s.v4
    → get_elem? s.v4 k ≡ some e
    → e.first ≤ ip.low % 2 ^ 32
    → ip.low % 2 ^ 32 ≤ e.last
    → find s ip ≡ some e.info
unfolding find
find_complete s ip k e v sorted he lo hi =
    let n = length s.v4 in
    rw (v, find)
      (find_loop-hit s.v4 (ip.low % 2 ^ 32) k n 0 n e sorted he lo hi (omega arith)
        (get_elem?-lt s.v4 k e he) (omega arith) (omega arith))

-- Where the ranges of version 4 are sorted and apart, what `Find` gives for an address is the
-- information of a range that holds it.
pub find_sound {ℓ} :
    {A : Type ℓ} (s : IpMap A) (ip : Ip) (v : A)
    → is_v4 ip ≡ true
    → Sorted s.v4
    → find s ip ≡ some v
    → (k : ℕ) × (e : Info4 A) × (get_elem? s.v4 k ≡ some e)
      × (e.info ≡ v)
      × (e.first ≤ ip.low % 2 ^ 32)
      × (ip.low % 2 ^ 32 ≤ e.last)
unfolding find
find_sound s ip v is4 sorted h =
    let n = length s.v4 in find_loop_sound s.v4 (ip.low % 2 ^ 32) n 0 n v sorted (ground arith)
