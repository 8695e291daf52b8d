-- ===== src/Netx/IpMap.antt =====
-- netx/ipmap.go: the map of version 4 ranges and its binary search. `Sort` is a call of the sort
-- package; its result, a sorted list, is a hypothesis of the theorem on `Find`.
pub mod Search
use pmesh.Base.{
  ℕ, zero, suc, ◌+◌, ◌-◌, ◌/◌, ◌%◌, ◌^◌, ◌≤◌, ◌<◌, ◌≡◌, refl, sym, ap, ◌∙◌, Bool, true, false, not,
  ◌&&◌, ◌||◌, Option, none, some, List, [], ◌∷◌, ◌++◌, ◌==◌, ltb, leb, if◌then◌else◌, length,
  get_elem?, arith, Bool-cases, Option-cases, inl, inr, ◌⊎◌,
}
use pmesh.Base.Int.{ℤ, pos, ltb_ℤ, leb_ℤ}
use pmesh.Netx.Ip.{Ip, is_v4, compare_ip}

pub record Info4 {ℓ} (A : Type ℓ) : Type ℓ where
  pub first : ℕ
  pub last : ℕ
  pub info : A

pub record Info6 {ℓ} (A : Type ℓ) : Type ℓ where
  pub first : Ip
  pub last : Ip
  pub info : A

pub record IpMap {ℓ} (A : Type ℓ) : Type ℓ where
  pub v4 : List (Info4 A)
  pub v6 : List (Info6 A)

-- What the loop does at the range in the middle.
pub data Side : Type 0 where
  to_right to_left hit : Side

module _ {ℓ} {A : Type ℓ} where
  -- `Add`
  unfoldable pub add : IpMap A → A → Ip → Ip → IpMap A
  add s info min max =
      if is_v4 min
      then record s {
        v4 = s.v4 ++ record { first = min.low % 2 ^ 32; last = max.low % 2 ^ 32; info = info } ∷ [];
      }
      else record s { v6 = s.v6 ++ record { first = min; last = max; info = info } ∷ [] }

  unfoldable pub side4 : Info4 A → ℕ → Side
  side4 e ip =
      if ltb e.last ip
      then to_right
      else if not (e.last == 0) && ltb ip e.first
      then to_left
      else hit

  unfoldable pub side6 : Info6 A → Ip → Side
  side6 e ip =
      let r = compare_ip e.last ip in
      if ltb_ℤ r (pos 0)
      then to_right
      else if not (leb_ℤ r (pos 0) && leb_ℤ (pos 0) r) && ltb_ℤ (pos 0) (compare_ip e.first ip)
      then to_left
      else hit

-- The loop of `Find` over any ranges, on fuel: `none` where nothing is found. The ranges that are left
-- are those from i up to j.
unfoldable pub find_loop {ℓ κ} :
    {E : Type ℓ} {A : Type κ} → (E → Side) → (E → A) → List E → ℕ → ℕ → ℕ → Option A
find_loop side info arr zero i j = none
find_loop side info arr (suc fuel) i j = elim (ltb i j) [
  | false ↦ none
  | true ↦ elim (get_elem? arr ((i + j) / 2)) [
    | none ↦ none
    | some e ↦ elim (side e) [
      | to_right ↦ find_loop side info arr fuel ((i + j) / 2 + 1) j
      | to_left ↦ find_loop side info arr fuel i ((i + j) / 2)
      | hit ↦ some (info e)
    ]
  ]
]

-- `Find`; the length of the list is fuel enough, since each round drops a range.
unfoldable pub find {ℓ} : {A : Type ℓ} → IpMap A → Ip → Option A
find s ip =
    if is_v4 ip
    then find_loop (λ e. side4 e (ip.low % 2 ^ 32)) (λ e. e.info) s.v4 (length s.v4) 0 (length s.v4)
    else find_loop (λ e. side6 e ip) (λ e. e.info) s.v6 (length s.v6) 0 (length s.v6)
