-- ===== src/Session/Quota.antt =====
-- session/runner.go: `consumeWrapper`, the quota of messages of a runner. Times are nanoseconds; the
-- count and the period of the rate are not negative. A round gets its clock reading and whether
-- `fetch` gives a message.
use pmesh.Base.{
  ℕ, ◌+◌, ◌-◌, ◌*◌, ◌≤◌, ◌<◌, ◌≡◌, refl, sym, ap, ◌∙◌, Bool, true, false, Option, none, some, List,
  [], ◌∷◌, ltb, arith, if◌then◌else◌, Bool-cases, inl, inr,
}

-- The variables of `consumeWrapper`; `none` is the zero time.
pub record Quota : Type 0 where
  pub left : ℕ
  pub next : Option ℕ

pub record Round : Type 0 where
  pub now : ℕ
  pub fetched : Bool

abbrev pub no_quota : Quota
no_quota = record { left = 0; next = none }

-- `next.Before(now)`
abbrev pub is_past : Option ℕ → ℕ → Bool
is_past none now = true
is_past (some t) now = ltb t now

-- The start of a round: a new period, when the last one is over.
unfoldable pub renew : ℕ → ℕ → ℕ → Quota → Quota
renew count period now q =
    if is_past q.next now then record { left = count; next = some (now + period) } else q

-- The rest of a round: the quota, whether a message is served, and the time to sleep until.
unfoldable pub take_one : Round → Quota → Quota × Bool × Option ℕ
take_one r q =
    if ltb 0 q.left
    then if r.fetched
      then (record q { left = q.left - 1 }, true, none)
      else (q, false, some (r.now + 1_000_000_000))
    else (q, false, q.next)

unfoldable pub round : ℕ → ℕ → Quota → Round → Quota × Bool × Option ℕ
round count period q r = take_one r (renew count period r.now q)

-- The number of messages that the rounds serve.
unfoldable pub served_in : ℕ → ℕ → Quota → List Round → ℕ
served_in count period q [] = 0
served_in count period q (r ∷ rounds) =
    let (q', served, sleep) = round count period q r in
    let rest = served_in count period q' rounds in if served then rest + 1 else rest

-- The clock readings of the rounds are from `start` to `stop`.
abbrev pub Within : ℕ → ℕ → List Round → Type 0
Within start stop [] = start ≤ stop
Within start stop (r ∷ rounds) = (start ≤ r.now) × (r.now ≤ stop) × Within start stop rounds

-- No more than the messages left, and `count` for each period that begins after `t`.
abbrev Bounded : ℕ → ℕ → ℕ → ℕ → ℕ → ℕ → Type 0
Bounded count period stop t left served =
    (k : ℕ) × (served ≤ left + k * count) × (t + k * (period + 1) ≤ stop + period)

one_more : (a b : ℕ) → (a + 1) * b ≡ a * b + b
one_more a b = omega arith

later_Bounded :
    (count period stop t now served : ℕ)
    → t < now
    → Bounded count period stop (now + period) count served
    → (left : ℕ) → Bounded count period stop t left served
later_Bounded count period stop t now served lt (k, few, early) left =
    (k + 1, omega (arith, one_more k count), omega (arith, one_more k (period + 1)))

take_one-served :
    (count period stop t : ℕ) (r : Round) (q : Quota) (rest : Quota → ℕ)
    → q.next ≡ some t
    → ((q' : Quota) → q'.next ≡ some t → Bounded count period stop t q'.left (rest q'))
    → let (q', served, sleep) = take_one r q in
      Bounded count period stop t q.left (if served then rest q' + 1 else rest q')
unfolding take_one
take_one-served count period stop t r q rest same bound = elim (Bool-cases (ltb 0 q.left)) [
  | inl more ↦ elim (Bool-cases r.fetched) [
    | inl got ↦
        let (k, few, early) = bound (record q { left = q.left - 1 }) same in
        rw (more, got) (k, ground arith, early)
    | inr none_came ↦ rw (more, none_came) (bound q same)
  ]
  | inr spent ↦ rw spent (bound q same)
]

served_in-Bounded :
    (count period start stop t : ℕ) (q : Quota) (rounds : List Round)
    → q.next ≡ some t
    → t ≤ stop + period
    → Within start stop rounds
    → Bounded count period stop t q.left (served_in count period q rounds)
unfolding served_in round renew
served_in-Bounded count period start stop t q [] same early within = (0, omega arith, omega arith)
served_in-Bounded count period start stop t q (r ∷ rounds) same early within =
    elim (Bool-cases (is_past q.next r.now)) [
      | inl past ↦
          let q' : Quota = record { left = count; next = some (r.now + period) } in
          rw past (
            later_Bounded count period stop t r.now _ (past_lt same past)
              (take_one-served count period stop (r.now + period) r q'
                (λ p. served_in count period p rounds) refl
                (λ p e.
                  served_in-Bounded count period start stop (r.now + period) p rounds e
                    (omega (arith, within.1)) within.2))
              q.left)
      | inr current ↦ rw current (
          take_one-served count period stop t r q (λ p. served_in count period p rounds) same
            (λ p e. served_in-Bounded count period start stop t p rounds e early within.2))
    ]
  where
    past_lt : q.next ≡ some t → is_past q.next r.now ≡ true → t < r.now
    past_lt e p =
        let m : is_past (some t) r.now ≡ true = ap (λ o. is_past o r.now) (sym e) ∙ p in
        ground arith

-- From `start` to `stop`, `consumeWrapper` serves at most `count` messages for each period that
-- begins, and the periods that begin are more than `period` apart.
pub served_in-count :
    (count period start stop : ℕ) (r : Round) (rounds : List Round)
    → Within start stop (r ∷ rounds)
    → (k : ℕ) × (served_in count period no_quota (r ∷ rounds) ≤ (k + 1) * count)
      × (start + k * (period + 1) ≤ stop)
unfolding served_in round renew
served_in-count count period start stop r rounds within =
    let q' : Quota = record { left = count; next = some (r.now + period) } in
    let (k, few, early) =
      take_one-served count period stop (r.now + period) r q' (λ p. served_in count period p rounds)
        refl
        (λ p e.
          served_in-Bounded count period start stop (r.now + period) p rounds e
            (omega (arith, within)) within.2) in
    (k, omega (arith, few, one_more k count), omega (arith, early, within.0))
