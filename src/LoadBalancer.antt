-- ===== src/LoadBalancer.antt =====
-- lb/lb.go, lb/upstream.go and lb/options.go. An upstream is a pointer, a number here, into a heap
-- that holds its health, load and metrics. uint32 counters wrap. What `math/rand` and the session
-- give is an argument.
pub mod Choice
pub mod Least
pub mod Fairness
pub mod Sticky
pub mod Response
pub mod Serving
mod Tests
use pmesh.Base.{
  ℕ, zero, suc, ◌+◌, ◌-◌, ◌%◌, ◌^◌, Bool, true, false, not, ◌&&◌, ◌||◌, Option, none, some, List,
  [], ◌∷◌, ◌++◌, ◌==◌, ltb, leb, if◌then◌else◌, length,
}

abbrev pub u32 : ℕ → ℕ
u32 n = n % 2 ^ 32

pub data Strategy : Type 0 where
  least_conn random hash round_robin : Strategy

pub data StateType : Type 0 where
  sticky none_state : StateType

pub record Upstream : Type 0 where
  pub healthy : Bool
  pub load_factor : ℕ
  pub request_count : ℕ
  pub error_count : ℕ
  pub server_error_count : ℕ
  pub client_error_count : ℕ

abbrev pub Ptr : Type 0
Ptr = ℕ

abbrev pub Heap : Type 0
Heap = Ptr → Upstream

pub record LoadBalancer : Type 0 where
  pub strategy : Strategy
  pub state : StateType
  pub upstreams : List Ptr
  pub counter : ℕ

pub record Session : Type 0 where
  pub local : Bool
  pub ip_hash : ℕ
  -- The value stored for this balancer in `Values`, a sync.Map: absent, or a pointer that may be nil.
  pub value : Option (Option Ptr)

-- The request context: the upstream of the last attempt (`bad`, if there was one), and the session.
pub record Context : Type 0 where
  pub upstream : Option Ptr
  pub session : Session

abbrev pub is_ptr : Option Ptr → Ptr → Bool
is_ptr none u = false
is_ptr (some b) u = b == u

unfoldable pub add_upstream : LoadBalancer → Ptr → LoadBalancer
add_upstream lb u = record lb { upstreams = lb.upstreams ++ u ∷ [] }

-- `lo.Without`
unfoldable pub without : Ptr → List Ptr → List Ptr
without u [] = []
without u (v ∷ vs) = if v == u then without u vs else v ∷ without u vs

unfoldable pub remove_upstream : LoadBalancer → Ptr → LoadBalancer
remove_upstream lb u = record lb { upstreams = without u lb.upstreams }

unfoldable pub clear_upstreams : LoadBalancer → LoadBalancer
clear_upstreams lb = record lb { upstreams = [] }

-- `LoadBalancer.Healthy`
unfoldable pub any_healthy : Heap → List Ptr → Bool
any_healthy h [] = false
any_healthy h (u ∷ us) = (h u).healthy || any_healthy h us

-- The loop of `getHealthyIdxLocked`; `res` is the last candidate met.
unfoldable pub healthy_idx_loop : Heap → Option Ptr → List Ptr → ℕ → Option Ptr → Option Ptr
healthy_idx_loop h bad [] n res = res
healthy_idx_loop h bad (u ∷ us) n res =
    let skip = healthy_idx_loop h bad us n res in
    let more = healthy_idx_loop h bad us (n - 1) (some u) in
    if not (h u).healthy
    then skip
    else if is_ptr bad u
    then skip
    else if n == 0
    then some u
    else more

unfoldable pub get_healthy_idx : Heap → List Ptr → ℕ → Option Ptr → Option Ptr
get_healthy_idx h us n bad = elim (healthy_idx_loop h bad us n none) [
  | none ↦ bad
  | some u ↦ some u
]

-- The least-connections loop over the upstreams behind the first.
unfoldable pub least_loop : Heap → List Ptr → Ptr → ℕ → Ptr
least_loop h [] result best = result
least_loop h (u ∷ us) result best =
    let conns = (h u).load_factor in
    let skip = least_loop h us result best in
    let take_it = least_loop h us u conns in
    if not (h u).healthy then skip else if ltb conns best then take_it else skip

-- The count of the healthy upstreams, and the first of them.
unfoldable pub count_healthy : Heap → List Ptr → ℕ
count_healthy h [] = 0
count_healthy h (u ∷ us) = let n = count_healthy h us in if (h u).healthy then suc n else n

unfoldable pub first_healthy : Heap → List Ptr → Option Ptr
first_healthy h [] = none
first_healthy h (u ∷ us) = if (h u).healthy then some u else first_healthy h us

-- `strat` and `entropy`, and the counter after them.
abbrev strategy_of : LoadBalancer → Context → Strategy
strategy_of lb ctx = elim ctx.upstream [ none ↦ lb.strategy | some b ↦ random ]

unfoldable pub entropy : LoadBalancer → Context → ℕ → ℕ × ℕ
entropy lb ctx rand = elim (strategy_of lb ctx) [
  | least_conn ↦ (0, lb.counter)
  | random ↦ (rand, lb.counter)
  | hash ↦
      if ctx.session.local
      then (u32 (lb.counter + 1), u32 (lb.counter + 1))
      else (ctx.session.ip_hash, lb.counter)
  | round_robin ↦ (u32 (lb.counter + 1), u32 (lb.counter + 1))
]

abbrev is_least : Strategy → Bool
is_least least_conn = true
is_least random = false
is_least hash = false
is_least round_robin = false

unfoldable pub select : Heap → Strategy → ℕ → Option Ptr → List Ptr → Option Ptr
select h strat n bad [] = none
select h strat n bad (u ∷ []) = some u
select h strat n bad (u ∷ v ∷ us) =
    if is_least strat
    then some (least_loop h (v ∷ us) u (if (h u).healthy then (h u).load_factor else 0x7fffffff))
    else (let healthy_n = count_healthy h (u ∷ v ∷ us) in
        if leb healthy_n 1
        then first_healthy h (u ∷ v ∷ us)
        else get_healthy_idx h (u ∷ v ∷ us) (n % healthy_n) bad)

-- `NextUpstream`; its error is always nil.
unfoldable pub next_upstream : Heap → LoadBalancer → Context → ℕ → LoadBalancer × Option Ptr
unfolding entropy
next_upstream h lb ctx rand =
    let (n, counter) = entropy lb ctx rand in
    (record lb { counter = counter }, select h (strategy_of lb ctx) n ctx.upstream lb.upstreams)

-- `stickyLoad`: nil where there is no value.
unfoldable pub sticky_load : Session → Option Ptr
sticky_load s = elim s.value [ none ↦ none | some p ↦ p ]

abbrev same_ptr : Option Ptr → Option Ptr → Bool
same_ptr none none = true
same_ptr (some a) (some b) = a == b
same_ptr _ _ = false

-- `stickyCompareAndSwap`: sync.Map.CompareAndSwap stores only over a value that is there.
unfoldable pub sticky_cas : Session → Option Ptr → Option Ptr → Session
sticky_cas s old new = elim s.value [
  | none ↦ s
  | some p ↦ if same_ptr p old then record s { value = some new } else s
]

pub data PickError : Type 0 where
  no_healthy_upstreams : PickError

pub data Pick : Type 0 where
  picked : Ptr → Pick
  pick_failed : PickError → Pick

-- The deferred check of `PickUpstream`.
abbrev pub to_pick : Option Ptr → Pick
to_pick none = pick_failed no_healthy_upstreams
to_pick (some u) = picked u

abbrev is_sticky : StateType → Bool
is_sticky sticky = true
is_sticky none_state = false

-- `PickUpstream` behind the sticky load.
unfoldable pub pick_fresh :
    Heap → LoadBalancer → Context → Session → ℕ → LoadBalancer × Session × Pick
pick_fresh h lb ctx s rand =
    let (lb', result) = next_upstream h lb ctx rand in
    elim result [
      | none ↦ (lb', s, to_pick none)
      | some u ↦ (lb', sticky_cas s none (some u), to_pick (some u))
    ]

-- `PickUpstream`
unfoldable pub pick_upstream : Heap → LoadBalancer → Context → ℕ → LoadBalancer × Session × Pick
unfolding pick_fresh
pick_upstream h lb ctx rand =
    if is_sticky lb.state
    then (elim (sticky_load ctx.session) [
      | none ↦ pick_fresh h lb ctx ctx.session rand
      | some u ↦
          if not (is_ptr ctx.upstream u) && (h u).healthy
          then (lb, ctx.session, to_pick (some u))
          else pick_fresh h lb ctx (sticky_cas ctx.session (some u) none) rand
    ])
    else (let (lb', result) = next_upstream h lb ctx rand in (lb', ctx.session, to_pick result))
