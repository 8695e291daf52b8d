-- ===== src/Pmtp/Pool.antt =====
-- pmtp/pool_mux.go: the pool of clients. A client is named by a number; `Busy` of each client, and what
-- `Connect` returns, are arguments of a call.
use pmesh.Base.{
  ℕ, Bool, true, false, not, ◌&&◌, Option, none, some, List, [], ◌∷◌, ◌++◌, ltb, ◌==◌,
  if◌then◌else◌, length,
}

-- The number of pending requests; closed is -1.
pub data Busy : Type 0 where
  closed_ : Busy
  pending : ℕ → Busy

pub record PoolMux : Type 0 where
  pub closed : Bool
  pub yamux : Bool
  pub conns : List (Option ℕ)
  pub shared : Option ℕ
  pub queue : List ℕ

pub data PoolError : Type 0 where
  closed_pipe connect_failed : PoolError

-- What `Acquire` returns. `panicked` is the write through a nil pointer.
pub data Acquired : Type 0 where
  client : ℕ → Bool → Acquired
  failed : PoolError → Acquired
  panicked : Acquired

abbrev pub is_live : Busy → Bool
is_live closed_ = false
is_live (pending n) = true

abbrev pub is_idle : Busy → Bool
is_idle closed_ = false
is_idle (pending n) = n == 0

-- The outcome of the loop over the slots of `getUniqueClient`.
pub data Scan : Type 0 where
  found : ℕ → Scan
  broken full : Scan

-- A new connection in a slot.
abbrev pub connect_slot : Option ℕ → List (Option ℕ) → List (Option ℕ) × Scan
connect_slot none cs = (none ∷ cs, broken)
connect_slot (some c) cs = (some c ∷ cs, found c)

-- The least busy client seen so far, with the number of its requests.
abbrev pub Best : Type 0
Best = Option (ℕ × ℕ)

module _ (busy : ℕ → Busy) where
  -- The receives from the queue: closed clients are dropped.
  unfoldable pub take_queue : List ℕ → List ℕ × Option ℕ
  take_queue [] = ([], none)
  take_queue (c ∷ q) = let rest = take_queue q in if is_live (busy c) then (q, some c) else rest

  unfoldable pub scan : Option ℕ → List (Option ℕ) → List (Option ℕ) × Scan
  scan fresh [] = ([], full)
  scan fresh (none ∷ cs) = connect_slot fresh cs
  scan fresh (some c ∷ cs) =
      let rest = scan fresh cs in
      if is_idle (busy c)
      then (some c ∷ cs, found c)
      else if not (is_live (busy c))
      then connect_slot fresh cs
      else (some c ∷ rest.0, rest.1)

  abbrev pub better : Best → ℕ → Busy → Best
  better best c closed_ = best
  better none c (pending n) = some (c, n)
  better (some (b, m)) c (pending n) = if ltb n m then some (c, n) else some (b, m)

  -- The loop of `getSharedClient`: the slots without the closed clients, and the least busy client.
  unfoldable pub share : Best → List (Option ℕ) → List (Option ℕ) × Best
  share best [] = ([], best)
  share best (none ∷ cs) = let rest = share best cs in (none ∷ rest.0, rest.1)
  share best (some c ∷ cs) =
      let rest = share (better best c (busy c)) cs in
      ((if is_live (busy c) then some c else none) ∷ rest.0, rest.1)

  -- `*firstNull = cli`; none is a nil pointer.
  unfoldable pub fill : Option ℕ → List (Option ℕ) → Option (List (Option ℕ))
  fill fresh [] = none
  fill fresh (none ∷ cs) = some (fresh ∷ cs)
  fill fresh (some c ∷ cs) = elim (fill fresh cs) [ none ↦ none | some rest ↦ some (some c ∷ rest) ]

  abbrev answer : Option ℕ → Bool → Acquired
  answer none unique = failed connect_failed
  answer (some c) unique = client c unique

  abbrev filled : PoolMux → Option ℕ → Option (List (Option ℕ)) → PoolMux × Acquired
  filled p fresh none = (p, panicked)
  filled p fresh (some cs) = (record p { conns = cs }, answer fresh true)

  abbrev pub choose_shared : PoolMux → Option ℕ → List (Option ℕ) × Best → PoolMux × Acquired
  choose_shared p fresh (cs, some (c, n)) = (record p { conns = cs }, client c false)
  choose_shared p fresh (cs, none) = filled (record p { conns = cs }) fresh (fill fresh cs)

  abbrev live_shared : Option ℕ → Bool
  live_shared none = false
  live_shared (some c) = is_live (busy c)

  -- `getSharedClient`
  unfoldable pub get_shared : Option ℕ → PoolMux → PoolMux × Acquired
  get_shared fresh p =
      if p.yamux
      then if live_shared p.shared
        then (p, answer p.shared false)
        else (record p { shared = fresh }, answer fresh false)
      else choose_shared p fresh (share none p.conns)

  abbrev pub after_scan : Option ℕ → PoolMux → List (Option ℕ) × Scan → PoolMux × Acquired
  after_scan fresh p (cs, found c) = (record p { conns = cs }, client c true)
  after_scan fresh p (cs, broken) = (record p { conns = cs }, failed connect_failed)
  after_scan fresh p (cs, full) = get_shared fresh (record p { conns = cs })

  abbrev pub after_queue : Option ℕ → PoolMux → List ℕ × Option ℕ → PoolMux × Acquired
  after_queue fresh p (q, some c) = (record p { queue = q }, client c true)
  after_queue fresh p (q, none) = after_scan fresh (record p { queue = q }) (scan fresh p.conns)

  -- `Acquire`, with what `Connect` returns if it is called.
  unfoldable pub acquire : Option ℕ → PoolMux → PoolMux × Acquired
  acquire fresh p =
      if p.closed then (p, failed closed_pipe) else after_queue fresh p (take_queue p.queue)

  -- `Release`: the queue holds as many clients as there are slots.
  unfoldable pub release : ℕ → Bool → PoolMux → PoolMux
  release c unique p =
      if unique && is_live (busy c) && ltb (length p.queue) (length p.conns)
      then record p { queue = p.queue ++ c ∷ [] }
      else p
