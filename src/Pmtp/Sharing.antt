-- ===== src/Pmtp/Sharing.antt =====
-- Which clients the pool of pmtp/pool_mux.go hands out.
use pmesh.Base.{
  ℕ, ◌<◌, ◌≡◌, refl, ap, ◌∙◌, Bool, true, false, Option, none, some, List, [], ◌∷◌, arith, length,
  Bool-cases, inl, inr, if_elim, ltb,
}
use pmesh.Pmtp.Pool.{
  Busy, closed_, pending, PoolMux, Acquired, client, failed, panicked, is_live, is_idle, Scan,
  found, broken, full, Best, better, take_queue, scan, share, get_shared, choose_shared, after_scan,
  after_queue, acquire,
}

-- An open pool with a client in its first slot and none in its queue.
abbrev pub idle_pool : Option ℕ → Bool → ℕ → List (Option ℕ) → PoolMux
idle_pool shared yamux c cs = record {
  closed = false;
  yamux = yamux;
  conns = some c ∷ cs;
  shared = shared;
  queue = [];
}

module _ (busy : ℕ → Busy) where
  -- A client that is not closed was acquired.
  abbrev pub is_served : Acquired → Bool
  is_served (client c unique) = is_live (busy c)
  is_served (failed e) = false
  is_served panicked = false

  abbrev queue_ok : Option ℕ → Bool
  queue_ok none = true
  queue_ok (some c) = is_live (busy c)

  abbrev scan_ok : Scan → Bool
  scan_ok (found c) = is_live (busy c)
  scan_ok broken = false
  scan_ok full = true

  abbrev best_ok : Best → Bool
  best_ok none = false
  best_ok (some (c, n)) = is_live (busy c)

  queue_ok-take_queue : (q : List ℕ) → queue_ok (take_queue busy q).1 ≡ true
  unfolding take_queue
  queue_ok-take_queue [] = refl
  queue_ok-take_queue (c ∷ q) = ground (arith, queue_ok-take_queue q)

  idle_live : (b : Busy) → is_idle b ≡ true → is_live b ≡ true
  idle_live closed_ h = h
  idle_live (pending n) h = refl

  scan_ok-scan :
      (f : ℕ) (cs : List (Option ℕ))
      → is_live (busy f) ≡ true
      → scan_ok (scan busy (some f) cs).1 ≡ true
  unfolding scan
  scan_ok-scan f [] h = refl
  scan_ok-scan f (none ∷ cs) h = h
  scan_ok-scan f (some c ∷ cs) h = ground (arith, scan_ok-scan f cs h, idle_live (busy c))

  best_ok-better :
      (best : Best) (c : ℕ) (b : Busy)
      → busy c ≡ b
      → best_ok best ≡ true
      → best_ok (better busy best c b) ≡ true
  best_ok-better best c closed_ e h = h
  best_ok-better none c (pending n) e h = ap is_live e
  best_ok-better (some (x, m)) c (pending n) e h =
      if_elim (λ o. best_ok o ≡ true) (ltb n m) (λ less. ap is_live e) (λ more. h)

  best_ok-better_first :
      (c : ℕ) (b : Busy) → busy c ≡ b → is_live b ≡ true → best_ok (better busy none c b) ≡ true
  best_ok-better_first c closed_ e h = absurd (ground arith)
  best_ok-better_first c (pending n) e h = ap is_live e

  best_ok-share :
      (best : Best) (cs : List (Option ℕ))
      → best_ok best ≡ true
      → best_ok (share busy best cs).1 ≡ true
  unfolding share
  best_ok-share best [] h = h
  best_ok-share best (none ∷ cs) h = best_ok-share best cs h
  best_ok-share best (some c ∷ cs) h =
      best_ok-share (better busy best c (busy c)) cs (best_ok-better best c (busy c) refl h)

  -- Where every slot is busy, the loop for a shared client finds one.
  best_ok-share-full :
      (f : ℕ) (cs : List (Option ℕ))
      → 0 < length cs
      → (scan busy (some f) cs).1 ≡ full
      → best_ok (share busy none (scan busy (some f) cs).0).1 ≡ true
  unfolding scan share
  best_ok-share-full f [] l h = ground arith
  best_ok-share-full f (none ∷ cs) l h = ground arith
  best_ok-share-full f (some c ∷ cs) l h = elim (Bool-cases (is_idle (busy c))) [
    | inl idle ↦ absurd (ground arith)
    | inr waits ↦ elim (Bool-cases (is_live (busy c))) [
      | inl live ↦ rw waits (
          rw live (
            best_ok-share (better busy none c (busy c)) (scan busy (some f) cs).0
              (best_ok-better_first c (busy c) refl live)))
      | inr dead ↦ absurd (ground arith)
    ]
  ]

  is_served-choose_shared :
      (p : PoolMux) (fresh : Option ℕ) (r : List (Option ℕ) × Best)
      → best_ok r.1 ≡ true
      → is_served (choose_shared busy p fresh r).1 ≡ true
  is_served-choose_shared p fresh (cs, none) h = absurd (ground arith)
  is_served-choose_shared p fresh (cs, some (c, n)) h = h

  is_served-after_scan :
      (f : ℕ) (p : PoolMux) (r : List (Option ℕ) × Scan)
      → p.yamux ≡ false
      → scan_ok r.1 ≡ true
      → (r.1 ≡ full → best_ok (share busy none r.0).1 ≡ true)
      → is_served (after_scan busy (some f) p r).1 ≡ true
  unfolding get_shared
  is_served-after_scan f p (cs, found c) y ok h = ok
  is_served-after_scan f p (cs, broken) y ok h = absurd (ground arith)
  is_served-after_scan f p (cs, full) y ok h =
      if_elim (λ (a : PoolMux × Acquired). is_served a.1 ≡ true) p.yamux
        (λ muxed. absurd (ground arith))
        (λ plain.
          is_served-choose_shared (record p { conns = cs }) (some f) (share busy none cs) (h refl))

  is_served-after_queue :
      (f : ℕ) (p : PoolMux) (r : List ℕ × Option ℕ)
      → p.yamux ≡ false
      → 0 < length p.conns
      → is_live (busy f) ≡ true
      → queue_ok r.1 ≡ true
      → is_served (after_queue busy (some f) p r).1 ≡ true
  is_served-after_queue f p (q, some c) y l h ok = ok
  is_served-after_queue f p (q, none) y l h ok =
      is_served-after_scan f (record p { queue = q }) (scan busy (some f) p.conns) y
        (scan_ok-scan f p.conns h) (best_ok-share-full f p.conns l)

  -- An open pool with at least one slot hands out a client that is not closed, where a new connection
  -- can be made and is open; it does not panic. This is for codes without multiplexing.
  pub acquire_served :
      (f : ℕ) (p : PoolMux)
      → p.closed ≡ false
      → p.yamux ≡ false
      → 0 < length p.conns
      → is_live (busy f) ≡ true
      → is_served (acquire busy (some f) p).1 ≡ true
  unfolding acquire
  acquire_served f p open_ y l h =
      if_elim (λ (a : PoolMux × Acquired). is_served a.1 ≡ true) p.closed
        (λ shut. absurd (ground arith))
        (λ up.
          is_served-after_queue f p (take_queue busy p.queue) y l h (queue_ok-take_queue p.queue))

  scan_idle :
      (fresh : Option ℕ) (c : ℕ) (cs : List (Option ℕ))
      → is_idle (busy c) ≡ true
      → scan busy fresh (some c ∷ cs) ≡ (some c ∷ cs, found c)
  unfolding scan
  scan_idle fresh c cs h = rw h refl

  -- With nothing in its queue, a pool whose first client is idle hands that client out as unique, and
  -- hands it out as unique again to whoever asks before the first caller has begun its call.
  pub acquire_twice :
      (fresh : Option ℕ) (c : ℕ) (cs : List (Option ℕ)) (shared : Option ℕ) (yamux : Bool)
      → is_idle (busy c) ≡ true
      → let first = acquire busy fresh (idle_pool shared yamux c cs) in
        (first.1 ≡ client c true) × ((acquire busy fresh first.0).1 ≡ client c true)
  unfolding acquire take_queue
  acquire_twice fresh c cs shared yamux h =
      let e = scan_idle fresh c cs h in
      let p = idle_pool shared yamux c cs in
      let first : acquire busy fresh p ≡ (p, client c true) = ap (after_scan busy fresh p) e in
      (ap (λ r. r.1) first, ap (λ r. (acquire busy fresh r.0).1) first ∙ ap (λ r. r.1) first)
