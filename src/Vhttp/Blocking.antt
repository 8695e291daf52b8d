-- ===== src/Vhttp/Blocking.antt =====
-- How long vhttp/client.go blocks a client.
use pmesh.Base.{
  ℕ, ◌≡◌, ◌≤◌, refl, ap, true, false, Option, none, some, List, [], ◌∷◌, arith, if_elim,
}
use pmesh.Vhttp.Client.{ClientSession, block_loop, block_until}

-- The times that others store are later and later.
abbrev pub Rising : ℕ → List ℕ → Type 0
Rising bt [] = Unit
Rising bt (d ∷ ds) = (bt ≤ d) × Rising d ds

block_loop_lem :
    (at : ℕ) (others : List ℕ) (bt : ℕ)
    → Rising bt others
    → let r = block_loop at others bt in (at ≤ r.0) × (bt ≤ r.0) × (r.1 ≡ r.0)
unfolding block_loop
block_loop_lem at [] bt h = ground arith
block_loop_lem at (other ∷ others) bt (ho, hs) = ground (arith, block_loop_lem at others other hs)

-- A client that is not local stays blocked at least until the time asked for and until any time that
-- was stored before, against other goroutines that block it too, and the answer is the time in store;
-- a local client is never blocked.
pub block_until_lem :
    (at : ℕ) (others : List ℕ) (s : ClientSession)
    → Rising s.blocked_until_ms others
    → let r = block_until at others s in
      (s.local ≡ true → r ≡ (s, none))
      × (s.local ≡ false
          → (at ≤ r.0.blocked_until_ms)
            × (s.blocked_until_ms ≤ r.0.blocked_until_ms)
            × (r.1 ≡ some (r.0.blocked_until_ms)))
unfolding block_until
block_until_lem at others s h = (
  (λ l. if_elim (λ r. r ≡ (s, none)) s.local (λ l. refl) (λ f. absurd (ground arith))),
  λ f.
      let b = block_loop_lem at others s.blocked_until_ms h in
      if_elim
        (λ (r : ClientSession × Option ℕ).
          (at ≤ r.0.blocked_until_ms)
          × (s.blocked_until_ms ≤ r.0.blocked_until_ms)
          × (r.1 ≡ some (r.0.blocked_until_ms)))
        s.local (λ l. absurd (ground arith)) (λ g. (b.0, b.1, ap some b.2)),
)
