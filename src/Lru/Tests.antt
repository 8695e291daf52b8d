-- ===== src/Lru/Tests.antt =====
-- A run of the cache of lru/cache.go.
use pmesh.Base.{ℕ, refl, [], ◌∷◌, ◌==◌, if◌then◌else◌}
use pmesh.Base.Int.{pos}
use pmesh.Lru.{Cache}
use pmesh.Lru.Counting.{call_cleanup, IsCounted, perform, perform-IsCounted}

-- Two items, of which the cleanup drops the second.
abbrev cache : Cache ℕ ℕ
cache = record {
  items = (7, 0) ∷ (8, 1) ∷ [];
  heap = λ p. record { value = p; last_use = if p == 0 then pos 90 else pos 10; acquired = pos 0 };
  item_count = pos 2;
  evicted = [];
}

perform-IsCounted_example : IsCounted (perform ◌==◌ cache (call_cleanup (pos 50)))
perform-IsCounted_example = perform-IsCounted ◌==◌ cache (call_cleanup (pos 50)) refl
