-- ===== src/Lru/Counting.antt =====
-- Runs of calls on the cache of lru/cache.go.
use pmesh.Base.{
  ℕ, suc, ◌+◌, ◌≡◌, refl, ◌∙◌, ap, Bool, true, false, Option, none, some, List, [], ◌∷◌, ◌==◌,
  length, arith, Bool-cases, Option-cases, inl, inr,
}
use pmesh.Base.Int.{ℤ, pos, ◌+ℤ◌}
use pmesh.Lru.{
  Ptr, Cache, change, acquire, bump, release, expired, on_delete, on_insert, cleanup_loop, cleanup,
  load, remove, overwrite, delete, replace_entry, set_entry, get_entry_if, get_entry,
}

-- One call on the cache or on one of its entries.
pub data Call {ℓ} (K : Type ℓ) : Type ℓ where
  call_acquire : Ptr → Call K
  call_release : Ptr → ℤ → Call K
  call_cleanup : ℤ → Call K
  call_delete : K → Call K
  call_replace : K → Ptr → ℤ → Call K
  call_set : K → Ptr → ℤ → Call K
  call_get_if : K → ℤ → Call K
  call_get : Bool → K → Option Ptr → ℤ → Call K

abbrev pub IsCounted {ℓ κ} : {K : Type ℓ} {V : Type κ} → Cache K V → Type 0
IsCounted c = c.item_count ≡ pos (length c.items)

module _ {ℓ} {K : Type ℓ} (same : K → K → Bool) where
  length-remove :
      (k : K) (items : List (K × Ptr)) (p : Ptr)
      → load same k items ≡ some p
      → suc (length (remove same k items)) ≡ length items
  unfolding load remove
  length-remove k [] p h = ground arith
  length-remove k ((j, q) ∷ items) p h = elim (Bool-cases (same j k)) [
    | inl found ↦ rw (found, remove) refl
    | inr other ↦ rw (other, remove) (ap suc (length-remove k items p (ground arith)))
  ]

  length-overwrite_new :
      (k : K) (q : Ptr) (items : List (K × Ptr))
      → load same k items ≡ none
      → length (overwrite same k q items) ≡ suc (length items)
  unfolding load overwrite
  length-overwrite_new k q [] h = refl
  length-overwrite_new k q ((j, p) ∷ items) h = elim (Bool-cases (same j k)) [
    | inl found ↦ ground arith
    | inr other ↦ rw (other, overwrite) (ap suc (length-overwrite_new k q items (ground arith)))
  ]

  length-overwrite_old :
      (k : K) (q : Ptr) (items : List (K × Ptr)) (p : Ptr)
      → load same k items ≡ some p
      → length (overwrite same k q items) ≡ length items
  unfolding load overwrite
  length-overwrite_old k q [] p h = ground arith
  length-overwrite_old k q ((j, r) ∷ items) p h = elim (Bool-cases (same j k)) [
    | inl found ↦ rw (found, overwrite) refl
    | inr other ↦ rw (other, overwrite) (ap suc (length-overwrite_old k q items p (ground arith)))
  ]

module _ {ℓ κ} {K : Type ℓ} {V : Type κ} (same : K → K → Bool) where
  pub perform : Cache K V → Call K → Cache K V
  perform c (call_acquire p) = acquire c p
  perform c (call_release p now) = release c p now
  perform c (call_cleanup threshold) = cleanup c threshold
  perform c (call_delete k) = delete same c k
  perform c (call_replace k p now) = replace_entry same c k p now
  perform c (call_set k p now) = (set_entry same c k p now).0
  perform c (call_get_if k now) = (get_entry_if same c k now).0
  perform c (call_get sf k made now) = (get_entry same c sf k made now).0

  cleanup_loop-count :
      (items : List (K × Ptr)) (n : ℕ) (t : ℤ) (c : Cache K V)
      → c.item_count ≡ pos (n + length items)
      → (cleanup_loop items t c).item_count ≡ pos (n + length (cleanup_loop items t c).items)
  unfolding cleanup_loop on_delete ◌+ℤ◌
  cleanup_loop-count [] n t c h = h
  cleanup_loop-count ((k, p) ∷ rest) n t c h = elim (Bool-cases (expired (c.heap p) t)) [
    | inl found ↦
        rw (found, cleanup_loop)
          (cleanup_loop-count rest n t (on_delete c k (c.heap p).value) (ground arith))
    | inr other ↦
        rw (other, cleanup_loop)
          (cleanup_loop-count rest (n + 1) t c (h ∙ ap pos (omega arith)) ∙ ap pos (omega arith))
  ]

  on_insert-count :
      (c : Cache K V) (n : ℕ) → c.item_count ≡ pos n → (on_insert c).item_count ≡ pos (suc n)
  unfolding on_insert ◌+ℤ◌
  on_insert-count c n h = ground arith

  replace_entry-IsCounted :
      (c : Cache K V) (k : K) (q : Ptr) (now : ℤ)
      → IsCounted c
      → IsCounted (replace_entry same c k q now)
  unfolding replace_entry on_insert bump change ◌+ℤ◌
  replace_entry-IsCounted c k q now h = elim (Option-cases (load same k c.items)) [
    | inl new ↦ rw (new, replace_entry, length-overwrite_new same k q c.items new) (ground arith)
    | inr (p, old) ↦ elim (Bool-cases (p == q)) [
      | inl equal ↦ rw (old, equal, replace_entry, length-overwrite_old same k q c.items p old) h
      | inr other ↦ rw (old, other, replace_entry, length-overwrite_old same k q c.items p old) h
    ]
  ]

  set_entry-IsCounted :
      (c : Cache K V) (k : K) (q : Ptr) (now : ℤ)
      → IsCounted c
      → IsCounted (set_entry same c k q now).0
  unfolding set_entry on_insert bump change ◌+ℤ◌
  set_entry-IsCounted c k q now h = elim (Option-cases (load same k c.items)) [
    | inl new ↦ rw (new, set_entry, length-overwrite_new same k q c.items new) (ground arith)
    | inr (p, old) ↦ rw (old, set_entry) h
  ]

  get_entry-IsCounted :
      (c : Cache K V) (singleflight : Bool) (k : K) (made : Option Ptr) (now : ℤ)
      → IsCounted c
      → IsCounted (get_entry same c singleflight k made now).0
  unfolding get_entry bump change
  get_entry-IsCounted c sf k none now h = elim (Option-cases (load same k c.items)) [
    | inl absent ↦ rw (absent, get_entry) h
    | inr (p, found) ↦ rw (found, get_entry) h
  ]
  get_entry-IsCounted c true k (some q) now h = elim (Option-cases (load same k c.items)) [
    | inl absent ↦ rw (absent, get_entry) (replace_entry-IsCounted c k q now h)
    | inr (p, found) ↦ rw (found, get_entry) h
  ]
  get_entry-IsCounted c false k (some q) now h = elim (Option-cases (load same k c.items)) [
    | inl absent ↦ rw (absent, get_entry) (set_entry-IsCounted c k q now h)
    | inr (p, found) ↦ rw (found, get_entry) h
  ]

  -- Every call keeps the item count at the number of items in the map.
  pub perform-IsCounted : (c : Cache K V) (call : Call K) → IsCounted c → IsCounted (perform c call)
  unfolding perform acquire release bump change cleanup delete get_entry_if get_entry on_delete ◌+ℤ◌
  perform-IsCounted c (call_acquire p) h = h
  perform-IsCounted c (call_release p now) h = h
  perform-IsCounted c (call_cleanup threshold) h =
      cleanup_loop-count c.items 0 threshold c (h ∙ ap pos (omega arith)) ∙ ap pos (omega arith)
  perform-IsCounted c (call_delete k) h = elim (Option-cases (load same k c.items)) [
    | inl absent ↦ rw (absent, perform, delete) h
    | inr (p, found) ↦
        rw (found, perform, delete) (ground (arith, length-remove same k c.items p found))
  ]
  perform-IsCounted c (call_replace k p now) h = replace_entry-IsCounted c k p now h
  perform-IsCounted c (call_set k p now) h = set_entry-IsCounted c k p now h
  perform-IsCounted c (call_get_if k now) h = elim (Option-cases (load same k c.items)) [
    | inl absent ↦ rw (absent, perform, get_entry_if) h
    | inr (p, found) ↦ rw (found, perform, get_entry_if) h
  ]
  perform-IsCounted c (call_get sf k made now) h = get_entry-IsCounted c sf k made now h
