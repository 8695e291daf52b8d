-- ===== src/Lru.antt =====
-- lru/cache.go, one call at a time. Entries are pointers into a heap, since callers keep them. `same`
-- is the equality of the comparable key type. The sync.Map is a list of its items in the order in
-- which Range meets them. `evicted` lists the calls of `Evict`; the ticker that calls `Cleanup` is
-- left out. Clock readings are in milliseconds.
pub mod Counting
mod Tests
use pmesh.Base.{
  ℕ, ◌+◌, Bool, true, false, not, ◌&&◌, Option, none, some, List, [], ◌∷◌, ◌++◌, ◌==◌,
  if◌then◌else◌,
}
use pmesh.Base.Int.{ℤ, pos, negsuc, ◌+ℤ◌, ltb_ℤ, leb_ℤ}

pub record Entry {ℓ} (V : Type ℓ) : Type ℓ where
  pub value : V
  pub last_use : ℤ
  pub acquired : ℤ

abbrev pub Ptr : Type 0
Ptr = ℕ

pub record Cache {ℓ κ} (K : Type ℓ) (V : Type κ) : Type (ℓ ⊔ κ) where
  pub items : List (K × Ptr)
  pub heap : Ptr → Entry V
  pub item_count : ℤ
  pub evicted : List (K × V)

module _ {κ} {V : Type κ} where
  -- `Entry.Expired`
  unfoldable pub expired : Entry V → ℤ → Bool
  expired e threshold =
      if leb_ℤ e.acquired (pos 0) && leb_ℤ (pos 0) e.acquired
      then ltb_ℤ e.last_use threshold
      else false

module _ {ℓ κ} {K : Type ℓ} {V : Type κ} where
  unfoldable pub change : Cache K V → Ptr → (Entry V → Entry V) → Cache K V
  change c p f = record c { heap = λ q. if q == p then f (c.heap p) else c.heap q }

  -- `Entry.Acquire`, `Entry.Bump` and `Entry.Release`
  unfoldable pub acquire : Cache K V → Ptr → Cache K V
  acquire c p = change c p (λ e. record e { acquired = e.acquired +ℤ pos 1 })

  unfoldable pub bump : Cache K V → Ptr → ℤ → Cache K V
  bump c p now = change c p (λ e. record e { last_use = now })

  unfoldable pub release : Cache K V → Ptr → ℤ → Cache K V
  release c p now = change (bump c p now) p (λ e. record e { acquired = e.acquired +ℤ negsuc 0 })

  -- `onDelete`, with an `Evict` set, and `onInsert`
  unfoldable pub on_delete : Cache K V → K → V → Cache K V
  on_delete c k v = record c {
    item_count = c.item_count +ℤ negsuc 0;
    evicted = c.evicted ++ (k, v) ∷ [];
  }

  unfoldable pub on_insert : Cache K V → Cache K V
  on_insert c = record c { item_count = c.item_count +ℤ pos 1 }

  -- `Cleanup` over the items that are left.
  unfoldable pub cleanup_loop : List (K × Ptr) → ℤ → Cache K V → Cache K V
  cleanup_loop [] threshold c = record c { items = [] }
  cleanup_loop ((k, p) ∷ rest) threshold c = elim (expired (c.heap p) threshold) [
    | true ↦ cleanup_loop rest threshold (on_delete c k (c.heap p).value)
    | false ↦ let d = cleanup_loop rest threshold c in record d { items = (k, p) ∷ d.items }
  ]

  unfoldable pub cleanup : Cache K V → ℤ → Cache K V
  cleanup c threshold = cleanup_loop c.items threshold c

module _ {ℓ} {K : Type ℓ} (same : K → K → Bool) where
  unfoldable pub load : K → List (K × Ptr) → Option Ptr
  load k [] = none
  load k ((j, p) ∷ items) = if same j k then some p else load k items

  unfoldable pub remove : K → List (K × Ptr) → List (K × Ptr)
  remove k [] = []
  remove k ((j, p) ∷ items) = if same j k then items else (j, p) ∷ remove k items

  unfoldable pub overwrite : K → Ptr → List (K × Ptr) → List (K × Ptr)
  overwrite k q [] = (k, q) ∷ []
  overwrite k q ((j, p) ∷ items) = if same j k then (j, q) ∷ items else (j, p) ∷ overwrite k q items

module _ {ℓ κ} {K : Type ℓ} {V : Type κ} (same : K → K → Bool) where
  -- `Delete`
  unfoldable pub delete : Cache K V → K → Cache K V
  delete c k = elim (load same k c.items) [
    | none ↦ c
    | some p ↦ on_delete (record c { items = remove same k c.items }) k (c.heap p).value
  ]

  -- `ReplaceEntry`
  unfoldable pub replace_entry : Cache K V → K → Ptr → ℤ → Cache K V
  replace_entry c k q now =
      let d = bump c q now in
      let stored = record d { items = overwrite same k q c.items } in
      elim (load same k c.items) [
        | none ↦ on_insert stored
        | some p ↦
            if p == q
            then stored
            else record stored { evicted = d.evicted ++ (k, (d.heap p).value) ∷ [] }
      ]

  -- `SetEntry`: the entry that is there in the end, and whether it is the new one.
  unfoldable pub set_entry : Cache K V → K → Ptr → ℤ → Cache K V × Ptr × Bool
  set_entry c k q now =
      let d = bump c q now in
      elim (load same k c.items) [
        | none ↦ (on_insert (record d { items = overwrite same k q c.items }), q, true)
        | some p ↦ (d, p, false)
      ]

  -- `GetEntryIf`
  unfoldable pub get_entry_if : Cache K V → K → ℤ → Cache K V × Option Ptr
  get_entry_if c k now = elim (load same k c.items) [
    | none ↦ (c, none)
    | some p ↦ (bump c p now, some p)
  ]

  -- `GetEntry`: `made` is the new entry that `New` fills, or `none` where it fails or is not set. With
  -- `Singleflight` the second look under the lock finds what the first one did.
  unfoldable pub get_entry : Cache K V → Bool → K → Option Ptr → ℤ → Cache K V × Option Ptr
  unfolding set_entry replace_entry
  get_entry c singleflight k made now = elim (load same k c.items) [
    | some p ↦ (bump c p now, some p)
    | none ↦ elim made [
      | none ↦ (c, none)
      | some q ↦
          if singleflight
          then (replace_entry c k q now, some q)
          else (let (d, p, ok) = set_entry c k q now in (d, some p))
    ]
  ]
