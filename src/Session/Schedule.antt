-- ===== src/Session/Schedule.antt =====
-- session/runner.go: `ScheduledRunner.Run` on many nodes that share the entry of a schedule in the
-- key-value store of NATS, which is a parameter. The rounds of the nodes are cut at their calls of the
-- store, and the steps of the nodes come in any order. Times are nanoseconds; the entry holds
-- milliseconds. How long a node sleeps decides only when its next step comes.
use pmesh.Base.{
  ℕ, ◌+◌, ◌*◌, ◌/◌, ◌<◌, ◌≡◌, ◌⊎◌, Bool, true, false, Option, none, some, List, [], ◌∷◌, ◌==◌, ltb,
  if◌then◌else◌,
}

-- jetstream.KeyValueEntry; the value is `none` where it has not the 8 bytes of a time.
pub record Entry : Type 0 where
  pub value : Option ℕ
  pub revision : ℕ
  pub created : ℕ

-- jetstream.KeyValue at one key. `Update` gives no error only if the revision is the one of the entry,
-- and then the entry has the value and a larger revision; an error may come where the store stays as it
-- is and where the write was made. `Create` makes an entry where there is none, or changes nothing.
pub record KeyValue (K : Type 0) : Type 0 where
  pub get : K → Option Entry
  pub create : K → K
  pub update : K → ℕ → ℕ → K × Bool
  pub create_law :
      (k : K)
      → (create k ≡ k)
        ⊎ ((get k ≡ none) × ((e : Entry) × (get (create k) ≡ some e) × (e.value ≡ none)))
  pub update_law :
      (k : K) (v r : ℕ)
      → (update k v r ≡ (k, false))
        ⊎ ((e d : Entry) × (get k ≡ some e)
            × (e.revision ≡ r)
            × (get (update k v r).0 ≡ some d)
            × (d.value ≡ some v)
            × (r < d.revision))

abbrev pub millisecond : ℕ
millisecond = 1_000_000

-- The time of `load`: the value, or when the entry was made.
unfoldable pub next_run : Entry → ℕ
next_run e = elim e.value [ none ↦ e.created | some v ↦ v * millisecond ]

-- Where a node stands in its round.
pub data Pc : Type 0 where
  asleep : Pc
  due : (revision now : ℕ) → Pc  -- before `xchg(nextRun, revision)`
  failed : (revision now : ℕ) → Pc  -- before `xchg(now, revision+1)`

-- The store, the nodes, and the clock readings of the rounds that published, the last one first.
pub record System (K : Type 0) : Type 0 where
  pub kv : K
  pub pc : ℕ → Pc
  pub published : List ℕ

pub data Event : Type 0 where
  load : (i now : ℕ) → Event
  exchange : (i : ℕ) (publishes : Bool) → Event  -- `xchg` and, if it has no error, `Publish`
  reset : (i : ℕ) → Event

abbrev pub moved : (ℕ → Pc) → ℕ → Pc → ℕ → Pc
moved pc i p j = if j == i then p else pc j

-- The decision of a round behind `load`.
abbrev pub decide_due : Option Entry → ℕ → Pc
decide_due none now = asleep
decide_due (some e) now = if ltb (next_run e) now then due e.revision now else asleep

module _ (K : Type 0) (store : KeyValue K) (interval : ℕ) where
  -- `load`: the store behind its calls of `Get` and `Create`.
  unfoldable pub loaded : Option Entry → K → K
  loaded none k = store.create k
  loaded (some e) k = k

  -- `xchg`
  abbrev pub xchg : K → ℕ → ℕ → K × Bool
  xchg k next revision = store.update k (next / millisecond) revision

  -- Behind `xchg`, with the store and whether it gave no error.
  unfoldable pub exchanged : System K → ℕ → Bool → ℕ → ℕ → K → Bool → System K
  exchanged s i publishes revision now k false = record s { kv = k; pc = moved s.pc i asleep }
  exchanged s i true revision now k true = record {
    kv = k;
    pc = moved s.pc i asleep;
    published = now ∷ s.published;
  }
  exchanged s i false revision now k true = record s {
    kv = k;
    pc = moved s.pc i (failed (revision + 1) now);
  }

  unfoldable pub exchange_at : System K → ℕ → Bool → Pc → System K
  exchange_at s i publishes (due revision now) =
      let (k, won) = xchg s.kv (now + interval) revision in
      exchanged s i publishes revision now k won
  exchange_at s i publishes _ = s

  unfoldable pub reset_at : System K → ℕ → Pc → System K
  reset_at s i (failed revision now) = record s {
    kv = (xchg s.kv now revision).0;
    pc = moved s.pc i asleep;
  }
  reset_at s i _ = s

  unfoldable pub advance : Event → System K → System K
  advance (load i now) s =
      let k = loaded (store.get s.kv) s.kv in
      record s { kv = k; pc = moved s.pc i (decide_due (store.get k) now) }
  advance (exchange i publishes) s = exchange_at s i publishes (s.pc i)
  advance (reset i) s = reset_at s i (s.pc i)

  unfoldable pub advance_all : List Event → System K → System K
  advance_all [] s = s
  advance_all (e ∷ events) s = advance_all events (advance e s)

-- No node has begun a round.
abbrev pub initial_system : {K : Type 0} → K → System K
initial_system k = record { kv = k; pc = λ _. asleep; published = [] }
