-- ===== src/Session/Turns.antt =====
-- When the nodes of session/runner.go that share a schedule publish its message.
use pmesh.Base.{
  ℕ, ◌+◌, ◌/◌, ◌<◌, ◌≡◌, refl, ◌∙◌, ap, ◌⊎◌, inl, inr, Bool, true, false, Option, none, some, List,
  [], ◌∷◌, ◌==◌, ltb, ltb→lt, if_elim, arith,
}
use pmesh.Session.Schedule.{
  Entry, KeyValue, millisecond, next_run, Pc, asleep, due, failed, System, Event, load, exchange,
  reset, moved, decide_due, loaded, exchanged, exchange_at, reset_at, advance, advance_all,
  initial_system,
}
use pmesh.Session.Holding.{
  IsSpaced, Kept, Holds, Holds-newer, entry_revision, due-IsSpaced, Kept-ready,
}

module _ (K : Type 0) (store : KeyValue K) (interval : ℕ) where
  record IsOrderly (s : System K) : Type 0 where
    spaced : IsSpaced interval s.published
    kept : Kept interval (store.get s.kv) s.published
    holds : (i : ℕ) → Holds interval (store.get s.kv) s.published (s.pc i)

  moved-Holds :
      (o : Option Entry) (log : List ℕ) (pc : ℕ → Pc) (i : ℕ) (p : Pc)
      → ((j : ℕ) → Holds interval o log (pc j))
      → Holds interval o log p
      → (j : ℕ) → Holds interval o log (moved pc i p j)
  moved-Holds o log pc i p h mine j = if_elim (Holds interval o log) (j == i) (λ t. mine) (λ f. h j)

  -- The store after an `Update`, and whether it gave no error: a write that was made may give one.
  abbrev Updated : K → ℕ → ℕ → K → Bool → Type 0
  Updated k v r k' won =
      ((k' ≡ k) × (won ≡ false))
      ⊎ ((e d : Entry) × (store.get k ≡ some e)
          × (e.revision ≡ r)
          × (store.get k' ≡ some d)
          × (d.value ≡ some v)
          × (r < d.revision))

  update-Updated : (k : K) (v r : ℕ) → Updated k v r (store.update k v r).0 (store.update k v r).1
  update-Updated k v r = elim (store.update_law k v r) [
    | inl lost ↦ inl (ap (λ (x : K × Bool). x.0) lost, ap (λ (x : K × Bool). x.1) lost)
    | inr (e, d, a, b, c, f, g) ↦ inr (e, d, a, b, c, f, g)
  ]

  -- A node goes to sleep, and the store stays.
  same-IsOrderly :
      (s : System K) (i : ℕ) (k : K)
      → store.get k ≡ store.get s.kv
      → IsOrderly s
      → IsOrderly (record s { kv = k; pc = moved s.pc i asleep })
  same-IsOrderly s i k e inv = record {
    spaced = inv.spaced;
    kept = rw e inv.kept;
    holds =
        moved-Holds (store.get k) s.published s.pc i asleep (λ j. rw e (inv.holds j)) (omega arith);
  }

  -- A node has written a time that the last publication admits.
  written-IsOrderly :
      (s : System K) (i : ℕ) (k : K) (p : Pc) (log : List ℕ) (e d : Entry)
      → store.get s.kv ≡ some e
      → store.get k ≡ some d
      → e.revision < d.revision
      → IsSpaced interval log
      → Kept interval (store.get k) log
      → Holds interval (store.get k) log p
      → IsOrderly s
      → IsOrderly (record { kv = k; pc = moved s.pc i p; published = log })
  written-IsOrderly s i k p log e d old new more spaced kept mine inv = record {
    spaced = spaced;
    kept = kept;
    holds =
        moved-Holds (store.get k) log s.pc i p
          (λ j.
            Holds-newer interval (store.get s.kv) (store.get k) s.published log e d (s.pc j) old new
              more (inv.holds j))
          mine;
  }

  exchanged-IsOrderly :
      (s : System K) (i : ℕ) (publishes : Bool) (r now : ℕ) (k : K) (won : Bool)
      → IsOrderly s
      → Holds interval (store.get s.kv) s.published (due r now)
      → Updated s.kv ((now + interval) / millisecond) r k won
      → IsOrderly (exchanged K store interval s i publishes r now k won)
  unfolding exchanged
  exchanged-IsOrderly s i publishes r now k false inv h (inl (same, lost)) =
      same-IsOrderly s i k (ap store.get same) inv
  exchanged-IsOrderly s i publishes r now k true inv h (inl (same, lost)) = absurd (ground arith)
  exchanged-IsOrderly s i publishes r now k false inv h (inr (e, d, old, rev, new, value, more)) =
      let (c, same, le, f) = h in
      let n : c.revision ≡ r = entry_revision same old ∙ rev in
      let turn = due-IsSpaced interval now c s.published (rw (← same) inv.kept) (f n) inv.spaced in
      written-IsOrderly s i k asleep s.published e d old new (omega (arith, rev, more)) inv.spaced
        (Kept-ready interval now ((now + interval) / millisecond) (store.get k) s.published
          (d, new, value) (omega arith) turn.1)
        (omega arith) inv
  exchanged-IsOrderly s i true r now k true inv (c, same, le, f)
        (inr (e, d, old, rev, new, value, more)) =
      let n : c.revision ≡ r = entry_revision same old ∙ rev in
      let turn = due-IsSpaced interval now c s.published (rw (← same) inv.kept) (f n) inv.spaced in
      written-IsOrderly s i k asleep (now ∷ s.published) e d old new (omega (arith, rev, more))
        turn.0 (d, (now + interval) / millisecond, new, value, omega arith) (omega arith) inv
  exchanged-IsOrderly s i false r now k true inv (c, same, le, f)
        (inr (e, d, old, rev, new, value, more)) =
      let n : c.revision ≡ r = entry_revision same old ∙ rev in
      let turn = due-IsSpaced interval now c s.published (rw (← same) inv.kept) (f n) inv.spaced in
      written-IsOrderly s i k (failed (r + 1) now) s.published e d old new
        (omega (arith, rev, more)) inv.spaced
        (Kept-ready interval now ((now + interval) / millisecond) (store.get k) s.published
          (d, new, value) (omega arith) turn.1)
        (d, new, omega arith, λ q. turn.1) inv

  reset_at-IsOrderly :
      (s : System K) (i : ℕ) (p : Pc)
      → IsOrderly s
      → Holds interval (store.get s.kv) s.published p
      → IsOrderly (reset_at K store interval s i p)
  unfolding reset_at
  reset_at-IsOrderly s i asleep inv h = inv
  reset_at-IsOrderly s i (due r now) inv h = inv
  reset_at-IsOrderly s i (failed r now) inv (c, same, le, f) =
      elim (update-Updated s.kv (now / millisecond) r) [
        | inl (stays, lost) ↦ same-IsOrderly s i _ (ap store.get stays) inv
        | inr (e, d, old, rev, new, value, more) ↦
            let ready = f (entry_revision same old ∙ rev) in
            written-IsOrderly s i _ asleep s.published e d old new (omega (arith, rev, more))
              inv.spaced
              (Kept-ready interval now (now / millisecond) _ s.published (d, new, value)
                (omega arith) ready)
              (omega arith) inv
      ]

  decide_due-Holds :
      (o : Option Entry) (log : List ℕ) (now : ℕ) → Holds interval o log (decide_due o now)
  decide_due-Holds none log now = omega arith
  decide_due-Holds (some e) log now =
      if_elim (Holds interval (some e) log) (ltb (next_run e) now)
        (λ t. (e, refl, omega arith, λ q. ltb→lt (next_run e) now t)) (λ f. omega arith)

  -- The first entry is made before anything is published.
  none-Holds :
      (o o' : Option Entry) (log : List ℕ) (p : Pc)
      → o ≡ none
      → Holds interval o log p
      → Holds interval o' log p
  none-Holds o o' log asleep e h = omega arith
  none-Holds o o' log (due r now) e (c, same, le, f) = absurd (ground arith)
  none-Holds o o' log (failed r now) e (c, same, le, f) = absurd (ground arith)

  none-Kept :
      (o o' : Option Entry) (log : List ℕ) → o ≡ none → Kept interval o log → Kept interval o' log
  none-Kept o o' [] e h = h
  none-Kept o o' (t ∷ log) e (c, v, same, value, later) = absurd (ground arith)

  loaded-IsOrderly :
      (s : System K) (o : Option Entry)
      → store.get s.kv ≡ o
      → IsOrderly s
      → IsOrderly (record s { kv = loaded K store interval o s.kv })
  unfolding loaded
  loaded-IsOrderly s (some e) there inv = record {
    spaced = inv.spaced;
    kept = inv.kept;
    holds = inv.holds;
  }
  loaded-IsOrderly s none missing inv =
      let new = store.get (store.create s.kv) in
      record {
        spaced = inv.spaced;
        kept = none-Kept (store.get s.kv) new s.published missing inv.kept;
        holds = λ j. none-Holds (store.get s.kv) new s.published (s.pc j) missing (inv.holds j);
      }

  advance-IsOrderly :
      (e : Event) (s : System K) → IsOrderly s → IsOrderly (advance K store interval e s)
  unfolding advance exchange_at
  advance-IsOrderly (load i now) s inv =
      let k = loaded K store interval (store.get s.kv) s.kv in
      let l = loaded-IsOrderly s (store.get s.kv) refl inv in
      record {
        spaced = l.spaced;
        kept = l.kept;
        holds =
            moved-Holds (store.get k) s.published s.pc i (decide_due (store.get k) now) l.holds
              (decide_due-Holds (store.get k) s.published now);
      }
  advance-IsOrderly (exchange i publishes) s inv = by_pc (s.pc i) (inv.holds i)
    where
      by_pc :
          (p : Pc)
          → Holds interval (store.get s.kv) s.published p
          → IsOrderly (exchange_at K store interval s i publishes p)
      by_pc asleep h = inv
      by_pc (failed r now) h = inv
      by_pc (due r now) h =
          exchanged-IsOrderly s i publishes r now _ _ inv h
            (update-Updated s.kv ((now + interval) / millisecond) r)
  advance-IsOrderly (reset i) s inv = reset_at-IsOrderly s i (s.pc i) inv (inv.holds i)

  advance_all-IsOrderly :
      (events : List Event) (s : System K)
      → IsOrderly s
      → IsOrderly (advance_all K store interval events s)
  unfolding advance_all
  advance_all-IsOrderly [] s inv = inv
  advance_all-IsOrderly (e ∷ events) s inv =
      advance_all-IsOrderly events (advance K store interval e s) (advance-IsOrderly e s inv)

  -- However the nodes interleave and whatever their clocks say, each round that publishes has a clock
  -- reading more than the interval less a millisecond behind the one of the publication before it.
  pub published-IsSpaced :
      (k : K) (events : List Event)
      → IsSpaced interval (advance_all K store interval events (initial_system k)).published
  published-IsSpaced k events =
      (advance_all-IsOrderly events (initial_system k)
        (record { spaced = omega arith; kept = omega arith; holds = λ j. omega arith })).spaced
