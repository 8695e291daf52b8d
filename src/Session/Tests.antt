-- ===== src/Session/Tests.antt =====
-- Messages, schedules and quotas of session/runner.go at concrete values.
use pmesh.Base.{
  ℕ, ◌+◌, ◌*◌, ◌≤◌, ◌<◌, ◌≡◌, refl, ◌⊎◌, inl, inr, Bool, true, false, Option, none, some, List, [],
  ◌∷◌, ◌==◌, arith, if◌then◌else◌, Bool-cases,
}
use pmesh.Base.Int.{pos}
use pmesh.Retry.{other, marked, retryable, disable, with_defaults}
use pmesh.Session.Message.{
  Runner, panics, answers, classify, serve_msg, serve_core, silent, reply_data, ack, is_redelivered,
  nothing, Handled, settle_data, settle, serve_jetstream, deliver,
}
use pmesh.Session.Settling.{deliver_ends}
use pmesh.Session.Schedule.{
  Entry, KeyValue, next_run, Event, load, exchange, loaded, exchanged, exchange_at, advance,
  advance_all, initial_system,
}
use pmesh.Session.Holding.{IsSpaced}
use pmesh.Session.Turns.{published-IsSpaced}
use pmesh.Session.Quota.{Round, no_quota, renew, take_one, round, served_in, served_in-count}

abbrev twice : Runner
twice = record {
  policy = record { attempts = pos 2; backoff = pos 1; timeout = pos 1 };
  no_dead_letter = false;
}

-- A route that panics leaves the results at their zero values: the message is acknowledged.
panic_acked : serve_jetstream twice true 1 panics ≡ record { signal = ack; stored = nothing }
unfolding serve_jetstream serve_msg settle settle_data
panic_acked = refl

-- The last statuses of both classes fall out of them.
status_299 : (classify 299 []).err ≡ some (other 299)
unfolding classify
status_299 = refl

status_499 : retryable (classify 499 []).err ≡ true
unfolding classify retryable marked
status_499 = refl

status_498 : retryable (classify 498 []).err ≡ false
unfolding classify retryable marked disable
status_498 = refl

core_silent : serve_core false (answers 500 []) ≡ silent
unfolding serve_core
core_silent = refl

core_replies : serve_core true (answers 200 (1 ∷ [])) ≡ reply_data (1 ∷ [])
unfolding serve_core serve_msg classify
core_replies = refl

twice_limit : (with_defaults twice.policy).attempts ≡ pos 2
unfolding with_defaults
twice_limit = refl

deliver_ends_example :
    (k : ℕ) × (h : Handled) × (deliver 3 twice (λ n. answers 500 []) 1 ≡ some (k, h))
    × (k ≤ 3)
    × (is_redelivered h.signal ≡ false)
deliver_ends_example = deliver_ends 1 twice (λ n. answers 500 []) twice_limit

abbrev written : Entry → ℕ → Entry
written e v = record e { value = some v; revision = e.revision + 1 }

abbrev first_entry : Entry
first_entry = record { value = none; revision = 1; created = 0 }

abbrev store_create : Option Entry → Option Entry
store_create none = some first_entry
store_create (some e) = some e

abbrev store_update : Option Entry → ℕ → ℕ → Option Entry × Bool
store_update none v r = (none, false)
store_update (some e) v r = if e.revision == r then (some (written e v), true) else (some e, false)

create_ok :
    (k : Option Entry)
    → (store_create k ≡ k)
      ⊎ ((k ≡ none) × ((e : Entry) × (store_create k ≡ some e) × (e.value ≡ none)))
create_ok none = inr (refl, (first_entry, refl, refl))
create_ok (some e) = inl refl

update_ok :
    (k : Option Entry) (v r : ℕ)
    → (store_update k v r ≡ (k, false))
      ⊎ ((e d : Entry) × (k ≡ some e)
          × (e.revision ≡ r)
          × ((store_update k v r).0 ≡ some d)
          × (d.value ≡ some v)
          × (r < d.revision))
update_ok none v r = inl refl
update_ok (some e) v r = elim (Bool-cases (e.revision == r)) [
  | inl same ↦ inr (e, written e v, refl, ground arith, rw same refl, refl, ground arith)
  | inr newer ↦ inl (rw newer refl)
]

-- A store of one entry, whose revisions count its writes.
abbrev one_entry : KeyValue (Option Entry)
one_entry = record {
  get = λ k. k;
  create = store_create;
  update = store_update;
  create_law = create_ok;
  update_law = update_ok;
}

-- Two nodes read the entry before either writes: one of them publishes.
abbrev two_nodes : List Event
two_nodes = load 0 5 ∷ load 1 6 ∷ exchange 1 true ∷ exchange 0 true ∷ []

two_nodes_publish :
    (advance_all (Option Entry) one_entry 60_000_000 two_nodes (initial_system none)).published
    ≡ 6 ∷ []
unfolding advance_all advance loaded exchange_at exchanged next_run
two_nodes_publish = refl

published-IsSpaced_example :
    IsSpaced 60_000_000
      (advance_all (Option Entry) one_entry 60_000_000 two_nodes (initial_system none)).published
published-IsSpaced_example = published-IsSpaced (Option Entry) one_entry 60_000_000 none two_nodes

abbrev hits : List Round
hits = record { now = 5; fetched = true } ∷ record { now = 6; fetched = true } ∷ []

hits_served : served_in 1 10 no_quota hits ≡ 1
unfolding served_in round renew take_one
hits_served = refl

served_in-count_example :
    (k : ℕ) × (served_in 1 10 no_quota hits ≤ (k + 1) * 1) × (5 + k * (10 + 1) ≤ 6)
served_in-count_example =
    served_in-count 1 10 5 6 (record { now = 5; fetched = true })
      (record { now = 6; fetched = true } ∷ [])
      (omega arith, omega arith, (omega arith, omega arith, omega arith))
