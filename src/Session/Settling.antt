-- ===== src/Session/Settling.antt =====
-- How `ServeJetstream` of session/runner.go settles a message.
use pmesh.Base.{
  ℕ, zero, suc, ◌+◌, ◌-◌, ◌≤◌, ◌<◌, ◌≡◌, refl, ◌⊎◌, inl, inr, true, false, ◌&&◌, Option, none, some,
  List, [], ◌∷◌, arith, if_elim, ap, sym, ◌∙◌,
}
use pmesh.Base.Int.{pos, ltb_ℤ, leb_ℤ}
use pmesh.Retry.{Error, Policy, with_defaults, exhausted, step_n, retryable}
use pmesh.Session.Message.{
  Runner, Served, is_redelivered, serve_msg, ack, term, Stored, nothing, stored_error, stored_data,
  Handled, bury, retry_or_bury, settle_error, settle_data, settle, serve_jetstream, deliver,
}

-- What the store has of a result.
abbrev pub kept : List ℕ → Stored
kept [] = nothing
kept (x ∷ body) = stored_data (x ∷ body)

abbrev Buried : Runner → Error → Handled → Type 0
Buried t e h =
    ((h.signal ≡ term) × ((t.no_dead_letter ≡ true) ⊎ (h.stored ≡ stored_error e)))
    ⊎ ((is_redelivered h.signal ≡ true) × (h.stored ≡ nothing))

abbrev Settled : Runner → List ℕ → Option Error → Handled → Type 0
Settled t body err h =
    ((h.signal ≡ ack) × (err ≡ none) × (h.stored ≡ kept body))
    ⊎ ((e : Error) × (h.signal ≡ term)
        × (err ≡ some e)
        × ((t.no_dead_letter ≡ true) ⊎ (h.stored ≡ stored_error e)))
    ⊎ ((is_redelivered h.signal ≡ true) × (h.stored ≡ nothing))

-- With room in the store, only a message with attempts left is delivered again.
abbrev Spent : Policy → ℕ → Handled → Type 0
Spent p n h = (is_redelivered h.signal ≡ false) ⊎ (exhausted p (n - 1) ≡ false)

bury-Spent : (t : Runner) (n : ℕ) (e : Error) → Spent (with_defaults t.policy) n (bury t true e)
unfolding bury
bury-Spent t n e =
    if_elim (Spent (with_defaults t.policy) n) t.no_dead_letter (λ off. inl refl) (λ on. inl refl)

delay-Spent :
    (t : Runner) (n : ℕ) (e : Error)
    → let p = with_defaults t.policy in Spent p n (retry_or_bury t true e (step_n p (n - 1)))
unfolding retry_or_bury step_n
delay-Spent t n e =
    let p = with_defaults t.policy in
    if_elim (λ d. Spent p n (retry_or_bury t true e d)) (exhausted p (n - 1))
      (λ over. bury-Spent t n e) (λ more. inr more)

settle-Spent :
    (t : Runner) (n : ℕ) (body : List ℕ) (err : Option Error)
    → Spent (with_defaults t.policy) n (settle t true n body err)
unfolding settle settle_data settle_error
settle-Spent t n [] none = inl refl
settle-Spent t n (x ∷ body) none = inl refl
settle-Spent t n body (some e) =
    if_elim (Spent (with_defaults t.policy) n) (retryable (some e)) (λ again. delay-Spent t n e)
      (λ never. bury-Spent t n e)

abbrev Ended : ℕ → Option (ℕ × Handled) → Type 0
Ended a o =
    (k : ℕ) × (h : Handled) × (o ≡ some (k, h)) × (k ≤ a + 2) × (is_redelivered h.signal ≡ false)

attempts_left : (p : Policy) (a n : ℕ) → p.attempts ≡ pos a → exhausted p n ≡ false → 0 < a → n < a
unfolding exhausted
attempts_left p a n limit more some_attempt =
    let m : (ltb_ℤ (pos 0) (pos a) && leb_ℤ (pos a) (pos n)) ≡ false =
      ap (λ x. ltb_ℤ (pos 0) x && leb_ℤ x (pos n)) (sym limit) ∙ more in
    ground arith

deliver-Ended :
    (a fuel n : ℕ) (t : Runner) (calls : ℕ → Served)
    → (with_defaults t.policy).attempts ≡ pos (suc a)
    → fuel + n ≡ a + 3
    → n ≤ a + 2
    → Ended a (deliver fuel t calls n)
unfolding deliver serve_jetstream
deliver-Ended a zero n t calls limit total few = absurd (omega arith)
deliver-Ended a (suc fuel) n t calls limit total few =
    let o = serve_msg (calls n) in
    let h = settle t true n o.data_out o.err in
    if_elim (Ended a) (is_redelivered h.signal)
      (λ again. elim (settle-Spent t n o.data_out o.err) [
        | inl over ↦ absurd (ground arith)
        | inr more ↦
            let left =
              attempts_left (with_defaults t.policy) (suc a) (n - 1) limit more (omega arith) in
            deliver-Ended a fuel (n + 1) t calls limit (omega arith) (omega arith)
      ])
      (λ over. (n, h, refl, few, over))

-- Where the attempts are limited and the store takes values, whatever serving a message gives, it is
-- acknowledged or terminated by the delivery after its last attempt.
pub deliver_ends :
    (a : ℕ) (t : Runner) (calls : ℕ → Served)
    → (with_defaults t.policy).attempts ≡ pos (suc a)
    → (k : ℕ) × (h : Handled) × (deliver (a + 2) t calls 1 ≡ some (k, h))
      × (k ≤ a + 2)
      × (is_redelivered h.signal ≡ false)
deliver_ends a t calls limit = deliver-Ended a (a + 2) 1 t calls limit (omega arith) (omega arith)
