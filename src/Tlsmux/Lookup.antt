-- ===== src/Tlsmux/Lookup.antt =====
-- Lookups in the bindings of tlsmux/listener.go after each of their changes.
use pmesh.Base.{
  ℕ, ◌≡◌, refl, sym, ◌∙◌, ap, Bool, true, false, ◌&&◌, ◌||◌, Option, none, some, List, [], ◌∷◌,
  if◌then◌else◌, arith, Bool-cases, Option-cases, inl, inr,
}
use pmesh.Base.Text.{Text, text_eq, eq_of_text_eq}
use pmesh.Tlsmux.{
  Bindings, bound_to, unbind, is_sub, unbind_own, any_bound, bind_all, Listening, listening,
}

-- Whether a protocol is in a list.
abbrev pub listed : Text → List Text → Bool
listed p [] = false
listed p (q ∷ ps) = text_eq q p || listed p ps

abbrev pub is_listening : Listening → Bool
is_listening (listening _) = true
is_listening _ = false

abbrev pub is_bound : Option ℕ → Bool
is_bound none = false
is_bound (some _) = true

pub bound_to-bind_all :
    (p : Text) (k : ℕ) (ps : List Text) (b : Bindings)
    → bound_to p (bind_all k ps b) ≡ (if listed p ps then some k else bound_to p b)
unfolding bind_all bound_to
bound_to-bind_all p k [] b = refl
bound_to-bind_all p k (q ∷ ps) b = ground (arith, bound_to-bind_all p k ps ((q, k) ∷ b))

pub any_bound-listed :
    (p : Text) (ps : List Text) (b : Bindings)
    → any_bound ps b ≡ false
    → listed p ps ≡ true
    → bound_to p b ≡ none
unfolding any_bound
any_bound-listed p [] b free h = ground arith
any_bound-listed p (q ∷ ps) b free h = elim (Option-cases (bound_to q b)) [
  | inl e ↦ elim (Bool-cases (text_eq q p)) [
    | inl same ↦ ap (λ t. bound_to t b) (sym (eq_of_text_eq q p same)) ∙ e
    | inr other ↦ any_bound-listed p ps b (ground arith) (ground arith)
  ]
  | inr (k, e) ↦ ground arith
]

bound_to-unbind :
    (p q : Text) (b : Bindings)
    → bound_to p (unbind q b) ≡ (if text_eq q p then none else bound_to p b)
unfolding bound_to unbind
bound_to-unbind p q [] = ground arith
bound_to-unbind p q ((r, k) ∷ b) = elim (Bool-cases (text_eq r q)) [
  | inl same ↦
      let e : r ≡ q = eq_of_text_eq r q same in
      let f : text_eq r p ≡ text_eq q p = ap (λ t. text_eq t p) e in
      ground (arith, bound_to-unbind p q b)
  | inr other ↦ elim (Bool-cases (text_eq q p)) [
    | inl here ↦
        let e : q ≡ p = eq_of_text_eq q p here in
        let f : text_eq r q ≡ text_eq r p = ap (λ t. text_eq r t) e in
        ground (arith, bound_to-unbind p q b)
    | inr there ↦ ground (arith, bound_to-unbind p q b)
  ]
]

bound_to-if :
    (p : Text) (t : Bool) (a b : Bindings)
    → bound_to p (if t then a else b) ≡ (if t then bound_to p a else bound_to p b)
bound_to-if p true a b = refl
bound_to-if p false a b = refl

pub bound_to-unbind_own :
    (p : Text) (k : ℕ) (ps : List Text) (b : Bindings)
    → bound_to p (unbind_own k ps b)
      ≡ (if listed p ps && is_sub k (bound_to p b) then none else bound_to p b)
unfolding unbind_own
bound_to-unbind_own p k [] b = refl
bound_to-unbind_own p k (q ∷ ps) b =
    let c : Bindings = if is_sub k (bound_to q b) then unbind q b else b in
    let ih = bound_to-unbind_own p k ps c in
    let one = bound_to-if p (is_sub k (bound_to q b)) (unbind q b) b in
    let two = bound_to-unbind p q b in
    elim (Bool-cases (text_eq q p)) [
      | inl same ↦
          let f : bound_to q b ≡ bound_to p b = ap (λ t. bound_to t b) (eq_of_text_eq q p same) in
          elim (Bool-cases (is_sub k (bound_to p b))) [
            | inl own ↦ ground arith
            | inr foreign ↦ ground arith
          ]
      | inr other ↦ elim (Bool-cases (is_sub k (bound_to q b))) [
        | inl own ↦ ground arith
        | inr foreign ↦ ground arith
      ]
    ]
