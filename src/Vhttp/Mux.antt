-- ===== src/Vhttp/Mux.antt =====
-- vhttp/mux.go with the results of vhttp/hnd.go. What a handler reads and writes (the request and
-- the response) is a state of any type `S`; a route's pattern is its test on the state.
use pmesh.Base.{
  ◌≡◌, ◌≢◌, refl, Bool, true, false, List, [], ◌∷◌, ◌++◌, arith, if◌then◌else◌, Bool-cases, inl,
  inr, Option, none, some,
}

pub data Result : Type 0 where
  done continue_ drop : Result

abbrev pub is_done : Result → Bool
is_done done = true
is_done continue_ = false
is_done drop = false

pub record Route {ℓ} (S : Type ℓ) : Type ℓ where
  pub pattern_ : S → Bool
  pub handler : S → S × Result

module _ {ℓ} {S : Type ℓ} where
  -- The `switch` on a handler's result: it ends the loop, or `rest` goes on.
  abbrev pub after : S × Result → (S → S × Result) → S × Result
  after (s, done) rest = (s, done)
  after (s, drop) rest = (s, continue_)
  after (s, continue_) rest = rest s

  -- `Mux.ServeHTTP`
  unfoldable pub serve : List (Route S) → S → S × Result
  serve [] s = (s, continue_)
  serve (r ∷ rs) s = elim (r.pattern_ s) [
    | true ↦ after (r.handler s) (serve rs)
    | false ↦ serve rs s
  ]

  -- `Mux.UsePattern` and `Mux.Then`
  unfoldable pub use_pattern : List (Route S) → Route S → List (Route S)
  use_pattern rs r = rs ++ r ∷ []

  unfoldable pub then_ : List (Route S) → (S → S × Result) → List (Route S)
  unfolding use_pattern
  then_ rs h = use_pattern rs (record { pattern_ = λ s. true; handler = h })

  -- A mux as a handler of another mux.
  abbrev pub nested : (S → Bool) → List (Route S) → Route S
  nested p rs = record { pattern_ = p; handler = serve rs }

  -- The state behind the routes, if each of them lets the request go on.
  abbrev pub pass_on : S × Result → (S → Option S) → Option S
  pass_on (s, done) rest = none
  pass_on (s, drop) rest = none
  pass_on (s, continue_) rest = rest s

  unfoldable pub passes : List (Route S) → S → Option S
  passes [] s = some s
  passes (r ∷ rs) s = elim (r.pattern_ s) [
    | true ↦ pass_on (r.handler s) (passes rs)
    | false ↦ passes rs s
  ]

  -- What a call of `serve` does behind routes that let the request go on, and before them.
  abbrev pub or_serve : Option S → S × Result → List (Route S) → S × Result
  or_serve none ended qs = ended
  or_serve (some s) ended qs = serve qs s

  append_step :
      (r : S × Result) (rs qs : List (Route S))
      → ((s : S) → serve (rs ++ qs) s ≡ or_serve (passes rs s) (serve rs s) qs)
      → after r (serve (rs ++ qs)) ≡ or_serve (pass_on r (passes rs)) (after r (serve rs)) qs
  append_step (s, done) rs qs ih = refl
  append_step (s, drop) rs qs ih = refl
  append_step (s, continue_) rs qs ih = ih s

  -- Routes added behind others see exactly the requests that every route before them lets go on, in
  -- the state that those leave; a request that one of them finishes or drops never gets there.
  pub serve-append :
      (rs qs : List (Route S)) (s : S) → serve (rs ++ qs) s ≡ or_serve (passes rs s) (serve rs s) qs
  unfolding serve passes
  serve-append [] qs s = refl
  serve-append (r ∷ rs) qs s = elim (Bool-cases (r.pattern_ s)) [
    | inl hit ↦ rw (hit, serve, passes) (append_step (r.handler s) rs qs (serve-append rs qs))
    | inr miss ↦ rw (miss, serve, passes) (serve-append rs qs s)
  ]

  never_drop :
      (r : S × Result) (rs : List (Route S))
      → ((s : S) → (serve rs s).1 ≢ drop)
      → (after r (serve rs)).1 ≢ drop
  never_drop (s, done) rs ih = ground arith
  never_drop (s, drop) rs ih = ground arith
  never_drop (s, continue_) rs ih = ih s

  serve-ne-drop : (rs : List (Route S)) (s : S) → (serve rs s).1 ≢ drop
  unfolding serve
  serve-ne-drop [] s = ground arith
  serve-ne-drop (r ∷ rs) s = elim (Bool-cases (r.pattern_ s)) [
    | inl hit ↦ rw (hit, serve) (never_drop (r.handler s) rs (serve-ne-drop rs))
    | inr miss ↦ rw (miss, serve) (serve-ne-drop rs s)
  ]

  nested_step :
      (r : S × Result) (qs : List (Route S))
      → r.1 ≢ drop
      → after r (serve qs) ≡ (if is_done r.1 then r else serve qs r.0)
  nested_step (s, done) qs h = refl
  nested_step (s, drop) qs h = absurd (h refl)
  nested_step (s, continue_) qs h = refl

  -- A drop leaves the mux in which it happens and no other: behind a mux that serves as a handler, the
  -- outer routes go on in the state that it leaves unless it has finished the request.
  pub serve-nested :
      (p : S → Bool) (rs qs : List (Route S)) (s : S)
      → p s ≡ true
      → serve (nested p rs ∷ qs) s
        ≡ (if is_done (serve rs s).1 then serve rs s else serve qs (serve rs s).0)
  unfolding serve
  serve-nested p rs qs s h = rw (h, serve) (nested_step (serve rs s) qs (serve-ne-drop rs s))
