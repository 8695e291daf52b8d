-- ===== src/Rate/Window/Racing.antt =====
-- The loop of `Inc` in rate/window.go while other goroutines write to its word.
use pmesh.Base.{
  ℕ, ◌≤◌, ◌≡◌, ◌⊎◌, refl, ap, Bool, true, false, Option, none, some, arith, ◌==◌, List, [], ◌∷◌,
  ◌++◌, length, inl, inr, Bool-cases, Option-cases,
}
use pmesh.Rate.Window.{Window, propose, inc, swap_round, inc_loop}

-- The word after some writes.
abbrev pub applied : List (Window → Window) → Window → Window
applied [] w = w
applied (write ∷ writes) w = applied writes (write w)

-- A round of the loop: again, with what it found; refused at the word that it loaded; or granted,
-- where the word that it found is the one that it loaded.
swap_round_cases :
    (loaded found now limit : ℕ)
    → (swap_round loaded found now limit ≡ (found, none))
      ⊎ ((swap_round loaded found now limit ≡ (found, some false))
          × ((inc loaded now limit).1 ≡ false))
      ⊎ ((swap_round loaded found now limit ≡ ((inc loaded now limit).0, some true))
          × ((inc loaded now limit).1 ≡ true)
          × (found ≡ loaded))
unfolding swap_round inc
swap_round_cases loaded found now limit = elim (Option-cases (propose loaded now limit)) [
  | inl e ↦ inr (inl (ground arith, ground arith))
  | inr (d, e) ↦ elim (Bool-cases (found == loaded)) [
    | inl same ↦ inr (inr (ground arith, ground arith, ground arith))
    | inr diff ↦ inl (ground arith)
  ]
]

inc_loop_again :
    (now limit : ℕ) (write : Window → Window) (writes : List (Window → Window)) (w : Window)
    → swap_round w (write w) now limit ≡ (write w, none)
    → inc_loop (write ∷ writes) w now limit ≡ inc_loop writes (write w) now limit
unfolding inc_loop
inc_loop_again now limit write writes w e = λ i. elim (e i).1 [
  | none ↦ inc_loop writes (e i).0 now limit
  | some ok ↦ ((e i).0, some ok, writes)
]

inc_loop_done :
    (now limit : ℕ) (write : Window → Window) (writes : List (Window → Window)) (w : Window)
    (ok : Bool) (w' : Window)
    → swap_round w (write w) now limit ≡ (w', some ok)
    → inc_loop (write ∷ writes) w now limit ≡ (w', some ok, writes)
unfolding inc_loop
inc_loop_done now limit write writes w ok w' e = λ i. elim (e i).1 [
  | none ↦ inc_loop writes (e i).0 now limit
  | some ok ↦ ((e i).0, some ok, writes)
]

-- The loop met the writes `met`, and did the rest as one step: an undisturbed `Inc` behind all of them
-- is granted and gives the word; or one behind all of them but the last at most is refused, and the
-- word is what they have left.
abbrev pub OneStep : ℕ → ℕ → Window → List (Window → Window) → Window → Option Bool → Type 0
OneStep now limit w met word answer =
    ((answer ≡ some true)
      × ((inc (applied met w) now limit).1 ≡ true)
      × (word ≡ (inc (applied met w) now limit).0))
    ⊎ ((answer ≡ some false)
        × (word ≡ applied met w)
        × ((before last : List (Window → Window)) × (met ≡ before ++ last)
            × (length last ≤ 1)
            × ((inc (applied before w) now limit).1 ≡ false)))

refused_keeps : (w now limit : ℕ) → (inc w now limit).1 ≡ false → (inc w now limit).0 ≡ w
unfolding inc
refused_keeps w now limit h = ground arith

met_first :
    (now limit : ℕ) (w : Window) (write : Window → Window) (met : List (Window → Window))
    (word : Window) (answer : Option Bool)
    → OneStep now limit (write w) met word answer
    → OneStep now limit w (write ∷ met) word answer
met_first now limit w write met word answer (inl granted) = inl granted
met_first now limit w write met word answer (inr (a, v, (before, last, split, short, refused))) =
    inr (a, v, (write ∷ before, last, ap (◌∷◌ write) split, short, refused))

-- The loop of `Inc` is atomic among the writes of others. It always answers, and splits their writes into
-- some before it and the rest after it. If it is granted, the word is what an undisturbed `Inc` makes of
-- the one that the writes before have left, so that none of them is lost; if it is refused, it leaves the
-- word as those writes have, and an undisturbed `Inc` is refused there or before the last of them.
pub inc_loop_atomic :
    (now limit : ℕ) (writes : List (Window → Window)) (w : Window)
    → (met left : List (Window → Window)) × (writes ≡ met ++ left)
      × ((inc_loop writes w now limit).2 ≡ left)
      × OneStep now limit w met (inc_loop writes w now limit).0 (inc_loop writes w now limit).1
unfolding inc_loop
inc_loop_atomic now limit [] w = elim (Bool-cases (inc w now limit).1) [
  | inl ok ↦ ([], [], refl, refl, inl (ap some ok, ok, refl))
  | inr refused ↦ (
    [],
    [],
    refl,
    refl,
    inr (ap some refused, refused_keeps w now limit refused, ([], [], refl, omega arith, refused)),
  )
]
inc_loop_atomic now limit (write ∷ writes) w = elim (swap_round_cases w (write w) now limit) [
  | inl again ↦
      let (met, left, split, rest, atomic) = inc_loop_atomic now limit writes (write w) in
      let e = inc_loop_again now limit write writes w again in
      (
        write ∷ met,
        left,
        ap (◌∷◌ write) split,
        rw e rest,
        rw e (met_first now limit w write met _ _ atomic),
      )
  | inr (inl (e, refused)) ↦
      let d = inc_loop_done now limit write writes w false (write w) e in
      (
        write ∷ [],
        writes,
        refl,
        rw d refl,
        rw d (inr (refl, refl, ([], write ∷ [], refl, omega arith, refused))),
      )
  | inr (inr (e, ok, same)) ↦
      let d = inc_loop_done now limit write writes w true (inc w now limit).0 e in
      (write ∷ [], writes, refl, rw d refl, rw d (inl (refl, rw same ok, rw same refl)))
]
