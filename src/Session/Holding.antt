-- ===== src/Session/Holding.antt =====
-- What the entry and the nodes of a schedule of session/runner.go hold, and how a turn changes it.
use pmesh.Base.{
  ℕ, ◌+◌, ◌*◌, ◌/◌, ◌≤◌, ◌<◌, ◌≡◌, refl, sym, ◌∙◌, ap, Option, some, List, [], ◌∷◌, arith,
}
use pmesh.Session.Schedule.{Entry, millisecond, next_run, Pc, asleep, due, failed}

-- Each publication comes after the one before it by more than the interval less a millisecond.
abbrev pub IsSpaced : ℕ → List ℕ → Type 0
IsSpaced interval [] = 0 ≤ interval
IsSpaced interval (t ∷ []) = 0 ≤ interval
IsSpaced interval (u ∷ t ∷ log) = (t + interval < u + millisecond) × IsSpaced interval (t ∷ log)

-- The entry keeps the next run behind the last publication.
abbrev pub Kept : ℕ → Option Entry → List ℕ → Type 0
Kept interval o [] = 0 ≤ interval
Kept interval o (t ∷ log) =
    (e : Entry) × (v : ℕ) × (o ≡ some e)
    × (e.value ≡ some v)
    × (t + interval < v * millisecond + millisecond)

abbrev Ready : ℕ → ℕ → List ℕ → Type 0
Ready interval now [] = 0 ≤ interval
Ready interval now (t ∷ log) = t + interval < now / millisecond * millisecond + millisecond

-- What a node holds is true as long as the entry has the revision that it read.
abbrev pub Holds : ℕ → Option Entry → List ℕ → Pc → Type 0
Holds interval o log asleep = 0 ≤ interval
Holds interval o log (due r now) =
    (e : Entry) × (o ≡ some e) × (r ≤ e.revision) × (e.revision ≡ r → next_run e < now)
Holds interval o log (failed r now) =
    (e : Entry) × (o ≡ some e) × (r ≤ e.revision) × (e.revision ≡ r → Ready interval now log)

-- An entry with a newer revision than all that the nodes have read.
pub Holds-newer :
    (interval : ℕ) (o o' : Option Entry) (log log' : List ℕ) (e d : Entry) (p : Pc)
    → o ≡ some e
    → o' ≡ some d
    → e.revision < d.revision
    → Holds interval o log p
    → Holds interval o' log' p
Holds-newer interval o o' log log' e d asleep a b lt h = omega arith
Holds-newer interval o o' log log' e d (due r now) a b lt (c, same, le, f) =
    let m : c ≡ e = ground arith in
    let n : c.revision ≡ e.revision = ap (λ (x : Entry). x.revision) m in
    (d, b, omega arith, λ q. absurd (omega arith))
Holds-newer interval o o' log log' e d (failed r now) a b lt (c, same, le, f) =
    let m : c ≡ e = ground arith in
    let n : c.revision ≡ e.revision = ap (λ (x : Entry). x.revision) m in
    (d, b, omega arith, λ q. absurd (omega arith))

next_run-value : (e : Entry) (v : ℕ) → e.value ≡ some v → next_run e ≡ v * millisecond
unfolding next_run
next_run-value e v h = rw (h, next_run) refl

pub entry_revision :
    {o : Option Entry} {c e : Entry} → o ≡ some c → o ≡ some e → c.revision ≡ e.revision
entry_revision {o} {c} {e} p q = let m : c ≡ e = ground arith in ap (λ (x : Entry). x.revision) m

-- A due round follows the last publication by the interval.
pub due-IsSpaced :
    (interval now : ℕ) (e : Entry) (log : List ℕ)
    → Kept interval (some e) log
    → next_run e < now
    → IsSpaced interval log
    → IsSpaced interval (now ∷ log) × Ready interval now log
unfolding next_run
due-IsSpaced interval now e [] kept lt spaced = (omega arith, omega arith)
due-IsSpaced interval now e (t ∷ log) (c, v, same, value, later) lt spaced =
    let m : c ≡ e = ground arith in
    let n : e.value ≡ some v = ap (λ (x : Entry). x.value) (sym m) ∙ value in
    let l = next_run-value e v n in ((omega arith, spaced), omega arith)

abbrev Now : ℕ → Option Entry → ℕ → Type 0
Now interval o v = (d : Entry) × (o ≡ some d) × (d.value ≡ some v)

pub Kept-ready :
    (interval now v : ℕ) (o : Option Entry) (log : List ℕ)
    → Now interval o v
    → now / millisecond ≤ v
    → Ready interval now log
    → Kept interval o log
Kept-ready interval now v o [] d le ready = omega arith
Kept-ready interval now v o (t ∷ log) (d, same, value) le ready = (d, v, same, value, omega arith)
