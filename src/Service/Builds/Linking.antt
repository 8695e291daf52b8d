-- ===== src/Service/Builds/Linking.antt =====
-- Where `.run` of service/build_files.go leads.
use pmesh.Base.{
  ℕ, ◌≡◌, ◌⊎◌, refl, ◌∙◌, ap, Bool, true, false, not, ◌||◌, Option, some, List, [], ◌∷◌, if_elim,
  arith, Bool-cases, inl, inr,
}
use pmesh.Base.Text.{Text, text_eq, eq_of_text_eq, text_eq_refl}
use pmesh.Service.Builds.{
  Kind, folder, link, Root, builder_run_dir, builder_build_dir, Faults, entry_of, without_entry, rm,
  spared, doomed, rm_all, clean, target_of, exists, Result, pre_build, abort_build, unlink_run,
  symlink, link_run, archive_name, publish, archive, post_build, finish, run_build,
}

abbrev named : Text → List Text → Bool
named m [] = false
named m (n ∷ ns) = text_eq n m || named m ns

entry_of-without :
    (m n : Text) (d : Root) → text_eq n m ≡ false → entry_of m (without_entry n d) ≡ entry_of m d
unfolding entry_of without_entry
entry_of-without m n [] other = refl
entry_of-without m n ((x, k) ∷ d) other = elim (Bool-cases (text_eq x n)) [
  | inl same ↦
      let f : text_eq x m ≡ text_eq n m = ap (λ t. text_eq t m) (eq_of_text_eq x n same) in
      ground (arith, entry_of-without m n d other)
  | inr differs ↦ ground (arith, entry_of-without m n d other)
]

entry_of-rm :
    (f : Faults) (m n : Text) (d : Root)
    → text_eq n m ≡ false
    → entry_of m (rm f n d) ≡ entry_of m d
unfolding rm
entry_of-rm f m n d other =
    if_elim (λ (r : Root). entry_of m r ≡ entry_of m d) (f.rm_fails n) (λ t. refl)
      (λ e. entry_of-without m n d other)

entry_of-rm_all :
    (f : Faults) (m : Text) (ns : List Text) (d : Root)
    → named m ns ≡ false
    → entry_of m (rm_all f ns d) ≡ entry_of m d
unfolding rm_all
entry_of-rm_all f m [] d free = refl
entry_of-rm_all f m (n ∷ ns) d free =
    entry_of-rm_all f m ns (rm f n d) (ground arith) ∙ entry_of-rm f m n d (ground arith)

spared-doomed :
    (run : Option Text) (m : Text) (d : Root) → spared run m ≡ true → named m (doomed run d) ≡ false
unfolding doomed
spared-doomed run m [] safe = refl
spared-doomed run m ((x, k) ∷ d) safe =
    let ih = spared-doomed run m d safe in
    elim (Bool-cases (text_eq x m)) [
      | inl same ↦
          let s : spared run x ≡ true = ap (spared run) (eq_of_text_eq x m same) ∙ safe in
          ground arith
      | inr differs ↦ ground arith
    ]

-- `Clean` keeps the folder that `.run` leads to, and the link.
clean-run :
    (f : Faults) (t m : Text) (d : Root)
    → target_of (entry_of builder_run_dir d) ≡ some t
    → (text_eq m t || text_eq m builder_run_dir) ≡ true
    → entry_of m (clean f d) ≡ entry_of m d
unfolding clean
clean-run f t m d run safe =
    let s : spared (target_of (entry_of builder_run_dir d)) m ≡ true =
      ap (λ o. spared o m) run ∙ safe in
    entry_of-rm_all f m (doomed (target_of (entry_of builder_run_dir d)) d) d
      (spared-doomed (target_of (entry_of builder_run_dir d)) m d s)

-- The entry of the running build: `.run` leads to `t`, which is a folder with the build id.
abbrev Runs : Text → ℕ → Root → Type 0
Runs t chk d =
    (entry_of builder_run_dir d ≡ some (link t)) × (entry_of t d ≡ some (folder (some chk)))

-- A result without an error runs the build.
abbrev RunsIf : Text → ℕ → Result → Type 0
RunsIf t chk r = (r.1 ≡ false) ⊎ Runs t chk r.0

symlink-RunsIf :
    (fails : Bool) (t : Text) (chk : ℕ) (d : Root)
    → text_eq builder_run_dir t ≡ false
    → entry_of t d ≡ some (folder (some chk))
    → RunsIf t chk (symlink fails t d)
unfolding symlink entry_of
symlink-RunsIf fails t chk d other there =
    if_elim (RunsIf t chk) (fails || exists (entry_of builder_run_dir d)) (λ e. inl refl)
      (λ free. inr (linked, rw other there))
  where
    linked : entry_of builder_run_dir ((builder_run_dir, link t) ∷ d) ≡ some (link t)
    linked = rw (text_eq_refl builder_run_dir, entry_of) refl

link_run-RunsIf :
    (f : Faults) (t : Text) (chk : ℕ) (d : Root)
    → text_eq builder_run_dir t ≡ false
    → entry_of t d ≡ some (folder (some chk))
    → RunsIf t chk (link_run f t d)
unfolding link_run unlink_run
link_run-RunsIf f t chk d other there =
    if_elim (RunsIf t chk) (symlink (f.symlink_fails 0) t d).1
      (λ e. symlink-RunsIf (f.symlink_fails 0) t chk d other there)
      (λ e.
        symlink-RunsIf (f.symlink_fails 1) t chk (rm f builder_run_dir d) other
          (entry_of-rm f t builder_run_dir d other ∙ there))

archive_differs : (stamp : Text) → text_eq builder_run_dir (archive_name stamp) ≡ false
unfolding text_eq
archive_differs stamp = refl

run_differs : text_eq builder_build_dir builder_run_dir ≡ false
unfolding text_eq
run_differs = refl

post_build-RunsIf :
    (f : Faults) (stamp : Text) (chk : ℕ) (d : Root)
    → RunsIf (archive_name stamp) chk (post_build f stamp chk d)
unfolding post_build archive publish entry_of
post_build-RunsIf f stamp chk d =
    let t = archive_name stamp in
    let u = unlink_run f d in
    if_elim (RunsIf t chk)
      (f.rename_fails || (exists (entry_of t u) || not (exists (entry_of builder_build_dir u))))
      (λ e. inl refl)
      λ renamed.
        if_elim (RunsIf t chk) f.write_fails (λ e. inl refl)
          (λ written.
            link_run-RunsIf f t chk ((t, folder (some chk)) ∷ without_entry builder_build_dir u)
              (archive_differs stamp) (first_entry t _ _))
  where
    first_entry : (t : Text) (k : Kind) (r : Root) → entry_of t ((t, k) ∷ r) ≡ some k
    first_entry t k r = rw (text_eq_refl t, entry_of) refl

finish-RunsIf :
    (f : Faults) (t : Text) (chk : ℕ) (r : Result) → RunsIf t chk r → RunsIf t chk (finish f r)
finish-RunsIf f t chk (d, true) (inl e) = absurd (ground arith)
finish-RunsIf f t chk (d, true) (inr runs) = inr runs
finish-RunsIf f t chk (d, false) h = inl refl

run_build-RunsIf :
    (f : Faults) (stamp : Text) (chk : ℕ) (builds : Bool) (d : Root)
    → RunsIf (archive_name stamp) chk (run_build f stamp chk builds d)
unfolding run_build
run_build-RunsIf f stamp chk builds d =
    let t = archive_name stamp in
    if_elim (RunsIf t chk) (pre_build f d).1
      (λ e.
        if_elim (RunsIf t chk) builds
          (λ b.
            finish-RunsIf f t chk (post_build f stamp chk (pre_build f d).0)
              (post_build-RunsIf f stamp chk (pre_build f d).0))
          (λ b. inl refl))
      (λ e. inl e)

-- `PreBuild` and `AbortBuild` leave what `.run` leads to.
pre_build-entry :
    (f : Faults) (d : Root) (t m : Text)
    → target_of (entry_of builder_run_dir d) ≡ some t
    → text_eq builder_build_dir m ≡ false
    → (text_eq m t || text_eq m builder_run_dir) ≡ true
    → entry_of m (pre_build f d).0 ≡ entry_of m d
unfolding pre_build entry_of
pre_build-entry f d t m run other safe =
    let kept = clean-run f t m d run safe in
    if_elim (λ (r : Result). entry_of m r.0 ≡ entry_of m d)
      (f.mkdir_fails || exists (entry_of builder_build_dir (clean f d))) (λ e. kept)
      (λ e. rw other kept)

failed-entry :
    (f : Faults) (stamp : Text) (chk : ℕ) (d : Root) (t m : Text)
    → target_of (entry_of builder_run_dir d) ≡ some t
    → text_eq builder_build_dir m ≡ false
    → (text_eq m t || text_eq m builder_run_dir) ≡ true
    → entry_of m (run_build f stamp chk false d).0 ≡ entry_of m d
unfolding run_build abort_build
failed-entry f stamp chk d t m run other safe =
    let kept = pre_build-entry f d t m run other safe in
    if_elim (λ (r : Result). entry_of m r.0 ≡ entry_of m d) (pre_build f d).1
      (λ e. entry_of-rm f m builder_build_dir (pre_build f d).0 other ∙ kept) (λ e. kept)

-- A build that `RunBuild` reports as done runs: `.run` leads to the archive of its timestamp, which has
-- its build id.
pub run_build_done :
    (f : Faults) (stamp : Text) (chk : ℕ) (builds : Bool) (d : Root)
    → (run_build f stamp chk builds d).1 ≡ true
    → let d' = (run_build f stamp chk builds d).0 in
      let t = archive_name stamp in
      (entry_of builder_run_dir d' ≡ some (link t)) × (entry_of t d' ≡ some (folder (some chk)))
run_build_done f stamp chk builds d ok = elim (run_build-RunsIf f stamp chk builds d) [
  | inl failed ↦ absurd (ground arith)
  | inr runs ↦ runs
]

-- A build that does not come as far as `PostBuild` leaves the running build alone, if it does not run
-- in `.build` itself.
pub run_build-run :
    (f : Faults) (stamp : Text) (chk : ℕ) (d : Root) (t : Text)
    → target_of (entry_of builder_run_dir d) ≡ some t
    → text_eq builder_build_dir t ≡ false
    → let d' = (run_build f stamp chk false d).0 in
      (entry_of builder_run_dir d' ≡ entry_of builder_run_dir d) × (entry_of t d' ≡ entry_of t d)
run_build-run f stamp chk d t run other = (
  failed-entry f stamp chk d t builder_run_dir run run_differs
      (or_true (text_eq builder_run_dir t)),
  failed-entry f stamp chk d t t run other (rw (text_eq_refl t) refl),
)
  where
    or_true : (b : Bool) → (b || text_eq builder_run_dir builder_run_dir) ≡ true
    or_true b = let e = text_eq_refl builder_run_dir in ground arith
