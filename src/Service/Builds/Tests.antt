-- ===== src/Service/Builds/Tests.antt =====
-- Builds of service/build_files.go in a small root.
use pmesh.Base.{◌≡◌, refl, true, false, none, some, [], ◌∷◌}
use pmesh.Base.Text.{codes, text_eq, has_prefix}
use pmesh.Service.Builds.{
  Root, Faults, folder, link, builder_run_dir, entry_of, without_entry, rm, doomed, rm_all, clean,
  pre_build, abort_build, unlink_run, symlink, link_run, archive_name, publish, archive, post_build,
  run_build,
}
use pmesh.Service.Builds.Linking.{run_build_done, run_build-run}

abbrev no_faults : Faults
no_faults = record {
  rm_fails = λ n. false;
  mkdir_fails = false;
  rename_fails = false;
  write_fails = false;
  symlink_fails = λ i. false;
}

-- The build 1 runs; the build 0 and a build that broke off are left over.
abbrev root : Root
root =
    (codes ".run", link (codes ".build-1"))
    ∷ (codes ".build-0", folder (some 40))
    ∷ (codes ".build-1", folder (some 41))
    ∷ (codes ".build", folder none)
    ∷ (codes "src", folder none)
    ∷ []

cleaned :
    clean no_faults root
    ≡ (codes ".run", link (codes ".build-1"))
      ∷ (codes ".build-1", folder (some 41))
      ∷ (codes "src", folder none)
      ∷ []
unfolding clean doomed rm_all rm without_entry entry_of text_eq has_prefix
cleaned = refl

built : (run_build no_faults (codes "2") 42 true root).1 ≡ true
unfolding run_build pre_build post_build archive publish link_run symlink unlink_run clean doomed
    rm_all rm without_entry entry_of text_eq has_prefix
built = refl

-- The rename fails: the old build is not linked any more.
unlinked_early :
    entry_of builder_run_dir
      (run_build (record no_faults { rename_fails = true }) (codes "2") 42 true root).0
    ≡ none
unfolding run_build pre_build post_build archive publish link_run symlink unlink_run abort_build
    clean doomed rm_all rm without_entry entry_of text_eq has_prefix
unlinked_early = refl

run_build_done_example :
    let d' = (run_build no_faults (codes "2") 42 true root).0 in
    let t = archive_name (codes "2") in
    (entry_of builder_run_dir d' ≡ some (link t)) × (entry_of t d' ≡ some (folder (some 42)))
run_build_done_example = run_build_done no_faults (codes "2") 42 true root built

run_build-run_example :
    let d' = (run_build no_faults (codes "2") 42 false root).0 in
    (entry_of builder_run_dir d' ≡ entry_of builder_run_dir root)
    × (entry_of (codes ".build-1") d' ≡ entry_of (codes ".build-1") root)
unfolding entry_of text_eq
run_build-run_example = run_build-run no_faults (codes "2") 42 root (codes ".build-1") refl refl
