-- ===== src/Service/Builds.antt =====
-- service/build_files.go: the directories of the builds of a service, in one root. A name is a text, an
-- entry a folder, with the build id that its file `.buildid` holds, a link or something else. Links
-- lead to names of the root. Which calls of the system fail is an argument; so are the timestamp and
-- whether the build itself succeeds.
pub mod Linking
mod Tests
use pmesh.Base.{
  ℕ, zero, suc, Bool, true, false, not, ◌&&◌, ◌||◌, Option, none, some, List, [], ◌∷◌, ◌++◌,
  if◌then◌else◌,
}
use pmesh.Base.Text.{Text, codes, text_eq, has_prefix}

pub data Kind : Type 0 where
  folder : (build_id : Option ℕ) → Kind
  link : (target : Text) → Kind
  other : Kind

abbrev pub Root : Type 0
Root = List (Text × Kind)

abbrev pub builder_run_dir : Text
builder_run_dir = codes ".run"

abbrev pub builder_build_dir : Text
builder_build_dir = codes ".build"

abbrev pub builder_archive_prefix : Text
builder_archive_prefix = codes ".build-"

-- Which calls of the system fail; a symbolic link is tried twice.
pub record Faults : Type 0 where
  pub rm_fails : Text → Bool
  pub mkdir_fails : Bool
  pub rename_fails : Bool
  pub write_fails : Bool
  pub symlink_fails : ℕ → Bool

unfoldable pub entry_of : Text → Root → Option Kind
entry_of n [] = none
entry_of n (e ∷ d) = if text_eq e.0 n then some e.1 else entry_of n d

unfoldable pub without_entry : Text → Root → Root
without_entry n [] = []
without_entry n (e ∷ d) = let rest = without_entry n d in if text_eq e.0 n then rest else e ∷ rest

-- `rm`
unfoldable pub rm : Faults → Text → Root → Root
rm f n d = if f.rm_fails n then d else without_entry n d

-- The names that `Folders` looks at, and the kinds.
abbrev pub is_build_name : Text → Bool
is_build_name n =
    text_eq n builder_run_dir
    || (text_eq n builder_build_dir || has_prefix n builder_archive_prefix)

abbrev pub is_folder_or_link : Kind → Bool
is_folder_or_link (folder _) = true
is_folder_or_link (link _) = true
is_folder_or_link other = false

-- The value of `Folders` at `.run`: where it leads, if it is a link.
abbrev pub target_of : Option Kind → Option Text
target_of (some (link t)) = some t
target_of _ = none

-- The names that `Clean` takes out of the map before it removes the rest.
abbrev pub spared : Option Text → Text → Bool
spared none n = false
spared (some t) n = text_eq n t || text_eq n builder_run_dir

unfoldable pub doomed : Option Text → Root → List Text
doomed run [] = []
doomed run (e ∷ d) =
    let rest = doomed run d in
    if is_build_name e.0 && (is_folder_or_link e.1 && not (spared run e.0))
    then e.0 ∷ rest
    else rest

unfoldable pub rm_all : Faults → List Text → Root → Root
rm_all f [] d = d
rm_all f (n ∷ ns) d = rm_all f ns (rm f n d)

-- `Clean`
unfoldable pub clean : Faults → Root → Root
clean f d = rm_all f (doomed (target_of (entry_of builder_run_dir d)) d) d

abbrev pub exists : Option Kind → Bool
exists none = false
exists (some k) = true

-- The root behind a step, and whether there was no error.
abbrev pub Result : Type 0
Result = Root × Bool

-- `PreBuild`
unfoldable pub pre_build : Faults → Root → Result
pre_build f d =
    let c = clean f d in
    if f.mkdir_fails || exists (entry_of builder_build_dir c)
    then (c, false)
    else ((builder_build_dir, folder none) ∷ c, true)

-- `AbortBuild`
unfoldable pub abort_build : Faults → Root → Root
abort_build f d = rm f builder_build_dir d

-- `UnlinkRun`, whose error no caller reads.
unfoldable pub unlink_run : Faults → Root → Root
unlink_run f d = rm f builder_run_dir d

-- os.Symlink at `.run`
unfoldable pub symlink : Bool → Text → Root → Result
symlink fails t d =
    if fails || exists (entry_of builder_run_dir d)
    then (d, false)
    else ((builder_run_dir, link t) ∷ d, true)

-- `LinkRun`
unfoldable pub link_run : Faults → Text → Root → Result
link_run f t d =
    let first = symlink (f.symlink_fails 0) t d in
    if first.1 then first else symlink (f.symlink_fails 1) t (unlink_run f d)

-- The name of the archive.
abbrev pub archive_name : Text → Text
archive_name stamp = builder_archive_prefix ++ stamp

-- `PostBuild` behind the rename: the build id and the link.
unfoldable pub publish : Faults → Text → ℕ → Root → Result
publish f t chk d =
    if f.write_fails
    then ((t, folder none) ∷ d, false)
    else link_run f t ((t, folder (some chk)) ∷ d)

-- os.Rename of `.build`, and the rest of `PostBuild`.
unfoldable pub archive : Faults → Text → ℕ → Root → Result
archive f t chk d =
    if f.rename_fails || (exists (entry_of t d) || not (exists (entry_of builder_build_dir d)))
    then (d, false)
    else publish f t chk (without_entry builder_build_dir d)

-- `PostBuild`
unfoldable pub post_build : Faults → Text → ℕ → Root → Result
post_build f stamp chk d = archive f (archive_name stamp) chk (unlink_run f d)

-- The end of `RunBuild`.
abbrev pub finish : Faults → Result → Result
finish f (d, ok) = if ok then (d, true) else (abort_build f d, false)

-- `RunBuild`, where `builds` says whether the callback succeeds.
unfoldable pub run_build : Faults → Text → ℕ → Bool → Root → Result
run_build f stamp chk builds d =
    let pre = pre_build f d in
    if pre.1
    then (if builds then finish f (post_build f stamp chk pre.0) else finish f (pre.0, false))
    else pre
