-- ===== src/Service/App.antt =====
-- service/svc_app.go: `Prepare`, which checks and completes the configuration of an app.
-- `filepath.Join` is an argument, as are the number of processors and the operations on float64.
use pmesh.Base.{
  ℕ, Bool, true, false, not, ◌&&◌, ◌||◌, Option, none, some, List, [], ◌∷◌, ◌++◌, ltb, leb, ◌==◌,
  if◌then◌else◌, length, take, max,
}
use pmesh.Base.Int.{ℤ, pos, negsuc, ◌*ℤ◌, quot_ℤ, i64, leb_ℤ}
use pmesh.Base.Text.{Text, codes, has_suffix}
use pmesh.Base.Decimal.{is_digit, atoi}
use pmesh.Retry.{or_else}

-- float64: its comparisons and the numbers that the code names.
pub record Floats {ℓ} (F : Type ℓ) : Type ℓ where
  pub lt : F → F → Bool
  pub le : F → F → Bool
  pub eq : F → F → Bool
  pub zero_ : F
  pub upscale_default : F
  pub downscale_default : F

pub record AppService {ℓ} (F : Type ℓ) : Type ℓ where
  pub name : Text
  pub service_root : Text
  pub root : Text
  pub log_file : Text
  pub env_host : Text
  pub env_port : Text
  pub env_listen : Text
  pub cluster : Text
  pub cluster_min_text : Text
  pub checks : List Text
  pub background : Bool
  pub ready_timeout : ℤ
  pub stop_timeout : ℤ
  pub slow_start : Bool
  pub max_memory : ℤ
  pub auto_scale : Bool
  pub auto_scale_streak : ℤ
  pub auto_scale_defer : ℤ
  pub upscale_percent : F
  pub downscale_percent : F
  pub cluster_n : ℕ
  pub cluster_min : ℕ

pub record AppOptions : Type 0 where
  pub name : Text
  pub service_root : Text

pub data PrepareError : Type 0 where
  name_required invalid_character invalid_cluster : PrepareError

pub data Prepared {ℓ} (A : Type ℓ) : Type ℓ where
  ok : A → Prepared A
  failed : PrepareError → Prepared A

-- `strings.ContainsRune(nameRunes, chr)`
unfoldable pub name_rune : ℕ → Bool
name_rune c =
    (leb 97 c && leb c 122) || (leb 65 c && leb c 90) || is_digit c || c == 45 || c == 95 || c == 46

unfoldable pub name_runes : Text → Bool
name_runes [] = true
name_runes (c ∷ s) = name_rune c && name_runes s

-- `max(n, 1)` of an int
abbrev pub at_least_one : ℤ → ℕ
at_least_one (pos n) = max n 1
at_least_one (negsuc n) = 1

abbrev pub scaled : ℕ → Option ℤ → Option ℕ
scaled cpus none = none
scaled cpus (some n) = some (at_least_one (quot_ℤ (i64 (n *ℤ pos cpus)) 100))

abbrev pub plain : Option ℤ → Option ℕ
plain none = none
plain (some n) = some (at_least_one n)

-- The body of the loop over `crange`.
unfoldable pub cluster_size : ℕ → Text → Option ℕ
cluster_size cpus [] = some 1
cluster_size cpus (c ∷ s) =
    if has_suffix (c ∷ s) (codes "%")
    then scaled cpus (atoi (take (length s) (c ∷ s)))
    else plain (atoi (c ∷ s))

-- `cmp.Or`
abbrev pub or_text : Text → Text → Text
or_text [] d = d
or_text (c ∷ s) d = c ∷ s

abbrev is_abs : Text → Bool
is_abs [] = false
is_abs (c ∷ s) = c == 47

abbrev app_root : (Text → Text → Text) → Text → Text → Text → Text
app_root join service_root name [] = join service_root name
app_root join service_root name (c ∷ s) =
    if is_abs (c ∷ s) then c ∷ s else join service_root (c ∷ s)

abbrev with_checks : List Text → Bool → List Text
with_checks [] background = if background then [] else codes "tcp" ∷ []
with_checks (c ∷ cs) background = c ∷ cs

module _ {ℓ} {F : Type ℓ} (fl : Floats F) where
  -- The defaults of auto-scaling, at the end of `Prepare`.
  unfoldable pub scale_defaults : AppService F → AppService F
  scale_defaults app =
      if not app.auto_scale
      then record app { cluster_min = app.cluster_n }
      else if app.cluster_n == 1
      then record app { auto_scale = false }
      else record app {
        auto_scale_defer = or_else app.auto_scale_defer (pos 30_000_000_000);
        auto_scale_streak =
            if leb_ℤ app.auto_scale_streak (pos 0) then pos 30 else app.auto_scale_streak;
        upscale_percent =
            if fl.le app.upscale_percent fl.zero_ then fl.upscale_default else app.upscale_percent;
        downscale_percent =
            if fl.eq app.downscale_percent fl.zero_
            then fl.downscale_default
            else app.downscale_percent;
      }

  -- What `Prepare` sets before the auto-scaling, with the two numbers of instances.
  unfoldable pub complete : (Text → Text → Text) → AppOptions → ℕ → ℕ → AppService F → AppService F
  complete join opt n least app = record app {
    name = opt.name;
    service_root = opt.service_root;
    log_file = or_text app.log_file (opt.name ++ codes ".log");
    env_host = or_text app.env_host (codes "HOST");
    env_listen = or_text app.env_listen (codes "LISTEN");
    env_port = or_text app.env_port (codes "PORT");
    root = app_root join opt.service_root opt.name app.root;
    cluster_n = if ltb n least then least else n;
    cluster_min = least;
    checks = with_checks app.checks app.background;
    ready_timeout = or_else app.ready_timeout (pos 30_000_000_000);
    stop_timeout = or_else app.stop_timeout (pos 10_000_000_000);
  }

  abbrev pub sized :
      (Text → Text → Text)
      → AppOptions
      → AppService F
      → Option ℕ
      → Option ℕ
      → Prepared (AppService F)
  sized join opt app none least = failed invalid_cluster
  sized join opt app (some n) none = failed invalid_cluster
  sized join opt app (some n) (some least) = ok (scale_defaults (complete join opt n least app))

  abbrev pub is_empty : Text → Bool
  is_empty [] = true
  is_empty (c ∷ s) = false

  -- `Prepare`
  unfoldable pub prepare :
      (Text → Text → Text) → ℕ → AppOptions → AppService F → Prepared (AppService F)
  prepare join cpus opt app =
      if is_empty opt.name
      then failed name_required
      else if not (name_runes opt.name)
      then failed invalid_character
      else sized join opt app (cluster_size cpus app.cluster)
          (cluster_size cpus app.cluster_min_text)
