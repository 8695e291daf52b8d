-- ===== src/Xlog/Filter.antt =====
-- xlog/parser_filter.go: the filters that select the lines of the logs. A line is what its parser
-- returns: its time, if it is not the zero time, its domain and its level. `As` is left out.
use pmesh.Base.{
  ℕ, Bool, true, false, not, ◌&&◌, ◌||◌, Option, none, some, List, [], ◌∷◌, ltb, if◌then◌else◌,
}
use pmesh.Base.Int.{ℤ, leb_ℤ}
use pmesh.Base.Text.{Text, codes, text_eq, has_prefix}

pub record Line : Type 0 where
  pub time : Option ℕ
  pub domain : Text
  pub level : ℤ

pub record FileInfo : Type 0 where
  pub name : Text
  pub last_use : ℕ

-- The two flags that a filter reads.
pub record StreamFlags : Type 0 where
  pub tail : Bool
  pub head : Bool

mutual
  pub data Filter : Type 0 where
    search : Text → Filter
    between : Option ℕ → Option ℕ → Filter
    domain_ : Text → Filter
    level_ : ℤ → Filter
    multi : Filters → Filter

  pub data Filters : Type 0 where
    end : Filters
    also : Filter → Filters → Filters

-- strings.Contains
unfoldable pub contains : Text → Text → Bool
contains [] p = has_prefix [] p
contains (c ∷ s) p = has_prefix (c ∷ s) p || contains s p

unfoldable mutual
  -- `TestRaw`
  pub test_raw : Filter → Text → Bool
  test_raw (search p) raw = contains raw p
  test_raw (between after before) raw = true
  test_raw (domain_ d) raw = contains raw d
  test_raw (level_ l) raw = true
  test_raw (multi fs) raw = test_raw_all fs raw

  pub test_raw_all : Filters → Text → Bool
  test_raw_all end raw = true
  test_raw_all (also f fs) raw = test_raw f raw && test_raw_all fs raw

abbrev pub is_before : ℕ → Option ℕ → Bool
is_before t none = false
is_before t (some bound) = ltb t bound

abbrev pub is_after : ℕ → Option ℕ → Bool
is_after t none = false
is_after t (some bound) = ltb bound t

-- `TimeFilter.Test`
unfoldable pub test_time : Option ℕ → Option ℕ → Option ℕ → StreamFlags → Bool × Bool
test_time after before none flags = (false, false)
test_time after before (some t) flags =
    if is_before t after
    then (false, flags.tail)
    else if is_after t before
    then (false, flags.head)
    else (true, false)

-- The loop of `MultiFilter.Test`, on the result of one filter.
abbrev pub go_on : Bool × Bool → Bool × Bool → Bool × Bool
go_on (inc, true) rest = (inc, true)
go_on (false, false) rest = (false, false)
go_on (true, false) rest = rest

unfoldable mutual
  -- `Test`: whether the line is included, and whether to stop.
  pub test : Filter → Line → StreamFlags → Bool × Bool
  test (search p) line flags = (true, false)
  test (between after before) line flags = test_time after before line.time flags
  test (domain_ d) line flags = (text_eq line.domain d, false)
  test (level_ l) line flags = (leb_ℤ l line.level, false)
  test (multi fs) line flags = test_all fs line flags

  pub test_all : Filters → Line → StreamFlags → Bool × Bool
  test_all end line flags = (true, false)
  test_all (also f fs) line flags = go_on (test f line flags) (test_all fs line flags)

unfoldable mutual
  -- `TestFile`
  pub test_file : Filter → FileInfo → Bool
  test_file (search p) fi = true
  test_file (between after before) fi = not (is_before fi.last_use after)
  test_file (domain_ d) fi = text_eq fi.name (codes "session") || has_prefix fi.name d
  test_file (level_ l) fi = true
  test_file (multi fs) fi = test_file_all fs fi

  pub test_file_all : Filters → FileInfo → Bool
  test_file_all end fi = true
  test_file_all (also f fs) fi = test_file f fi && test_file_all fs fi

unfoldable pub join_filters : Filters → Filters → Filters
join_filters end gs = gs
join_filters (also f fs) gs = also f (join_filters fs gs)

abbrev flatten : Filter → Filters
flatten (multi fs) = fs
flatten (search p) = also (search p) end
flatten (between after before) = also (between after before) end
flatten (domain_ d) = also (domain_ d) end
flatten (level_ l) = also (level_ l) end

-- What `MultiFilter.Append` adds for an element of its list; none is nil.
abbrev pub flattened : Option Filter → Filters
flattened none = end
flattened (some f) = flatten f

-- `MultiFilter.Append`
unfoldable pub append : Filters → List (Option Filter) → Filters
append fs [] = fs
append fs (f ∷ list) = append (join_filters fs (flattened f)) list
