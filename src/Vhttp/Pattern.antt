-- ===== src/Vhttp/Pattern.antt =====
-- vhttp/pattern.go: patterns over host and path, and how they are read. A text is a list of
-- characters. The regular expressions are those of Go's regexp package: `compile` stands for
-- regexp.Compile and gives, where it accepts, the test MatchString.
pub mod Matching
pub mod Reading
use pmesh.Base.{
  ℕ, zero, suc, ◌+◌, ◌-◌, Bool, true, false, not, ◌&&◌, ◌||◌, Option, none, some, List, [], ◌∷◌,
  ◌++◌, ◌==◌, leb, if◌then◌else◌, length, take, drop,
}
use pmesh.Base.Text.{Text, codes, text_eq, has_prefix, has_suffix}

mutual
  pub data Matcher : Type 0 where
    regex : (Text → Bool) → Matcher
    prefix : Text → Matcher
    suffix : Text → Matcher
    exact : Text → Matcher
    any_of : Matchers → Matcher

  pub data Matchers : Type 0 where
    end : Matchers
    also : Matcher → Matchers → Matchers

-- `patternPrefix.Match`
unfoldable pub match_prefix : Text → Text → Text → Bool
match_prefix p host path =
    if leb (length p) (length host)
    then text_eq (take (length p) host) p
    else if not (text_eq host (take (length host) p))
    then false
    else has_prefix path (drop (length host) p)

-- `patternSuffix.Match`
unfoldable pub match_suffix : Text → Text → Text → Bool
match_suffix p host path =
    if leb (length p) (length path)
    then text_eq (drop (length path - length p) path) p
    else (let pos = length p - length path in
        if not (text_eq path (drop pos p)) then false else has_suffix host (take pos p))

-- `patternExact.Match`
unfoldable pub match_exact : Text → Text → Text → Bool
match_exact p host path =
    if not (length p == length host + length path)
    then false
    else text_eq host (take (length host) p) && text_eq path (drop (length host) p)

unfoldable mutual
  pub matches : Matcher → Text → Text → Bool
  matches (regex rule) host path = rule (host ++ path)
  matches (prefix p) host path = match_prefix p host path
  matches (suffix p) host path = match_suffix p host path
  matches (exact p) host path = match_exact p host path
  matches (any_of set) host path = matches_any set host path

  pub matches_any : Matchers → Text → Text → Bool
  matches_any end host path = false
  matches_any (also m set) host path = matches m host path || matches_any set host path

-- A pattern with no matcher, the wildcard, is `none`.
unfoldable pub match_pattern : Option Matcher → Text → Text → Bool
match_pattern none host path = true
match_pattern (some m) host path = matches m host path

-- unicode.IsSpace, for strings.TrimSpace
unfoldable pub is_space : ℕ → Bool
is_space c =
    (leb 9 c && leb c 13)
    || c == 32
    || c == 0x85
    || c == 0xA0
    || c == 0x1680
    || (leb 0x2000 c && leb c 0x200a)
    || c == 0x2028
    || c == 0x2029
    || c == 0x202f
    || c == 0x205f
    || c == 0x3000

-- The characters that `UnmarshalText` folds into one blank.
unfoldable pub is_folded : ℕ → Bool
is_folded c = (leb 9 c && leb c 13) || c == 32 || c == 0x85 || c == 0xA0

unfoldable pub trim_left : Text → Text
trim_left [] = []
trim_left (c ∷ s) = if is_space c then trim_left s else c ∷ s

unfoldable pub trim_right : Text → Text
trim_right [] = []
trim_right (c ∷ s) = keep c (trim_right s)
  where
    keep : ℕ → Text → Text
    keep c [] = if is_space c then [] else c ∷ []
    keep c (d ∷ t) = c ∷ d ∷ t

-- The strings.Map of `UnmarshalText`; the Boolean is `prevSpace`.
unfoldable pub squeeze : Bool → Text → Text
squeeze prev [] = []
squeeze prev (c ∷ s) =
    let rest = squeeze (is_folded c) s in
    if is_folded c then (if prev then rest else 32 ∷ rest) else c ∷ rest

unfoldable pub normalise : Text → Text
unfolding trim_left trim_right squeeze
normalise s = squeeze false (trim_left (trim_right s))

-- strings.Contains and strings.Split at ", "
unfoldable pub contains_comma : Text → Bool
contains_comma [] = false
contains_comma (c ∷ []) = false
contains_comma (c ∷ d ∷ s) = (c == 44 && d == 32) || contains_comma (d ∷ s)

unfoldable pub split_comma : Text → Text → List Text
split_comma cur [] = cur ∷ []
split_comma cur (c ∷ []) = (cur ++ c ∷ []) ∷ []
split_comma cur (c ∷ d ∷ s) = elim (c == 44 && d == 32) [
  | true ↦ cur ∷ split_comma [] s
  | false ↦ split_comma (cur ++ c ∷ []) (d ∷ s)
]

-- What reading gives: a pattern, an error of the regexp package, or nothing where the fuel ends.
pub data Parsed : Type 0 where
  read : Option Matcher → Parsed
  invalid : Parsed
  out_of_fuel : Parsed

abbrev pub Compile : Type 0
Compile = Text → Option (Text → Bool)

abbrev drop_last : Text → Text
drop_last s = take (length s - 1) s

abbrev from_regex : Option (Text → Bool) → Parsed
from_regex none = invalid
from_regex (some rule) = read (some (regex rule))

-- The cases of `UnmarshalText` that need no set.
unfoldable pub read_single : Compile → Text → Parsed
read_single compile s =
    if has_prefix s (codes "~")
    then from_regex (compile (drop 1 s))
    else if has_prefix s (codes "+")
    then read (some (suffix (drop 1 s)))
    else if has_suffix s (codes "+")
    then read (some (prefix (drop_last s)))
    else if has_suffix s (codes "/")
    then read (some (prefix s))
    else read (some (exact s))

-- `newPatternSet` over what each piece reads as: an error ends it, a wildcard is left out.
pub data SetParsed : Type 0 where
  set_read : Matchers → SetParsed
  set_invalid : SetParsed
  set_out_of_fuel : SetParsed

abbrev add_reading : Parsed → SetParsed → SetParsed
add_reading out_of_fuel r = set_out_of_fuel
add_reading invalid r = set_invalid
add_reading (read none) r = r
add_reading (read (some m)) (set_read ms) = set_read (also m ms)
add_reading (read (some m)) set_invalid = set_invalid
add_reading (read (some m)) set_out_of_fuel = set_out_of_fuel

unfoldable pub read_set : (Text → Parsed) → List Text → SetParsed
read_set f [] = set_read end
read_set f (s ∷ ss) = add_reading (f s) (read_set f ss)

abbrev close_set : SetParsed → Parsed
close_set (set_read ms) = read (some (any_of ms))
close_set set_invalid = invalid
close_set set_out_of_fuel = out_of_fuel

-- `UnmarshalText`, on fuel: a set's pieces are read the same way.
unfoldable pub unmarshal : ℕ → Compile → Text → Parsed
unfolding normalise
unmarshal zero compile text = out_of_fuel
unmarshal (suc fuel) compile text =
    let s = normalise text in
    elim (text_eq s (codes "_") || text_eq s []) [
      | true ↦ read none
      | false ↦ elim (contains_comma s) [
        | true ↦ close_set (read_set (unmarshal fuel compile) (split_comma [] s))
        | false ↦ read_single compile s
      ]
    ]

-- `NewPattern`, with fuel for every text.
unfoldable pub new_pattern : Compile → Text → Parsed
new_pattern compile text = unmarshal (suc (length text)) compile text
