-- ===== src/Hosts.antt =====
-- hosts/domains.go: the domains that a host name lies under. Files is hosts/parsing.go.
pub mod Ranges
pub mod Files
pub mod Insert
pub mod Lines
mod Tests
use pmesh.Base.{
  ℕ, ◌-◌, Bool, true, false, ◌&&◌, ◌||◌, Option, none, some, List, [], ◌∷◌, ◌++◌, ◌==◌, leb,
  if◌then◌else◌, length, get_elem?, take, drop,
}
use pmesh.Base.Text.{Text, codes, text_eq, has_suffix}

-- `needle[at-1] == '.'`
abbrev is_dot : Option ℕ → Bool
is_dot none = false
is_dot (some c) = c == 46

-- `Match`: what stands in front of the root, if the name lies under it.
unfoldable pub match_root : Text → Text → Option Text
match_root root needle =
    let at = length needle - length root in
    if leb (length root) (length needle) && text_eq (drop at needle) root
    then (if at == 0
        then some []
        else if is_dot (get_elem? needle (at - 1))
        then some (take at needle)
        else none)
    else none

-- The pairs of key and sub that the loop of `Range` passes on behind the first.
unfoldable pub range_from : Text → Text → List (Text × Text)
range_from sub [] = []
range_from sub (c ∷ s) =
    let next = sub ++ c ∷ [] in
    let rest = range_from next s in if c == 46 then (s, next) ∷ rest else rest

-- `Range`: all the pairs, where the function never stops it.
unfoldable pub ranges : Text → List (Text × Text)
ranges v = (v, []) ∷ range_from [] v

-- `MatchMap`: the first pair whose key is in the map stops the loop.
module _ {ℓ} {V : Type ℓ} where
  unfoldable pub first_match : (Text → Option V) → List (Text × Text) → Option (Text × Text × V)
  first_match m [] = none
  first_match m ((key, sub) ∷ rest) = elim (m key) [
    | none ↦ first_match m rest
    | some v ↦ some (key, sub, v)
  ]

  unfoldable pub match_map : (Text → Option V) → Text → Option (Text × Text × V)
  match_map m needle = first_match m (ranges needle)

  -- `TestMap`
  unfoldable pub test_map : (Text → Option V) → Text → Bool
  test_map m needle = elim (match_map m needle) [
    | none ↦ false
    | some (root, sub, v) ↦ if text_eq root [] then false else true
  ]

-- `localhosts[host]`
unfoldable pub is_localhost : Text → Bool
is_localhost host =
    text_eq host (codes "localhost")
    || text_eq host (codes "[::1]")
    || text_eq host (codes "127.0.0.1")

unfoldable pub is_local : Text → Bool
is_local host = has_suffix host (codes ".local") || is_localhost host

unfoldable pub is_private : Text → Bool
is_private host =
    has_suffix host (codes ".internal") || has_suffix host (codes ".local") || is_localhost host
