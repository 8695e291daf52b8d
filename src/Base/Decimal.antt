-- ===== src/Base/Decimal.antt =====
-- Decimal texts, the way strconv reads them.
use Prim.Native.Nat.{ℕ, ◌+◌, ◌-◌, ◌*◌, ◌^◌}
use mathlib.Core.Bool.{Bool, ◌&&◌}
use mathlib.Core.List.{List, [], ◌∷◌}
use mathlib.Core.Option.{Option, none, some}
use pmesh.Base.Tests.{ltb, leb, if◌then◌else◌}
use pmesh.Base.Int.{ℤ, pos, negsuc}

abbrev pub is_digit : ℕ → Bool
is_digit c = leb 48 c && leb c 57

-- The value of the digits of a text, behind those read so far; none where one is no digit.
unfoldable pub digits_value : ℕ → List ℕ → Option ℕ
digits_value n [] = some n
digits_value n (c ∷ s) =
    let rest = digits_value (10 * n + (c - 48)) s in if is_digit c then rest else none

abbrev pub natural : List ℕ → Option ℕ
natural [] = none
natural (c ∷ s) = digits_value 0 (c ∷ s)

abbrev positive : Option ℕ → Option ℤ
positive none = none
positive (some n) = if ltb n (2 ^ 63) then some (pos n) else none

abbrev negative : Option ℕ → Option ℤ
negative none = none
negative (some n) =
    if leb n (2 ^ 63) then some (if ltb 0 n then negsuc (n - 1) else pos 0) else none

-- strconv.Atoi, for 64 bits: none is its error.
unfoldable pub atoi : List ℕ → Option ℤ
atoi [] = none
atoi (c ∷ s) =
    if leb c 43 && leb 43 c
    then positive (natural s)
    else if leb c 45 && leb 45 c
    then negative (natural s)
    else positive (natural (c ∷ s))
