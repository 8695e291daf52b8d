-- ===== src/Base/Bits.antt =====
-- Masks and disjoint unions of bits, from the digit recursions that the native operations stand for.
use Prim.Native.Nat.{
  ℕ, zero, suc, ◌+◌, ◌*◌, ◌/◌, ◌%◌, ◌^◌, ◌≤◌, ◌<◌, min, max, bit_and, bit_or, digits,
  bit_and-bitwise, bit_or-bitwise,
}
use mathlib.Core.Path.{◌≡◌, refl, sym, ap, ◌∙◌}
use native.Mathlib.Omega.{arith}
use native.Mathlib.Nat.{
  mul-one, div-one, div-div-eq-div-mul, mul_comm, pow-suc, mul_assoc, mod-lt, mod-eq_of_lt,
  div-add-mod, add-mul-mod_self_left,
}

-- The digits that a bitwise operation computes need no more fuel than the first operand's value.
module _ (rest : ℕ → ℕ) (op : ℕ → ℕ → ℕ) where
  digits_any_fuel : (j k a b : ℕ) → a ≤ j → a ≤ k → digits rest op j a b ≡ digits rest op k a b
  digits_any_fuel j k zero b hj hk = from_zero j ∙ sym (from_zero k)
    where
      from_zero : (n : ℕ) → digits rest op n 0 b ≡ rest b
      from_zero zero = refl
      from_zero (suc n) = refl
  digits_any_fuel zero k (suc a) b hj hk = absurd (omega arith)
  digits_any_fuel (suc j) zero (suc a) b hj hk = absurd (omega arith)
  digits_any_fuel (suc j) (suc k) (suc a) b hj hk =
      ap (λ (t : ℕ). t * 2 + op (suc a % 2) (b % 2))
        (digits_any_fuel j k (suc a / 2) (b / 2) (omega arith) (omega arith))

  -- One digit is split off, of any operation that is computed this way.
  digits_split :
      (bitwise : ℕ → ℕ → ℕ)
      → ((a b : ℕ) → bitwise a b ≡ digits rest op a a b)
      → (a b : ℕ) → bitwise (suc a) b ≡ bitwise (suc a / 2) (b / 2) * 2 + op (suc a % 2) (b % 2)
  digits_split bitwise def a b =
      def (suc a) b
      ∙ ap (λ (t : ℕ). t * 2 + op (suc a % 2) (b % 2))
          (digits_any_fuel a (suc a / 2) (suc a / 2) (b / 2) (omega arith) (omega arith)
            ∙ sym (def (suc a / 2) (b / 2)))

pub bit_and_step : (a b : ℕ) → bit_and a b ≡ bit_and (a / 2) (b / 2) * 2 + min (a % 2) (b % 2)
bit_and_step (suc a) b = digits_split (λ b. zero) min bit_and bit_and-bitwise a b
bit_and_step zero b = omega (arith, bit_and-bitwise 0 b, bit_and-bitwise 0 (b / 2))

pub zero-bit_or : (b : ℕ) → bit_or 0 b ≡ b
zero-bit_or b = bit_or-bitwise 0 b

pub bit_or_step : (a b : ℕ) → bit_or a b ≡ bit_or (a / 2) (b / 2) * 2 + max (a % 2) (b % 2)
bit_or_step (suc a) b = digits_split (λ b. b) max bit_or bit_or-bitwise a b
bit_or_step zero b = omega (arith, zero-bit_or b, zero-bit_or (b / 2))

vanishes : (f : ℕ → ℕ) → ((a : ℕ) → f a ≡ f (a / 2) * 2) → (n a : ℕ) → a ≤ n → f 0 ≡ 0 → f a ≡ 0
vanishes f half n zero le start = start
vanishes f half zero (suc a) le start = absurd (omega arith)
vanishes f half (suc n) (suc a) le start =
    omega (arith, half (suc a), vanishes f half n (suc a / 2) (omega arith) start)

pub bit_and-zero : (a : ℕ) → bit_and a 0 ≡ 0
bit_and-zero a =
    vanishes (λ x. bit_and x 0) (λ x. omega (arith, bit_and_step x 0)) a a (omega arith)
      (bit_and-bitwise 0 0)

stays :
    (f : ℕ → ℕ) → ((a : ℕ) → f a ≡ f (a / 2) * 2 + a % 2) → (n a : ℕ) → a ≤ n → f 0 ≡ 0 → f a ≡ a
stays f half n zero le start = start
stays f half zero (suc a) le start = absurd (omega arith)
stays f half (suc n) (suc a) le start =
    omega (arith, half (suc a), stays f half n (suc a / 2) (omega arith) start)

pub bit_or-zero : (a : ℕ) → bit_or a 0 ≡ a
bit_or-zero a =
    stays (λ x. bit_or x 0) (λ x. omega (arith, bit_or_step x 0)) a a (omega arith) (zero-bit_or 0)

-- A mask of ones in the lowest k digits of m keeps as many digits of a.
unfoldable pub ones : ℕ → ℕ
ones zero = 0
ones (suc k) = ones k * 2 + 1

low : ℕ → ℕ → ℕ
low zero a = 0
low (suc k) a = low k (a / 2) * 2 + a % 2

bit_and-ones-low : (k a : ℕ) → bit_and a (ones k) ≡ low k a
unfolding ones low
bit_and-ones-low zero a = bit_and-zero a
bit_and-ones-low (suc k) a =
    let half : (ones k * 2 + 1) / 2 ≡ ones k = omega arith in
    bit_and_step a (ones k * 2 + 1)
    ∙ omega (arith, ap (bit_and (a / 2)) half, bit_and-ones-low k (a / 2))

mod_double : (a m : ℕ) → a / 2 % m * 2 + a % 2 ≡ a % (m * 2)
mod_double a zero = grind arith
mod_double a (suc m) =
    let n = suc m in
    let r = a / 2 % n * 2 + a % 2 in
    let fits : r < n * 2 = omega (arith, mod-lt (a / 2) {m = n} (omega arith)) in
    let split : a ≡ r + n * 2 * (a / 2 / n) = grind (arith, div-add-mod (a / 2) n) in
    sym (
      ap (λ (t : ℕ). t % (n * 2)) split
      ∙ add-mul-mod_self_left r (n * 2) (a / 2 / n)
      ∙ mod-eq_of_lt fits)

low-mod : (k a : ℕ) → low k a ≡ a % 2 ^ k
unfolding low
low-mod zero a = omega arith
low-mod (suc k) a = rw (pow-suc 2 k) (rw (low-mod k (a / 2)) (mod_double a (2 ^ k)))

-- Masking with k ones is the remainder by 2 ^ k.
pub bit_and-ones : (k a : ℕ) → bit_and a (ones k) ≡ a % 2 ^ k
bit_and-ones k a = bit_and-ones-low k a ∙ low-mod k a

-- Where the digits do not meet, `|` is the sum.
pub bit_or_disjoint : (k h l : ℕ) → l < 2 ^ k → bit_or (h * 2 ^ k) l ≡ h * 2 ^ k + l
bit_or_disjoint zero h zero p = rw bit_or-zero (omega arith)
bit_or_disjoint zero h (suc l) p = absurd (omega arith)
bit_or_disjoint (suc k) h l p =
    let m = 2 ^ k in
    let e : 2 ^ suc k ≡ m * 2 = pow-suc 2 k in
    let even : h * 2 ^ suc k ≡ h * m * 2 = ap (λ (t : ℕ). h * t) e ∙ sym (mul_assoc h m 2) in
    let half : h * m * 2 / 2 ≡ h * m = omega arith in
    rw even (
      bit_or_step (h * m * 2) l
      ∙ omega
          (arith, ap (λ (t : ℕ). bit_or t (l / 2)) half, bit_or_disjoint k h (l / 2) (omega arith)))

-- The lowest digit of an even mask gives nothing.
bit_and_step_0 : (a m : ℕ) → bit_and a (m * 2) ≡ bit_and (a / 2) m * 2
bit_and_step_0 a m =
    let half : m * 2 / 2 ≡ m = omega arith in
    omega (arith, bit_and_step a (m * 2), ap (bit_and (a / 2)) half)

-- A mask shifted up by k digits.
pub bit_and_shifted : (k a m : ℕ) → bit_and a (m * 2 ^ k) ≡ bit_and (a / 2 ^ k) m * 2 ^ k
bit_and_shifted zero a m =
    omega (arith, ap (bit_and a) (mul-one m), ap (λ (t : ℕ). bit_and t m) (div-one a))
bit_and_shifted (suc k) a m =
    let q = 2 ^ k in
    let e : 2 ^ suc k ≡ q * 2 = pow-suc 2 k in
    let wide : m * 2 ^ suc k ≡ m * q * 2 = ap (λ (t : ℕ). m * t) e ∙ sym (mul_assoc m q 2) in
    let deep : a / 2 / q ≡ a / 2 ^ suc k =
      div-div-eq-div-mul a 2 q ∙ ap (λ (t : ℕ). a / t) (mul_comm 2 q ∙ sym e) in
    let r = bit_and (a / 2 ^ suc k) m in
    ap (bit_and a) wide
    ∙ bit_and_step_0 a (m * q)
    ∙ ap (λ (t : ℕ). t * 2) (bit_and_shifted k (a / 2) m)
    ∙ ap (λ (t : ℕ). bit_and t m * q * 2) deep
    ∙ mul_assoc r q 2
    ∙ ap (λ (t : ℕ). r * t) (sym e)

bit_or_comm_fuel : (n a b : ℕ) → a ≤ n → b ≤ n → bit_or a b ≡ bit_or b a
bit_or_comm_fuel zero zero zero ha hb = refl
bit_or_comm_fuel zero zero (suc b) ha hb = absurd (omega arith)
bit_or_comm_fuel zero (suc a) b ha hb = absurd (omega arith)
bit_or_comm_fuel (suc n) a b ha hb = omega (
  arith,
  bit_or_step a b,
  bit_or_step b a,
  bit_or_comm_fuel n (a / 2) (b / 2) (omega arith) (omega arith),
)

pub bit_or_comm : (a b : ℕ) → bit_or a b ≡ bit_or b a
bit_or_comm a b = bit_or_comm_fuel (a + b) a b (omega arith) (omega arith)

bit_or_assoc_fuel :
    (n a b c : ℕ) → a ≤ n → b ≤ n → c ≤ n → bit_or (bit_or a b) c ≡ bit_or a (bit_or b c)
bit_or_assoc_fuel zero zero zero zero ha hb hc = refl
bit_or_assoc_fuel zero zero zero (suc c) ha hb hc = absurd (omega arith)
bit_or_assoc_fuel zero zero (suc b) c ha hb hc = absurd (omega arith)
bit_or_assoc_fuel zero (suc a) b c ha hb hc = absurd (omega arith)
bit_or_assoc_fuel (suc n) a b c ha hb hc =
    let left : bit_or a b / 2 ≡ bit_or (a / 2) (b / 2) = omega (arith, bit_or_step a b) in
    let right : bit_or b c / 2 ≡ bit_or (b / 2) (c / 2) = omega (arith, bit_or_step b c) in
    omega (
      arith,
      bit_or_step a b,
      bit_or_step b c,
      bit_or_step (bit_or a b) c,
      bit_or_step a (bit_or b c),
      ap (λ (t : ℕ). bit_or t (c / 2)) left,
      ap (bit_or (a / 2)) right,
      bit_or_assoc_fuel n (a / 2) (b / 2) (c / 2) (omega arith) (omega arith) (omega arith),
    )

pub bit_or_assoc : (a b c : ℕ) → bit_or (bit_or a b) c ≡ bit_or a (bit_or b c)
bit_or_assoc a b c = bit_or_assoc_fuel (a + b + c) a b c (omega arith) (omega arith) (omega arith)

-- `|` with k ones fills the k lowest digits.
pub bit_or-ones : (k a : ℕ) → bit_or a (ones k) ≡ a / 2 ^ k * 2 ^ k + ones k
unfolding ones
bit_or-ones zero a = omega (arith, bit_or-zero a)
bit_or-ones (suc k) a =
    let q = 2 ^ k in
    let e : 2 ^ suc k ≡ q * 2 = pow-suc 2 k in
    let deep : a / 2 / q ≡ a / 2 ^ suc k =
      div-div-eq-div-mul a 2 q ∙ ap (λ (t : ℕ). a / t) (mul_comm 2 q ∙ sym e) in
    let half : (ones k * 2 + 1) / 2 ≡ ones k = omega arith in
    let fill : a / 2 / q * q * 2 ≡ a / 2 ^ suc k * 2 ^ suc k =
      ap (λ (t : ℕ). t * q * 2) deep
      ∙ mul_assoc (a / 2 ^ suc k) q 2
      ∙ ap (λ (t : ℕ). a / 2 ^ suc k * t) (sym e) in
    bit_or_step a (ones k * 2 + 1)
    ∙ omega (arith, ap (bit_or (a / 2)) half, bit_or-ones k (a / 2), fill)

pub bit_and-one : (a : ℕ) → bit_and a 1 ≡ a % 2
unfolding ones
bit_and-one a = bit_and-ones 1 a
