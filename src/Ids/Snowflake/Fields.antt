-- ===== src/Ids/Snowflake/Fields.antt =====
-- The fields of an identifier of snowflake/id.go.
use Prim.Native.Nat.{bit_and, bit_or}
use pmesh.Base.{
  ℕ, zero, suc, ◌+◌, ◌-◌, ◌*◌, ◌/◌, ◌%◌, ◌^◌, ◌≤◌, ◌<◌, ◌≡◌, ◌≢◌, refl, ap, ◌∙◌, arith,
}
use pmesh.Base.Int.{ℤ, pos, ◌-ℤ◌}
use pmesh.Base.Bits.{
  bit_and-ones, bit_and_shifted, bit_or_comm, bit_or_disjoint, bit_or_assoc, bit_or-ones, ones,
}
use pmesh.Ids.Snowflake.{
  from_parts, Generator, next_at, lowerbound, upperbound, sequence_of, machine_id_of, timestamp,
  epoch_begin, to_u64, machine_id_mask, seq_mask,
}

machine_bits : (m : ℕ) → bit_and m 0x3FF000 ≡ m / 4096 % 1024 * 4096
unfolding ones
machine_bits m = bit_and_shifted 12 m 0x3FF ∙ ap (λ (t : ℕ). t * 4096) (bit_and-ones 10 (m / 4096))

seq_bits : (s : ℕ) → bit_and s 0xFFF ≡ s % 4096
unfolding ones
seq_bits s = bit_and-ones 12 s

-- The words of the fields, side by side.
from_parts-sum :
    (machine seq t : ℕ)
    → t < 2 ^ 42
    → from_parts machine seq (pos (epoch_begin + t))
      ≡ t * 2 ^ 22 + machine / 4096 % 1024 * 4096 + seq % 4096
unfolding from_parts ◌-ℤ◌
from_parts-sum machine seq t h =
    let m = machine / 4096 % 1024 in
    let s = seq % 4096 in
    let diff : to_u64 (pos (epoch_begin + t) -ℤ pos epoch_begin) ≡ t = ground arith in
    let shifted : to_u64 (pos (epoch_begin + t) -ℤ pos epoch_begin) * 2 ^ 22 % 2 ^ 64 ≡ t * 2 ^ 22 =
      omega arith in
    let fields : bit_or (bit_and machine machine_id_mask) (bit_and seq seq_mask) ≡ m * 4096 + s =
      ap (λ (x : ℕ). bit_or x (bit_and seq seq_mask)) (machine_bits machine)
      ∙ ap (bit_or (m * 4096)) (seq_bits seq)
      ∙ bit_or_disjoint 12 m s (omega arith) in
    ap (λ (x : ℕ). bit_or x (to_u64 (pos (epoch_begin + t) -ℤ pos epoch_begin) * 2 ^ 22 % 2 ^ 64))
      fields
    ∙ ap (bit_or (m * 4096 + s)) shifted
    ∙ bit_or_comm (m * 4096 + s) (t * 2 ^ 22)
    ∙ bit_or_disjoint 22 t (m * 4096 + s) (omega arith)
    ∙ omega arith

-- An identifier made of its parts gives them back: the time, the sequence modulo 4096, and of the
-- machine the ten bits above its lowest twelve. The time must lie in the 139 years after 2024.
pub from_parts-parts :
    (machine seq t : ℕ)
    → t < 2 ^ 42
    → let i = from_parts machine seq (pos (epoch_begin + t)) in
      (timestamp i ≡ epoch_begin + t)
      × (sequence_of i ≡ seq % 4096)
      × (machine_id_of i ≡ machine / 4096 % 1024)
unfolding timestamp sequence_of machine_id_of
from_parts-parts machine seq t h = rw (from_parts-sum machine seq t h) (
  omega arith,
  seq_bits _ ∙ omega arith,
  ap (λ (x : ℕ). x / 2 ^ 12) (machine_bits _) ∙ omega arith,
)

-- Identifiers of a later millisecond are larger, whatever machine and sequence they carry.
pub from_parts-ascends :
    (m n a b t u : ℕ)
    → t < u
    → u < 2 ^ 42
    → from_parts m a (pos (epoch_begin + t)) < from_parts n b (pos (epoch_begin + u))
from_parts-ascends m n a b t u h k =
    omega (arith, from_parts-sum m a t (omega arith), from_parts-sum n b u k)

lowerbound_lem : (i : ℕ) → i < 2 ^ 64 → lowerbound i ≡ i / 2 ^ 22 * 2 ^ 22
unfolding lowerbound ones
lowerbound_lem i h =
    bit_and_shifted 22 i (2 ^ 42 - 1)
    ∙ ap (λ (t : ℕ). t * 2 ^ 22) (bit_and-ones 42 (i / 2 ^ 22))
    ∙ omega arith

upperbound_lem : (i : ℕ) → upperbound i ≡ i / 2 ^ 22 * 2 ^ 22 + (2 ^ 22 - 1)
unfolding upperbound ones
upperbound_lem i = bit_or_assoc i 0xFFF 0x3FF000 ∙ bit_or-ones 22 i

-- `Lowerbound` and `Upperbound` are the least and the greatest identifier of the millisecond, and
-- enclose the identifier.
pub lowerbound-upperbound :
    (i : ℕ)
    → i < 2 ^ 64
    → (lowerbound i ≡ i / 2 ^ 22 * 2 ^ 22)
      × (upperbound i ≡ i / 2 ^ 22 * 2 ^ 22 + (2 ^ 22 - 1))
      × (lowerbound i ≤ i)
      × (i ≤ upperbound i)
lowerbound-upperbound i h =
    let low = lowerbound_lem i h in
    let high = upperbound_lem i in (low, high, omega arith, omega arith)

-- The generator after a number of identifiers of one millisecond.
pub after_calls : ℕ → Generator → ℤ → Generator
after_calls zero g t = g
after_calls (suc n) g t = after_calls n (next_at g t).0 t

sequence_after :
    (n : ℕ) (g : Generator) (t : ℤ)
    → g.sequence < 2 ^ 32
    → ((after_calls n g t).sequence ≡ (g.sequence + n) % 2 ^ 32)
      × ((after_calls n g t).machine_id ≡ g.machine_id)
unfolding after_calls next_at
sequence_after zero g t h = (omega arith, refl)
sequence_after (suc n) g t h =
    let ih = sequence_after n (next_at g t).0 t (omega arith) in (omega arith, ih.1)

-- A generator repeats no identifier within 4096 calls at one millisecond.
pub next_at-fresh :
    (n : ℕ) (g : Generator) (t : ℕ)
    → t < 2 ^ 42
    → g.sequence < 2 ^ 32
    → 0 < n
    → n < 4096
    → (next_at g (pos (epoch_begin + t))).1
      ≢ (next_at (after_calls n g (pos (epoch_begin + t))) (pos (epoch_begin + t))).1
unfolding next_at
next_at-fresh n g t h hs hp hn same =
    let later = after_calls n g (pos (epoch_begin + t)) in
    let s = sequence_after n g (pos (epoch_begin + t)) hs in
    let e1 = from_parts-sum g.machine_id ((g.sequence + 1) % 2 ^ 32) t h in
    let e2 = from_parts-sum later.machine_id ((later.sequence + 1) % 2 ^ 32) t h in
    absurd (omega arith)
