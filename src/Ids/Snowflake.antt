-- ===== src/Ids/Snowflake.antt =====
-- snowflake/id.go: an identifier is a uint64 of a time stamp, ten bits of the machine and twelve bits
-- of a sequence. Unix times in milliseconds are integers; the decimal text form is left out.
pub mod Fields
use Prim.Native.Nat.{bit_and, bit_or}
use pmesh.Base.{ℕ, ◌+◌, ◌-◌, ◌*◌, ◌/◌, ◌%◌, ◌^◌, Bool, not, ◌&&◌, ◌==◌, ltb, if◌then◌else◌}
use pmesh.Base.Int.{ℤ, pos, negsuc, ◌-ℤ◌}

abbrev pub epoch_begin : ℕ
epoch_begin = 1704067200000

abbrev pub seq_mask : ℕ
seq_mask = 0xFFF

abbrev pub machine_id_mask : ℕ
machine_id_mask = 0x3FF000

-- The conversion of an int64 to a uint64.
abbrev pub to_u64 : ℤ → ℕ
to_u64 (pos n) = n % 2 ^ 64
to_u64 (negsuc n) = 2 ^ 64 - 1 - n % 2 ^ 64

-- `FromParts`; the machine and the sequence are uint32.
unfoldable pub from_parts : ℕ → ℕ → ℤ → ℕ
from_parts machine seq milli =
    bit_or (bit_or (bit_and machine machine_id_mask) (bit_and seq seq_mask))
      (to_u64 (milli -ℤ pos epoch_begin) * 2 ^ 22 % 2 ^ 64)

pub record Generator : Type 0 where
  pub machine_id : ℕ
  pub sequence : ℕ

-- `NextAtUnixMilli`: the generator behind it, and the identifier.
unfoldable pub next_at : Generator → ℤ → Generator × ℕ
next_at g t =
    let seq = (g.sequence + 1) % 2 ^ 32 in
    (record g { sequence = seq }, from_parts g.machine_id seq t)

unfoldable pub is_valid : ℕ → Bool
is_valid i = ltb 0 i && ltb i 0xffffffffffffffff

unfoldable pub is_zero : ℕ → Bool
is_zero i = i == 0

-- `^mask` of a uint64
unfoldable pub lowerbound : ℕ → ℕ
lowerbound i = bit_and i (2 ^ 64 - 1 - bit_or seq_mask machine_id_mask)

unfoldable pub upperbound : ℕ → ℕ
upperbound i = bit_or (bit_or i seq_mask) machine_id_mask

unfoldable pub sequence_of : ℕ → ℕ
sequence_of i = bit_and (i % 2 ^ 32) seq_mask

unfoldable pub machine_id_of : ℕ → ℕ
machine_id_of i = bit_and (i % 2 ^ 32) machine_id_mask / 2 ^ 12

-- `Timestamp` in milliseconds; the sum stays far below 2^63.
unfoldable pub timestamp : ℕ → ℕ
timestamp i = i / 2 ^ 22 + epoch_begin
