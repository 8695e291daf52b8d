-- ===== src/Textproc.antt =====
-- textproc/encoder.go: an encoding is a table of what to write for a byte. `encode_part` is the loop of
-- `EncodePart`, on one unit of fuel for each byte and one more, which is enough since each round takes
-- a byte. The writer is a parameter: which of its calls fail, by the calls that came before.
pub mod Spelling
mod Tests
use pmesh.Base.{
  ℕ, zero, suc, ◌+◌, ◌/◌, ◌%◌, Bool, true, false, not, ◌&&◌, ◌||◌, Option, none, some, List, [],
  ◌∷◌, ◌++◌, ◌==◌, ltb, if◌then◌else◌, length,
}

abbrev pub Bytes : Type 0
Bytes = List ℕ

-- `LiteralEncoder`, `FlushEncoder`, `DiscardEncoder` and the function of `WithNoANSI`.
pub data ByteEncoder : Type 0 where
  literal : (d : List ℕ) → ByteEncoder
  flush discard no_ansi : ByteEncoder

-- `Encoding`
abbrev pub Encoding : Type 0
Encoding = ℕ → Option ByteEncoder

unfoldable pub new_encoding : Encoding
new_encoding b = none

-- `With`: the first encoder of a byte stays.
unfoldable pub with_encoder : ℕ → ByteEncoder → Encoding → Encoding
with_encoder b h r c = elim (r c) [ some e ↦ some e | none ↦ if c == b then some h else none ]

unfoldable pub with_discard_set : Bytes → Encoding → Encoding
with_discard_set [] r = r
with_discard_set (c ∷ k) r = with_discard_set k (with_encoder c discard r)

abbrev pub escape_byte : ℕ
escape_byte = 0x1b

unfoldable pub with_no_ansi : Encoding → Encoding
unfolding with_encoder
with_no_ansi r = with_encoder escape_byte no_ansi r

abbrev pub line_feed : ℕ
line_feed = 10

unfoldable pub with_line_flush : Encoding → Encoding
unfolding with_encoder
with_line_flush r = with_encoder line_feed flush r

abbrev pub spaces : ℕ → Bytes
spaces zero = []
spaces (suc n) = 32 ∷ spaces n

unfoldable pub with_tab_width : ℕ → Encoding → Encoding
unfolding with_encoder
with_tab_width n r = with_encoder 9 (literal (spaces n)) r

abbrev hex_digit : ℕ → ℕ
hex_digit d = if ltb d 10 then 48 + d else 87 + d

-- `jsonEscaped`
unfoldable pub json_escaped : ℕ → Option ByteEncoder
json_escaped c =
    if c == 34
    then some (literal (92 ∷ 34 ∷ []))
    else if c == 92
    then some (literal (92 ∷ 92 ∷ []))
    else if c == 8
    then some (literal (92 ∷ 98 ∷ []))
    else if c == 12
    then some (literal (92 ∷ 102 ∷ []))
    else if c == 10
    then some (literal (92 ∷ 110 ∷ []))
    else if c == 13
    then some (literal (92 ∷ 114 ∷ []))
    else if c == 9
    then some (literal (92 ∷ 116 ∷ []))
    else if ltb c 0x20
    then some (literal (92 ∷ 117 ∷ 48 ∷ 48 ∷ hex_digit (c / 16) ∷ hex_digit (c % 16) ∷ []))
    else none

-- `WithJSONEscaped` of some bytes.
unfoldable pub with_json_escaped : Bytes → Encoding → Encoding
with_json_escaped [] r = r
with_json_escaped (c ∷ b) r = elim (json_escaped c) [
  | none ↦ with_json_escaped b r
  | some e ↦ with_json_escaped b (with_encoder c e r)
]

-- `WithJSONEscaped` without an argument: the control bytes.
unfoldable pub with_json_controls : Encoding → Encoding
with_json_controls r c = elim (r c) [
  | some e ↦ some e
  | none ↦ if ltb c 0x20 then json_escaped c else none
]

-- A call of the writer.
pub data Op : Type 0 where
  wrote : (p : List ℕ) → Op
  flushed : Op

-- Whether a call fails, behind the calls that did not, the last one first.
abbrev pub Fails : Type 0
Fails = List Op → Op → Bool

-- The calls of the writer, and whether no error came back.
pub record Written : Type 0 where
  pub log : List Op
  pub ok : Bool

abbrev pub issue : Fails → Op → List Op → Written
issue fails op log =
    if fails log op then record { log = log; ok = false } else record { log = op ∷ log; ok = true }

abbrev pub Found : Type 0
Found = Option (Bytes × ByteEncoder × Bytes)

abbrev pub at_byte : ℕ → Bytes → Option ByteEncoder → Found → Found
at_byte c b (some e) later = some ([], e, b)
at_byte c b none none = none
at_byte c b none (some (before, e, rest)) = some (c ∷ before, e, rest)

-- `Index`: the bytes before the first one with an encoder, the encoder, and the bytes behind it.
unfoldable pub index : Encoding → Bytes → Found
index r [] = none
index r (c ∷ b) = at_byte c b (r c) (index r b)

-- What the function of `WithNoANSI` leaves: the bytes behind the first `m`, or none.
unfoldable pub after_ansi : Bytes → Bytes
after_ansi [] = []
after_ansi (c ∷ b) = let rest = after_ansi b in if c == 109 then b else rest

-- `Encode` of an encoder: the call of the writer, and the bytes that are left.
unfoldable pub encode_byte : Fails → ByteEncoder → Bytes → List Op → Written × Bytes
encode_byte fails (literal d) rest log = (issue fails (wrote d) log, rest)
encode_byte fails flush rest log = (issue fails flushed log, rest)
encode_byte fails discard rest log = (record { log = log; ok = true }, rest)
encode_byte fails no_ansi rest log = (record { log = log; ok = true }, after_ansi rest)

-- `w.Write(b)`, unless there is nothing to write.
unfoldable pub write_some : Fails → Bytes → List Op → Written
write_some fails [] log = record { log = log; ok = true }
write_some fails (c ∷ b) log = issue fails (wrote (c ∷ b)) log

-- What follows a call: the next one, or the error.
abbrev pub and_then : Written → (List Op → Written) → Written
and_then w next = if w.ok then next w.log else w

-- The end of a round: the encoder's call, and the rounds that are left.
abbrev pub encode_rest : (Bytes → List Op → Written) → Written × Bytes → Written
encode_rest next (w, left) = and_then w (next left)

-- A round, by what `Index` finds.
abbrev pub encode_found : (Bytes → List Op → Written) → Fails → Bytes → List Op → Found → Written
encode_found next fails b log none = write_some fails b log
encode_found next fails b log (some (before, e, rest)) =
    and_then (write_some fails before log) λ l. encode_rest next (encode_byte fails e rest l)

unfoldable pub encode_loop : ℕ → Fails → Encoding → Bytes → List Op → Written
encode_loop zero fails r b log = record { log = log; ok = false }
encode_loop (suc fuel) fails r b log =
    encode_found (λ left l. encode_loop fuel fails r left l) fails b log (index r b)

-- `EncodePart`
unfoldable pub encode_part : Fails → Encoding → Bytes → List Op → Written
encode_part fails r b log = encode_loop (suc (length b)) fails r b log
