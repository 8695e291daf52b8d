-- ===== src/Textproc/Spelling.antt =====
-- What `EncodePart` of textproc/encoder.go writes, byte by byte.
use pmesh.Base.{
  ℕ, zero, suc, ◌<◌, ◌≤◌, ◌≡◌, refl, sym, ◌∙◌, ap, Bool, true, false, Option, none, some, List, [],
  ◌∷◌, ◌++◌, ◌==◌, if◌then◌else◌, length, arith, append_assoc, append-nil,
}
use pmesh.Textproc.{
  Bytes, ByteEncoder, literal, flush, discard, no_ansi, Encoding, Op, wrote, flushed, Fails,
  Written, Found, at_byte, index, after_ansi, encode_byte, write_some, encode_rest, encode_found,
  encode_loop, encode_part,
}

-- A byte that reaches the writer, or a flush.
pub data Token : Type 0 where
  byte : ℕ → Token
  mark : Token

abbrev pub bytes : Bytes → List Token
bytes [] = []
bytes (c ∷ b) = byte c ∷ bytes b

abbrev op_tokens : Op → List Token
op_tokens (wrote p) = bytes p
op_tokens flushed = mark ∷ []

-- What the calls of the writer, the last one first, amount to.
abbrev pub tokens : List Op → List Token
tokens [] = []
tokens (op ∷ log) = tokens log ++ op_tokens op

-- What an encoder makes of what follows outside of an escape sequence, and inside of one.
abbrev pub emit : ℕ → Option ByteEncoder → List Token → List Token → List Token
emit c none next inside = byte c ∷ next
emit c (some (literal d)) next inside = bytes d ++ next
emit c (some flush) next inside = mark ∷ next
emit c (some discard) next inside = next
emit c (some no_ansi) next inside = inside

-- A reading of the bytes one by one; the Boolean says whether an escape sequence is open.
unfoldable pub spell : Encoding → Bool → Bytes → List Token
spell r _ [] = []
spell r true (c ∷ b) = let more = spell r true b in if c == 109 then spell r false b else more
spell r false (c ∷ b) = emit c (r c) (spell r false b) (spell r true b)

abbrev pub never : Fails
never log op = false

spell-after_ansi : (r : Encoding) (b : Bytes) → spell r true b ≡ spell r false (after_ansi b)
unfolding spell after_ansi
spell-after_ansi r [] = refl
spell-after_ansi r (c ∷ b) = ground (arith, spell-after_ansi r b)

length-after_ansi : (b : Bytes) → length (after_ansi b) ≤ length b
unfolding after_ansi
length-after_ansi [] = omega arith
length-after_ansi (c ∷ b) = ground (arith, length-after_ansi b)

abbrev Spelt : Encoding → Bytes → Found → Type 0
Spelt r b none = spell r false b ≡ bytes b
Spelt r b (some (before, e, rest)) =
    (spell r false b ≡ bytes before ++ emit 0 (some e) (spell r false rest) (spell r true rest))
    × (length rest < length b)

emit-some :
    (c : ℕ) (e : ByteEncoder) (next inside : List Token)
    → emit c (some e) next inside ≡ emit 0 (some e) next inside
emit-some c (literal d) next inside = refl
emit-some c flush next inside = refl
emit-some c discard next inside = refl
emit-some c no_ansi next inside = refl

index-Spelt : (r : Encoding) (b : Bytes) → Spelt r b (index r b)
unfolding index spell
index-Spelt r [] = refl
index-Spelt r (c ∷ b) = by_byte (r c) refl (index r b) (index-Spelt r b)
  where
    by_byte :
        (o : Option ByteEncoder)
        → r c ≡ o
        → (f : Found) → Spelt r b f
        → Spelt r (c ∷ b) (at_byte c b o f)
    by_byte (some e) h f s = (
      ap (λ x. emit c x (spell r false b) (spell r true b)) h
          ∙ emit-some c e (spell r false b) (spell r true b),
      omega arith,
    )
    by_byte none h none s =
        ap (λ x. emit c x (spell r false b) (spell r true b)) h ∙ ap (◌∷◌ (byte c)) s
    by_byte none h (some (before, e, rest)) (s, lt) =
        (ap (λ x. emit c x (spell r false b) (spell r true b)) h ∙ ap (◌∷◌ (byte c)) s, omega arith)

abbrev Spells : List Op → List Token → Written → Type 0
Spells log s w = (w.ok ≡ true) × (tokens w.log ≡ tokens log ++ s)

abbrev write_log : Bytes → List Op → List Op
write_log [] log = log
write_log (c ∷ b) log = wrote (c ∷ b) ∷ log

write_some-log :
    (b : Bytes) (log : List Op)
    → write_some never b log ≡ record { log = write_log b log; ok = true }
unfolding write_some
write_some-log [] log = refl
write_some-log (c ∷ b) log = refl

tokens-write_log : (b : Bytes) (log : List Op) → tokens (write_log b log) ≡ tokens log ++ bytes b
tokens-write_log [] log = sym (append-nil (tokens log))
tokens-write_log (c ∷ b) log = refl

-- One more piece behind what is written.
Spells-piece :
    (log l : List Op) (piece s all : List Token) (w : Written)
    → tokens l ≡ tokens log ++ piece
    → all ≡ piece ++ s
    → Spells l s w
    → Spells log all w
Spells-piece log l piece s all w e f (ok, g) = (
  ok,
  g
      ∙ (ap (λ x. x ++ s) e
          ∙ (append_assoc (tokens log) piece s ∙ ap (λ x. tokens log ++ x) (sym f))),
)

encoder-Spells :
    (r : Encoding) (e : ByteEncoder) (rest : Bytes) (l : List Op) (next : Bytes → List Op → Written)
    → ((left : Bytes) (l' : List Op)
        → length left ≤ length rest
        → Spells l' (spell r false left) (next left l'))
    → Spells l
        (emit 0 (some e) (spell r false rest) (spell r true rest))
        (encode_rest next (encode_byte never e rest l))
unfolding encode_byte
encoder-Spells r (literal d) rest l next ih =
    Spells-piece l (wrote d ∷ l) (bytes d) (spell r false rest) (bytes d ++ spell r false rest)
      (next rest (wrote d ∷ l)) refl refl (ih rest (wrote d ∷ l) (omega arith))
encoder-Spells r flush rest l next ih =
    Spells-piece l (flushed ∷ l) (mark ∷ []) (spell r false rest) (mark ∷ spell r false rest)
      (next rest (flushed ∷ l)) refl refl (ih rest (flushed ∷ l) (omega arith))
encoder-Spells r discard rest l next ih = ih rest l (omega arith)
encoder-Spells r no_ansi rest l next ih =
    rw (spell-after_ansi r rest) (ih (after_ansi rest) l (length-after_ansi rest))

found-Spells :
    (r : Encoding) (b : Bytes) (log : List Op) (next : Bytes → List Op → Written) (f : Found)
    → ((left : Bytes) (l : List Op)
        → length left < length b
        → Spells l (spell r false left) (next left l))
    → Spelt r b f
    → Spells log (spell r false b) (encode_found next never b log f)
found-Spells r b log next none ih s = rw (write_some-log b log, s) (refl, tokens-write_log b log)
found-Spells r b log next (some (before, e, rest)) ih (s, lt) = rw (write_some-log before log) (
    Spells-piece log (write_log before log) (bytes before)
      (emit 0 (some e) (spell r false rest) (spell r true rest)) (spell r false b)
      (encode_rest next (encode_byte never e rest (write_log before log)))
      (tokens-write_log before log) s
      (encoder-Spells r e rest (write_log before log) next (λ left l le. ih left l (omega arith))))

loop-Spells :
    (fuel : ℕ) (r : Encoding) (b : Bytes) (log : List Op)
    → length b < fuel
    → Spells log (spell r false b) (encode_loop fuel never r b log)
unfolding encode_loop
loop-Spells zero r b log lt = absurd (omega arith)
loop-Spells (suc fuel) r b log lt =
    found-Spells r b log (λ left l. encode_loop fuel never r left l) (index r b)
      (λ left l less. loop-Spells fuel r left l (omega arith)) (index-Spelt r b)

-- On a writer without failures, `EncodePart` ends, and what it writes and flushes is what reading the
-- bytes one by one gives, where an escape sequence lasts up to its first `m`.
pub encode_part-spell :
    (r : Encoding) (b : Bytes) (log : List Op)
    → let w = encode_part never r b log in
      (w.ok ≡ true) × (tokens w.log ≡ tokens log ++ spell r false b)
unfolding encode_part
encode_part-spell r b log = loop-Spells (suc (length b)) r b log (omega arith)
