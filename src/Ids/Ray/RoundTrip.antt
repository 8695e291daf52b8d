-- ===== src/Ids/Ray/RoundTrip.antt =====
-- The text form of ray/id.go read back.
use pmesh.Base.{
  ℕ, zero, suc, ◌+◌, ◌*◌, ◌/◌, ◌%◌, ◌^◌, ◌<◌, ◌≤◌, ◌≡◌, ◌≢◌, ◌⊎◌, refl, sym, ap, ◌∙◌, some, [], ◌∷◌,
  ◌++◌, length, length-append, take, drop, take-append, drop-append, arith, true, Option-cases, inl,
  inr,
}
use native.Mathlib.Nat.{pow-suc}
use pmesh.Base.Text.{Text}
use pmesh.Ids.Ray.{
  Ray, Host, normal_letter, normal, hex_digit, hex_encode, hex_value, hex_decode, to_array,
  read_tail, unmarshal, parse_host, copy_host, equal_fold, same_host,
}

hex_value-hex_digit : (d : ℕ) → d < 16 → hex_value (hex_digit d) ≡ some d
unfolding hex_value hex_digit
hex_value-hex_digit d h = ground arith

decode_last :
    (s : Text) (c v r d : ℕ)
    → hex_decode s r ≡ some v
    → hex_value c ≡ some d
    → hex_decode (s ++ c ∷ []) r ≡ some (v * 16 + d)
unfolding hex_decode
decode_last [] c v r d h k = ground arith
decode_last (x ∷ s) c v r d h k = elim (Option-cases (hex_value x)) [
  | inl bad ↦ ground arith
  | inr (e, good) ↦ rw (good, hex_decode) (decode_last s c v (r * 16 + e) d (ground arith) k)
]

hex_decode-hex_encode : (n v : ℕ) → v < 16 ^ n → hex_decode (hex_encode n v) 0 ≡ some v
unfolding hex_encode hex_decode
hex_decode-hex_encode zero v h = ap some (omega arith)
hex_decode-hex_encode (suc n) v h =
    let m = 16 ^ n in
    let e : 16 ^ suc n ≡ m * 16 = pow-suc 16 n in
    decode_last (hex_encode n (v / 16)) (hex_digit (v % 16)) (v / 16) 0 (v % 16)
      (hex_decode-hex_encode n (v / 16) (omega arith)) (hex_value-hex_digit (v % 16) (omega arith))
    ∙ ap some (omega arith)

length-hex_encode : (n v : ℕ) → length (hex_encode n v) ≡ n
unfolding hex_encode
length-hex_encode zero v = refl
length-hex_encode (suc n) v = omega (
  arith,
  length-append (hex_encode n (v / 16)) (hex_digit (v % 16) ∷ []),
  length-hex_encode n (v / 16),
)

-- The byte d is c as a capital: X for a zero byte, a capital letter for a small one, else c.
abbrev pub Capital : ℕ → ℕ → Type 0
Capital c d =
    ((c ≡ 0) × (d ≡ 88))
    ⊎ ((97 ≤ c) × (c ≤ 122) × (d + 32 ≡ c))
    ⊎ ((c ≢ 0) × ((c < 97) ⊎ (122 < c)) × (d ≡ c))

normal_letter-Capital : (c : ℕ) → Capital c (normal_letter c)
unfolding normal_letter
normal_letter-Capital c = ground arith

to_array_read :
    (r : Ray) → r.id < 2 ^ 64 → unmarshal (to_array r) ≡ some (record r { host = normal r.host })
unfolding unmarshal to_array read_tail
to_array_read r h =
    let digits = hex_encode 16 r.id in
    let tail : Text = 45 ∷ r.host.a ∷ r.host.b ∷ r.host.c ∷ [] in
    let n : length digits ≡ 16 = length-hex_encode 16 r.id in
    let front : take 16 (digits ++ tail) ≡ digits =
      ap (λ (k : ℕ). take k (digits ++ tail)) (sym n) ∙ take-append digits tail in
    let back : drop 16 (digits ++ tail) ≡ tail =
      ap (λ (k : ℕ). drop k (digits ++ tail)) (sym n) ∙ drop-append digits tail in
    ap (λ (s : Text). read_tail s (drop 16 (digits ++ tail))) front
    ∙ ap (read_tail digits) back
    ∙ rw (hex_decode-hex_encode 16 r.id (omega arith), read_tail) refl

-- A ray is read back from its text with its id and, byte by byte, its host in capital letters, where a
-- zero byte becomes X and a byte that is no small letter stays.
pub unmarshal-to_array :
    (r : Ray)
    → r.id < 2 ^ 64
    → (host : Host) × (unmarshal (to_array r) ≡ some (record r { host = host }))
      × Capital r.host.a host.a
      × Capital r.host.b host.b
      × Capital r.host.c host.c
unfolding normal
unmarshal-to_array r h = (
  normal r.host,
  to_array_read r h,
  normal_letter-Capital r.host.a,
  normal_letter-Capital r.host.b,
  normal_letter-Capital r.host.c,
)

normal_letter_twice : (c : ℕ) → normal_letter (normal_letter c) ≡ normal_letter c
unfolding normal_letter
normal_letter_twice c = ground arith

-- A parsed host is in its normal form, and folds to the text that it was parsed from.
pub parse_host-normal :
    (s : Text) → (normal (parse_host s) ≡ parse_host s) × (equal_fold (parse_host s) s ≡ true)
unfolding parse_host normal equal_fold same_host
parse_host-normal s =
    let p = copy_host s in
    (rw (normal_letter_twice p.a, normal_letter_twice p.b, normal_letter_twice p.c), ground arith)
