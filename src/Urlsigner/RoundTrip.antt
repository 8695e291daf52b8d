-- ===== src/Urlsigner/RoundTrip.antt =====
-- The binary form of urlsigner/digest.go is read back.
use pmesh.Base.{
  ℕ, zero, suc, ◌*◌, ◌/◌, ◌^◌, ◌≤◌, ◌<◌, ◌≡◌, refl, sym, ap, ◌∙◌, true, false, Option, none, some,
  [], ◌∷◌, ◌++◌, arith, ltb, length, length-append, All, All-append, append_assoc, append-nil,
  Bool-cases, inl, inr,
}
use pmesh.Base.Int.{ℤ, pos, negsuc}
use pmesh.Base.Text.{Text, text_eq}
use pmesh.Urlsigner.Digest.{
  Headers, Digest, write_string, until_nul, read_string, write_entries, write_map, set_key,
  read_entries, read_map, zigzag, unzigzag, from_milli, put_uvarint, read_uvarint, write_time,
  read_time, marshal, unmarshal,
}

-- The numbers that fit into some bytes of a varint, the last of which is the tenth.
abbrev room : ℕ → ℕ
room zero = 1
room (suc zero) = 2
room (suc (suc k)) = 128 * room (suc k)

read-put_uvarint :
    (k n : ℕ) (s : Text) → 0 < k → n < room k → read_uvarint k (put_uvarint k n ++ s) ≡ some (n, s)
unfolding read_uvarint put_uvarint
read-put_uvarint zero n s h l = ground arith
read-put_uvarint (suc zero) n s h l =
    let small : ltb n 128 ≡ true = ground arith in rw (small, put_uvarint) (ground arith)
read-put_uvarint (suc (suc k)) n s h l = elim (Bool-cases (ltb n 128)) [
  | inl small ↦ rw (small, put_uvarint) (ground arith)
  | inr large ↦
      let ih = read-put_uvarint (suc k) (n / 128) s (omega arith) (omega arith) in
      rw (large, put_uvarint) (ground (arith, ih))
]

unzigzag-zigzag : (a : ℤ) → unzigzag (zigzag a) ≡ a
unzigzag-zigzag (pos n) = ground arith
unzigzag-zigzag (negsuc n) = ground arith

abbrev pub HasNoNul : Text → Type 0
HasNoNul s = All (λ c. 0 < c) s

until_nul-write_string : (t s : Text) → HasNoNul t → until_nul (write_string t ++ s) ≡ some (t, s)
unfolding until_nul write_string
until_nul-write_string [] s h = refl
until_nul-write_string (c ∷ t) s (hc, h) = ground (arith, until_nul-write_string t s h)

read-write_string : (t s : Text) → HasNoNul t → read_string (write_string t ++ s) ≡ (t, s)
unfolding read_string
read-write_string t s h = rw (until_nul-write_string t s h, read_string) refl

-- No key of the entries is the given one.
abbrev pub HasNoKey : Text → Headers → Type 0
HasNoKey k m = All (λ (e : Text × Text). text_eq e.0 k ≡ false) m

-- The entries of a map of Go whose keys and values have no NUL: the keys are different, and not empty.
abbrev pub IsHeaders : Headers → Type 0
IsHeaders [] = Unit
IsHeaders ((k, v) ∷ m) =
    (0 < length k)
    × HasNoNul k
    × HasNoNul v
    × All (λ (e : Text × Text). text_eq k e.0 ≡ false) m
    × IsHeaders m

set_key-fresh : (m : Headers) (k v : Text) → HasNoKey k m → set_key m k v ≡ m ++ (k, v) ∷ []
unfolding set_key
set_key-fresh [] k v h = refl
set_key-fresh ((l, w) ∷ m) k v (hl, h) = rw (hl) (ap (◌∷◌ (l, w)) (set_key-fresh m k v h))

pub read_entries_step :
    (fuel : ℕ) (m : Headers) (c : ℕ) (k v a b d : Text)
    → read_string a ≡ (c ∷ k, b)
    → read_string b ≡ (v, d)
    → read_entries (suc fuel) m a ≡ read_entries fuel (set_key m (c ∷ k) v) d
unfolding read_entries
read_entries_step fuel m c k v a b d ea eb =
    ap
      (λ (key : Text × Text). elim (key.0) [
        | [] ↦ some (m, key.1)
        | c ∷ k ↦ read_entries fuel (set_key m (c ∷ k) (read_string key.1).0) (read_string key.1).1
      ])
      ea
    ∙ ap (λ (value : Text × Text). read_entries fuel (set_key m (c ∷ k) value.0) value.1) eb

read_entries_end :
    (fuel : ℕ) (m : Headers) (s : Text) → read_entries (suc fuel) m (0 ∷ s) ≡ some (m, s)
unfolding read_entries read_string until_nul
read_entries_end fuel m s = refl

-- The bytes of an entry, with what follows.
write_entries-cons :
    (c : ℕ) (k v : Text) (rest : Headers) (s : Text)
    → write_entries ((c ∷ k, v) ∷ rest) ++ s
      ≡ write_string (c ∷ k) ++ (write_string v ++ (write_entries rest ++ s))
unfolding write_entries
write_entries-cons c k v rest s =
    append_assoc (write_string (c ∷ k)) (write_string v ++ write_entries rest) s
    ∙ ap (◌++◌ (write_string (c ∷ k))) (append_assoc (write_string v) (write_entries rest) s)

-- No entry of the rest has the key of one that was read.
abbrev AreNew : Headers → Headers → Type 0
AreNew m rest = All (λ (e : Text × Text). HasNoKey e.0 m) rest

AreNew-append :
    (m : Headers) (k v : Text) (rest : Headers)
    → AreNew m rest
    → All (λ (e : Text × Text). text_eq k e.0 ≡ false) rest
    → AreNew (m ++ (k, v) ∷ []) rest
AreNew-append m k v [] f h = tt
AreNew-append m k v (e ∷ rest) (fe, f) (he, h) = (
  All-append (λ (d : Text × Text). text_eq d.0 e.0 ≡ false) m ((k, v) ∷ []) fe (he, tt),
  AreNew-append m k v rest f h,
)

AreNew-nil : (m : Headers) → AreNew [] m
AreNew-nil [] = tt
AreNew-nil (e ∷ m) = (tt, AreNew-nil m)

-- The reader has the entries m, and reads the entries of rest.
read-write_entries :
    (fuel : ℕ) (m rest : Headers) (s : Text)
    → length rest < fuel
    → IsHeaders rest
    → AreNew m rest
    → read_entries fuel m (write_entries rest ++ (0 ∷ s)) ≡ some (m ++ rest, s)
unfolding write_entries
read-write_entries zero m rest s l w f = ground arith
read-write_entries (suc fuel) m [] s l w f =
    read_entries_end fuel m s ∙ ap (λ n. some (n, s)) (sym (append-nil m))
read-write_entries (suc fuel) m (([], v) ∷ rest) s l w f = absurd (ground arith)
read-write_entries (suc fuel) m ((c ∷ k, v) ∷ rest) s l (hk, nk, nv, new, w) (fk, f) =
    let left = write_entries rest ++ (0 ∷ s) in
    let key = read-write_string (c ∷ k) (write_string v ++ left) nk in
    let value = read-write_string v left nv in
    let m' = m ++ (c ∷ k, v) ∷ [] in
    ap (read_entries (suc fuel) m) (write_entries-cons c k v rest (0 ∷ s))
    ∙ read_entries_step fuel m c k v _ _ left key value
    ∙ ap (λ n. read_entries fuel n left) (set_key-fresh m (c ∷ k) v fk)
    ∙ read-write_entries fuel m' rest s (omega arith) w (AreNew-append m (c ∷ k) v rest f new)
    ∙ ap (λ n. some (n, s)) (append_assoc m ((c ∷ k, v) ∷ []) rest)

length-write_string : (t : Text) → 0 < length (write_string t)
unfolding write_string
length-write_string t = omega (arith, length-append t (0 ∷ []))

length-write_entries :
    (m : Headers) (s : Text) → IsHeaders m → length m ≤ length (write_entries m ++ s)
length-write_entries [] s w = ground arith
length-write_entries (([], v) ∷ m) s (hk, nk, nv, new, w) = absurd (ground arith)
length-write_entries ((c ∷ k, v) ∷ m) s (hk, nk, nv, new, w) =
    let value = write_string v in
    let left = write_entries m ++ s in
    let rest = length-write_entries m s w in
    omega (
      arith,
      ap length (write_entries-cons c k v m s),
      length-append (write_string (c ∷ k)) (value ++ left),
      length-append value left,
      length-write_string (c ∷ k),
      rest,
    )

read-write_map : (m : Headers) (s : Text) → IsHeaders m → read_map (write_map m ++ s) ≡ some (m, s)
unfolding read_map write_map
read-write_map m s w =
    let all = write_entries m ++ (0 ∷ s) in
    let e : write_entries m ++ (0 ∷ []) ++ s ≡ all = append_assoc (write_entries m) (0 ∷ []) s in
    let enough : length m < suc (length all) = omega (arith, length-write_entries m (0 ∷ s) w) in
    ap (λ b. read_entries (suc (length b)) [] b) e
    ∙ read-write_entries (suc (length all)) [] m s enough w (AreNew-nil m)

-- A time whose milliseconds fit into an int64.
abbrev pub IsTime : Option ℤ → Type 0
IsTime none = Unit
IsTime (some (pos n)) = n < 1_000_000 * 2 ^ 63
IsTime (some (negsuc n)) = n < 1_000_000 * 2 ^ 63

-- What is left of a time: its milliseconds, and nothing of one before 1970.
abbrev pub to_milli : Option ℤ → Option ℤ
to_milli none = none
to_milli (some (pos n)) = some (pos (n / 1_000_000 * 1_000_000))
to_milli (some (negsuc n)) = none

read_time_of :
    (a : ℤ) (s : Text)
    → zigzag a < 2 ^ 64
    → read_time (put_uvarint 10 (zigzag a) ++ s) ≡ some (from_milli a, s)
unfolding read_time
read_time_of a s h =
    let e = read-put_uvarint 10 (zigzag a) s (omega arith) (omega arith) in
    rw (e, unzigzag-zigzag a, read_time) refl

read-write_time :
    (t : Option ℤ) (s : Text) → IsTime t → read_time (write_time t ++ s) ≡ some (to_milli t, s)
unfolding write_time
read-write_time none s h = read_time_of (negsuc 0) s (omega arith)
read-write_time (some (pos n)) s h = read_time_of (pos (n / 1_000_000)) s (omega arith)
read-write_time (some (negsuc n)) s h = read_time_of (negsuc (n / 1_000_000)) s (omega arith)

-- The end of the buffer, with nothing behind it.
rewritten : (d : Digest) → HasNoNul d.rewrite → (read_string (write_string d.rewrite)).0 ≡ d.rewrite
rewritten d h =
    ap (λ (b : Text). (read_string b).0) (sym (append-nil (write_string d.rewrite)))
    ∙ ap (λ (p : Text × Text). p.0) (read-write_string d.rewrite [] h)

abbrev pub IsDigest : Digest → Type 0
IsDigest d =
    IsTime d.expires × IsHeaders d.headers × IsHeaders d.secret_headers × HasNoNul d.rewrite

-- A digest is read back from its binary form, where the keys of its maps are different and not empty
-- and no text holds a NUL: all of it but the expiry, of which the milliseconds are kept, and of which
-- nothing is kept where it lies before 1970.
pub unmarshal-marshal :
    (d : Digest)
    → IsDigest d
    → unmarshal (marshal d) ≡ some (record d { expires = to_milli d.expires })
unfolding unmarshal marshal
unmarshal-marshal d (ht, hh, hs, hr) =
    let last = write_string d.rewrite in
    let secrets = write_map d.secret_headers ++ last in
    simp
      (
        read-write_time d.expires (write_map d.headers ++ secrets) ht,
        read-write_map d.headers secrets hh,
        read-write_map d.secret_headers last hs,
        rewritten d hr,
      )
      refl
