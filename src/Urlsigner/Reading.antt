-- ===== src/Urlsigner/Reading.antt =====
-- The loop of `readMap` in urlsigner/digest.go ends on any bytes.
use pmesh.Base.{
  ℕ, zero, suc, ◌≤◌, ◌<◌, ◌≡◌, ◌≢◌, refl, sym, ap, ◌∙◌, none, some, [], ◌∷◌, arith, length,
  Option-cases, inl, inr,
}
use pmesh.Base.Text.{Text}
use pmesh.Urlsigner.Digest.{Headers, until_nul, read_string, set_key, read_entries, read_map}
use pmesh.Urlsigner.RoundTrip.{read_entries_step}

until_nul_shorter : (s : Text) (p : Text × Text) → until_nul s ≡ some p → length p.1 < length s
unfolding until_nul
until_nul_shorter [] p e = ground arith
until_nul_shorter (c ∷ s) p e = elim (Option-cases (until_nul s)) [
  | inl missing ↦ ground arith
  | inr (q, found) ↦ ground (arith, until_nul_shorter s q found)
]

read_string_shorter : (s : Text) → length (read_string s).1 ≤ length s
unfolding read_string
read_string_shorter s = elim (Option-cases (until_nul s)) [
  | inl e ↦ rw (e, read_string) (ground arith)
  | inr (p, e) ↦ rw (e, read_string) (ground (arith, until_nul_shorter s p e))
]

read_entries_stop :
    (fuel : ℕ) (m : Headers) (a b : Text)
    → read_string a ≡ ([], b)
    → read_entries (suc fuel) m a ≡ some (m, b)
unfolding read_entries
read_entries_stop fuel m a b e =
    ap
      (λ (key : Text × Text). elim (key.0) [
        | [] ↦ some (m, key.1)
        | c ∷ k ↦ read_entries fuel (set_key m (c ∷ k) (read_string key.1).0) (read_string key.1).1
      ])
      e

read_entries_total :
    (fuel : ℕ) (m : Headers) (s : Text) → length s < fuel → read_entries fuel m s ≢ none
unfolding read_string
read_entries_total zero m s l e = ground arith
read_entries_total (suc fuel) m s l e = elim (Option-cases (until_nul s)) [
  | inl missing ↦
      let key : read_string s ≡ ([], []) = rw (missing, read_string) refl in
      let stop = read_entries_stop fuel m s [] key in ground arith
  | inr (([], b), found) ↦
      let key : read_string s ≡ ([], b) = rw (found, read_string) refl in
      let stop = read_entries_stop fuel m s b key in ground arith
  | inr ((c ∷ k, b), found) ↦
      let key : read_string s ≡ (c ∷ k, b) = rw (found, read_string) refl in
      let value = read_string b in
      let step = read_entries_step fuel m c k value.0 s b value.1 key refl in
      let left : length value.1 < fuel =
        omega (arith, until_nul_shorter s (c ∷ k, b) found, read_string_shorter b) in
      read_entries_total fuel (set_key m (c ∷ k) value.0) value.1 left (sym step ∙ e)
]

-- `readMap` returns a map and what is left of the buffer, whatever the buffer holds: the fuel of the
-- model, one unit for a byte, does not run out.
pub read_map_total : (s : Text) → read_map s ≢ none
unfolding read_map
read_map_total s = read_entries_total (suc (length s)) [] s (omega arith)
