-- ===== src/Hosts/Insert.antt =====
-- What `Insert` of hosts/parsing.go does to a hosts file.
use pmesh.Base.{
  ◌≡◌, refl, ap, ◌∙◌, Bool, true, false, Option, none, some, List, [], ◌∷◌, ◌++◌, arith,
  if◌then◌else◌, if_elim, Bool-cases, inl, inr, All, append-nil,
}
use pmesh.Base.Text.{Text, text_eq, text_eq_refl, eq_of_text_eq, has_prefix}
use pmesh.Hosts.Files.{
  EntryLine, Mapping, has_host, resolve, address_or, is_new, put, is_own, foreign, own_mapping,
  put_all, own_lines, insert, trim_space, is_empty,
}

unfoldable pub get : Text → Mapping → Option Text
get k [] = none
get k ((l, w) ∷ m) = if text_eq l k then some w else get k m

get-put_same : (m : Mapping) (k v : Text) → get k (put m k v) ≡ some v
unfolding get put
get-put_same [] k v = rw (text_eq_refl k) refl
get-put_same ((l, w) ∷ m) k v = elim (Bool-cases (text_eq l k)) [
  | inl same ↦ ground (arith, text_eq_refl k)
  | inr other ↦ ground (arith, get-put_same m k v)
]

get-put_other : (m : Mapping) (k j v : Text) → text_eq k j ≡ false → get j (put m k v) ≡ get j m
unfolding get put
get-put_other [] k j v h = rw h refl
get-put_other ((l, w) ∷ m) k j v h = elim (Bool-cases (text_eq l k)) [
  | inl same ↦
      let e : l ≡ k = eq_of_text_eq l k same in
      let g : text_eq l j ≡ false = rw e h in rw (same, h, g) refl
  | inr other ↦ ground (arith, get-put_other m k j v h)
]

put_all-append : (m a b : Mapping) → put_all m (a ++ b) ≡ put_all (put_all m a) b
unfolding put_all
put_all-append m [] b = refl
put_all-append m ((h, v) ∷ a) b =
    put_all-append (if is_empty (trim_space h) then m else put m (trim_space h) (trim_space v)) a b

get-put_all_other :
    (m new : Mapping) (j : Text)
    → All (λ (e : Text × Text). text_eq (trim_space e.0) j ≡ false) new
    → get j (put_all m new) ≡ get j m
unfolding put_all
get-put_all_other m [] j h = refl
get-put_all_other m ((k, v) ∷ new) j (hk, h) =
    let key = trim_space k in
    get-put_all_other (if is_empty key then m else put m key (trim_space v)) new j h
    ∙ if_elim (λ n. get j n ≡ get j m) (is_empty key) (λ skip. refl)
        (λ kept. get-put_other m key j (trim_space v) hk)

resolve-append :
    (host : Text) (es fs : List EntryLine)
    → resolve host es ≡ none
    → resolve host (es ++ fs) ≡ resolve host fs
unfolding resolve
resolve-append host [] fs h = refl
resolve-append host (e ∷ es) fs h = ground (arith, resolve-append host es fs)

resolve-append_some :
    (host a : Text) (es fs : List EntryLine)
    → resolve host es ≡ some a
    → resolve host (es ++ fs) ≡ some a
unfolding resolve
resolve-append_some host a [] fs h = ground arith
resolve-append_some host a (e ∷ es) fs h = ground (arith, resolve-append_some host a es fs)

resolve-own_lines : (host : Text) (m : Mapping) → resolve host (own_lines m) ≡ get host m
unfolding resolve own_lines get has_host
resolve-own_lines host [] = refl
resolve-own_lines host ((k, v) ∷ m) = ground (arith, resolve-own_lines host m)

foreign-append : (es fs : List EntryLine) → foreign (es ++ fs) ≡ foreign es ++ foreign fs
unfolding foreign
foreign-append [] fs = refl
foreign-append (e ∷ es) fs = ground (arith, foreign-append es fs)

foreign-foreign : (es : List EntryLine) → foreign (foreign es) ≡ foreign es
unfolding foreign
foreign-foreign [] = refl
foreign-foreign (e ∷ es) = ground (arith, foreign-foreign es)

foreign-own_lines : (m : Mapping) → foreign (own_lines m) ≡ []
unfolding foreign own_lines is_own has_prefix text_eq
foreign-own_lines [] = refl
foreign-own_lines ((k, v) ∷ m) = foreign-own_lines m

-- The lines of a hosts file that are not marked as those of pmesh stay as they are and in their order,
-- whatever is inserted.
pub foreign-insert :
    (ordered : Mapping → Mapping) (new : Mapping) (es : List EntryLine)
    → foreign (insert ordered new es).0 ≡ foreign es
unfolding insert
foreign-insert ordered new es =
    let m = ordered (put_all (own_mapping [] es) new) in
    if_elim (λ (r : List EntryLine × Bool). foreign r.0 ≡ foreign es) (is_new new es)
      (λ changed.
        foreign-append (foreign es) (own_lines m)
        ∙ ap (λ fs. foreign (foreign es) ++ fs) (foreign-own_lines m)
        ∙ append-nil (foreign (foreign es))
        ∙ foreign-foreign es)
      (λ unchanged. refl)

get-put_all :
    (m before after : Mapping) (host adr : Text)
    → trim_space host ≡ host
    → trim_space adr ≡ adr
    → is_empty host ≡ false
    → All (λ (e : Text × Text). text_eq (trim_space e.0) host ≡ false) after
    → get host (put_all m (before ++ (host, adr) ∷ after)) ≡ some adr
unfolding put_all
get-put_all m before after host adr hh ha he hl =
    let n = put_all m before in
    ap (get host) (put_all-append m before ((host, adr) ∷ after))
    ∙ get-put_all_other
        (if is_empty (trim_space host) then n else put n (trim_space host) (trim_space adr)) after
        host hl
    ∙ rw hh (rw ha (rw he (get-put_same n host adr)))

is_new_known :
    (before after : Mapping) (host adr : Text) (es : List EntryLine)
    → is_new (before ++ (host, adr) ∷ after) es ≡ false
    → address_or (resolve host es) ≡ adr
unfolding is_new
is_new_known [] after host adr es h =
    eq_of_text_eq (address_or (resolve host es)) adr (ground arith)
is_new_known ((k, v) ∷ before) after host adr es h =
    is_new_known before after host adr es (ground arith)

-- Behind an insertion every host of the mapping is resolved to its address, where no foreign line
-- names the host, no later entry of the mapping has the same host, and host and address have no space
-- around them; in whatever order the new lines are written.
pub resolve-insert :
    (ordered : Mapping → Mapping) (before after : Mapping) (host adr : Text) (es : List EntryLine)
    → ((m : Mapping) (k : Text) → get k (ordered m) ≡ get k m)
    → resolve host (foreign es) ≡ none
    → trim_space host ≡ host
    → trim_space adr ≡ adr
    → is_empty host ≡ false
    → All (λ (e : Text × Text). text_eq (trim_space e.0) host ≡ false) after
    → address_or (resolve host (insert ordered (before ++ (host, adr) ∷ after) es).0) ≡ adr
unfolding insert
resolve-insert ordered before after host adr es ho hf hh ha he hl =
    let new = before ++ (host, adr) ∷ after in
    let full = put_all (own_mapping [] es) new in
    if_elim (λ (r : List EntryLine × Bool). address_or (resolve host r.0) ≡ adr) (is_new new es)
      (λ changed. ap address_or (
        resolve-append host (foreign es) (own_lines (ordered full)) hf
        ∙ resolve-own_lines host (ordered full)
        ∙ ho full host
        ∙ get-put_all (own_mapping [] es) before after host adr hh ha he hl))
      (λ unchanged. is_new_known before after host adr es unchanged)

is_new_shadowed :
    (before after : Mapping) (host adr a : Text) (es : List EntryLine)
    → resolve host es ≡ some a
    → text_eq a adr ≡ false
    → is_new (before ++ (host, adr) ∷ after) es ≡ true
unfolding is_new
is_new_shadowed [] after host adr a es h ne = rw (h, is_new) (ground arith)
is_new_shadowed ((k, v) ∷ before) after host adr a es h ne =
    ground (arith, is_new_shadowed before after host adr a es h ne)

-- Where a foreign line gives the host another address, an insertion that changes the file does not
-- change that of the host, and the next one with the same mapping changes the file again.
pub insert_shadowed :
    (ordered : Mapping → Mapping) (before after : Mapping) (host adr a : Text) (es : List EntryLine)
    → resolve host (foreign es) ≡ some a
    → text_eq a adr ≡ false
    → is_new (before ++ (host, adr) ∷ after) es ≡ true
    → let first = insert ordered (before ++ (host, adr) ∷ after) es in
      (resolve host first.0 ≡ some a)
      × ((insert ordered (before ++ (host, adr) ∷ after) first.0).1 ≡ true)
unfolding insert
insert_shadowed ordered before after host adr a es h ne new =
    let m = before ++ (host, adr) ∷ after in
    let lines = own_lines (ordered (put_all (own_mapping [] es) m)) in
    let found = resolve-append_some host a (foreign es) lines h in
    let again = is_new_shadowed before after host adr a (foreign es ++ lines) found ne in
    rw new (found, rw again refl)
