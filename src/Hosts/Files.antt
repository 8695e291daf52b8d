-- ===== src/Hosts/Files.antt =====
-- hosts/parsing.go: the lines of a hosts file and the changes to it. Texts are code points; a `Mapping`
-- is the list of its entries in the order in which it is ranged over.
use pmesh.Base.{
  ℕ, Bool, true, false, not, ◌&&◌, ◌||◌, Option, none, some, List, [], ◌∷◌, ◌++◌, leb, ◌==◌,
  if◌then◌else◌,
}
use pmesh.Base.Text.{Text, codes, text_eq, has_prefix}

pub record EntryLine : Type 0 where
  pub original_line : Text
  pub address : Text
  pub hostnames : List Text
  pub comment : Text

-- `EntryLine.HasHost`
unfoldable pub has_host : Text → List Text → Bool
has_host host [] = false
has_host host (h ∷ hs) = let rest = has_host host hs in if text_eq h host then true else rest

-- strings.Join, with spaces
unfoldable pub join_spaces : List Text → Text
join_spaces [] = []
join_spaces (h ∷ []) = h
join_spaces (h ∷ g ∷ hs) = h ++ (32 ∷ join_spaces (g ∷ hs))

abbrev pub is_empty : Text → Bool
is_empty [] = true
is_empty (c ∷ s) = false

abbrev no_hosts : List Text → Bool
no_hosts [] = true
no_hosts (h ∷ hs) = false

-- `EntryLine.String`
unfoldable pub line_text : EntryLine → Text
line_text h =
    if not (is_empty h.original_line)
    then h.original_line
    else if is_empty h.comment
    then if no_hosts h.hostnames then h.address else h.address ++ (32 ∷ join_spaces h.hostnames)
    else h.address ++ (32 ∷ (join_spaces h.hostnames ++ (codes " # " ++ h.comment)))

-- unicode.IsSpace
unfoldable pub is_space : ℕ → Bool
is_space c =
    (leb 9 c && leb c 13)
    || c == 32
    || c == 133
    || c == 160
    || c == 5760
    || (leb 8192 c && leb c 8202)
    || c == 8232
    || c == 8233
    || c == 8239
    || c == 8287
    || c == 12288

unfoldable pub trim_left : Text → Text
trim_left [] = []
trim_left (c ∷ s) = let rest = trim_left s in if is_space c then rest else c ∷ s

unfoldable pub trim_right : Text → Text
trim_right [] = []
trim_right (c ∷ s) = let rest = trim_right s in if is_space c && is_empty rest then [] else c ∷ rest

abbrev pub trim_space : Text → Text
trim_space s = trim_right (trim_left s)

-- strings.Cut: the part before the separator, and the part behind it if there is one.
unfoldable pub cut : ℕ → Text → Text × Option Text
cut sep [] = ([], none)
cut sep (c ∷ s) = let rest = cut sep s in if c == sep then ([], some s) else (c ∷ rest.0, rest.1)

-- strings.Fields, with the field that is read so far.
unfoldable pub fields_from : Text → Text → List Text
fields_from field [] = if is_empty field then [] else field ∷ []
fields_from field (c ∷ s) =
    let inside = fields_from (field ++ c ∷ []) s in
    let outside = fields_from [] s in
    if is_space c then if is_empty field then outside else field ∷ outside else inside

abbrev behind : Option Text → Text
behind none = []
behind (some s) = s

abbrev comment_of : Option Text → Text
comment_of none = []
comment_of (some s) = trim_space s

-- `EntryLine.UnmarshalText` of an empty entry; it has no error.
unfoldable pub parse_line : Text → EntryLine
parse_line line =
    let parts = cut 35 line in
    let words = cut 32 parts.0 in
    record {
      original_line = line;
      address = trim_space words.0;
      hostnames = fields_from [] (behind words.1);
      comment = comment_of parts.1;
    }

-- `Config.Resolve` over `resolveLine`; none is a host without a line.
unfoldable pub resolve : Text → List EntryLine → Option Text
resolve host [] = none
resolve host (e ∷ es) =
    let rest = resolve host es in if has_host host e.hostnames then some e.address else rest

abbrev pub address_or : Option Text → Text
address_or none = []
address_or (some a) = a

abbrev pub Mapping : Type 0
Mapping = List (Text × Text)

-- Whether some entry of the mapping is not resolved to its address.
unfoldable pub is_new : Mapping → List EntryLine → Bool
is_new [] es = false
is_new ((host, adr) ∷ m) es =
    let rest = is_new m es in
    if not (text_eq (address_or (resolve host es)) adr) then true else rest

-- `m[k] = v`
unfoldable pub put : Mapping → Text → Text → Mapping
put [] k v = (k, v) ∷ []
put ((l, w) ∷ m) k v = let rest = put m k v in if text_eq l k then (k, v) ∷ m else (l, w) ∷ rest

-- The lines with a comment of pmesh
unfoldable pub is_own : EntryLine → Bool
is_own e = has_prefix e.comment (codes "pmesh")

unfoldable pub foreign : List EntryLine → List EntryLine
foreign [] = []
foreign (e ∷ es) = let rest = foreign es in if is_own e then rest else e ∷ rest

unfoldable pub put_hosts : Mapping → List Text → Text → Mapping
put_hosts m [] adr = m
put_hosts m (h ∷ hs) adr = put_hosts (put m h adr) hs adr

unfoldable pub own_mapping : Mapping → List EntryLine → Mapping
own_mapping m [] = m
own_mapping m (e ∷ es) = own_mapping (if is_own e then put_hosts m e.hostnames e.address else m) es

unfoldable pub put_all : Mapping → Mapping → Mapping
put_all m [] = m
put_all m ((host, adr) ∷ new) =
    put_all (if is_empty (trim_space host) then m else put m (trim_space host) (trim_space adr)) new

unfoldable pub own_lines : Mapping → List EntryLine
own_lines [] = []
own_lines ((host, adr) ∷ m) =
    record { original_line = []; address = adr; hostnames = host ∷ []; comment = codes "pmesh" }
    ∷ own_lines m

-- `Config.Insert`: the new configuration and whether it changed. `ordered` is the order in which the
-- complete mapping is ranged over at the end.
unfoldable pub insert : (Mapping → Mapping) → Mapping → List EntryLine → List EntryLine × Bool
insert ordered new es =
    if is_new new es
    then (foreign es ++ own_lines (ordered (put_all (own_mapping [] es) new)), true)
    else (es, false)

-- `Config.String`
unfoldable pub config_text : List EntryLine → Text
config_text [] = []
config_text (e ∷ es) = line_text e ++ (10 ∷ config_text es)

-- `Config.UnmarshalText` of an empty configuration, with the line that is read so far.
unfoldable pub parse_lines : Text → Text → List EntryLine
parse_lines line [] = if is_empty line then [] else parse_line line ∷ []
parse_lines line (c ∷ s) =
    let inside = parse_lines (line ++ c ∷ []) s in
    let outside = parse_lines [] s in
    if c == 10 then if is_empty line then outside else parse_line line ∷ outside else inside

unfoldable pub same_texts : List Text → List Text → Bool
same_texts [] [] = true
same_texts [] (t ∷ ts) = false
same_texts (s ∷ ss) [] = false
same_texts (s ∷ ss) (t ∷ ts) = text_eq s t && same_texts ss ts

-- `EntryLine.Equals`
unfoldable pub line_equals : EntryLine → EntryLine → Bool
line_equals h o =
    if not (text_eq h.original_line o.original_line)
    then false
    else if is_empty h.original_line
    then text_eq h.address o.address
      && text_eq h.comment o.comment
      && same_texts h.hostnames o.hostnames
    else true

-- `Config.Equals`
unfoldable pub config_equals : List EntryLine → List EntryLine → Bool
config_equals [] [] = true
config_equals [] (o ∷ os) = false
config_equals (h ∷ hs) [] = false
config_equals (h ∷ hs) (o ∷ os) = line_equals h o && config_equals hs os
