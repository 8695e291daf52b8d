-- ===== src/Hosts/Tests.antt =====
-- Hosts files of hosts/parsing.go.
use pmesh.Base.{◌≡◌, refl, [], ◌∷◌, List}
use pmesh.Base.Text.{Text, codes}
use pmesh.Hosts.Files.{EntryLine, parse_line, cut, fields_from}

abbrev entry : Text → Text → Text → EntryLine
entry adr host comment = record {
  original_line = [];
  address = adr;
  hostnames = host ∷ [];
  comment = comment;
}

abbrev file : List EntryLine
file = entry (codes "1") (codes "a") [] ∷ entry (codes "2") (codes "b") (codes "pmesh") ∷ []

-- A tab does not end the address.
tab_line : (parse_line (49 ∷ 9 ∷ 97 ∷ [])).hostnames ≡ []
unfolding parse_line cut fields_from
tab_line = refl
