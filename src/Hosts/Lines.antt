-- ===== src/Hosts/Lines.antt =====
-- That hosts/parsing.go writes a hosts file as it was read.
use pmesh.Base.{
  ◌≡◌, refl, sym, ap, ◌∙◌, false, List, [], ◌∷◌, ◌++◌, ◌==◌, All, append_assoc, append-nil,
}
use pmesh.Base.Text.{Text}
use pmesh.Hosts.Files.{is_empty, config_text, parse_lines, parse_line, line_text}

-- A line without its line break.
abbrev pub IsLine : Text → Type 0
IsLine l = (is_empty l ≡ false) × All (λ c. (c == 10) ≡ false) l

unfoldable pub unlines : List Text → Text
unlines [] = []
unlines (l ∷ ls) = l ++ (10 ∷ unlines ls)

-- The reader has the part `line` of a line.
parse_lines-line :
    (line rest s : Text)
    → All (λ c. (c == 10) ≡ false) rest
    → is_empty (line ++ rest) ≡ false
    → parse_lines line (rest ++ (10 ∷ s)) ≡ parse_line (line ++ rest) ∷ parse_lines [] s
unfolding parse_lines
parse_lines-line line [] s h ne =
    let whole = append-nil line in
    let full : is_empty line ≡ false = ap is_empty (sym whole) ∙ ne in
    rw full (ap (λ l. parse_line l ∷ parse_lines [] s) (sym whole))
parse_lines-line line (c ∷ rest) s (hc, h) ne =
    let whole = append_assoc line (c ∷ []) rest in
    rw hc (
      parse_lines-line (line ++ c ∷ []) rest s h (ap is_empty whole ∙ ne)
      ∙ ap (λ l. parse_line l ∷ parse_lines [] s) whole)

line_text-parse_line : (l : Text) → is_empty l ≡ false → line_text (parse_line l) ≡ l
unfolding line_text parse_line
line_text-parse_line l ne = rw ne refl

-- A hosts file whose lines are not empty is written exactly as it was read.
pub config_text-parse_lines :
    (ls : List Text) → All IsLine ls → config_text (parse_lines [] (unlines ls)) ≡ unlines ls
unfolding unlines config_text parse_lines
config_text-parse_lines [] h = refl
config_text-parse_lines (l ∷ ls) ((ne, hl), h) =
    ap config_text (parse_lines-line [] l (unlines ls) hl ne)
    ∙ ap (λ t. t ++ (10 ∷ config_text (parse_lines [] (unlines ls)))) (line_text-parse_line l ne)
    ∙ ap (λ t. l ++ (10 ∷ t)) (config_text-parse_lines ls h)
