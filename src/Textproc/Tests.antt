-- ===== src/Textproc/Tests.antt =====
-- Encodings of textproc/encoder.go.
use pmesh.Base.{◌≡◌, refl, true, false, none, some, [], ◌∷◌, ◌++◌}
use pmesh.Base.Text.{codes}
use pmesh.Textproc.{
  literal, Encoding, new_encoding, with_encoder, with_discard_set, with_no_ansi, with_line_flush,
  with_tab_width, json_escaped, with_json_escaped, with_json_controls, wrote, flushed, index,
  after_ansi, encode_byte, write_some, encode_loop, encode_part,
}
use pmesh.Textproc.Spelling.{tokens, spell, never, encode_part-spell}

abbrev terminal : Encoding
terminal =
    with_line_flush (with_no_ansi (with_tab_width 2 (with_discard_set (13 ∷ []) new_encoding)))

strips_color :
    (encode_part never terminal (27 ∷ 91 ∷ 109 ∷ 97 ∷ 13 ∷ 9 ∷ 10 ∷ 98 ∷ []) []).log
    ≡ wrote (98 ∷ []) ∷ flushed ∷ wrote (32 ∷ 32 ∷ []) ∷ wrote (97 ∷ []) ∷ []
unfolding encode_part encode_loop index encode_byte write_some after_ansi with_line_flush
    with_no_ansi with_tab_width with_discard_set with_encoder new_encoding
strips_color = refl

-- An escape sequence that two writes share is written from the second one on.
split_escape_leaks :
    (encode_part never terminal
      (51 ∷ 109 ∷ 97 ∷ [])
      (encode_part never terminal (27 ∷ 91 ∷ []) []).log).log
    ≡ wrote (51 ∷ 109 ∷ 97 ∷ []) ∷ []
unfolding encode_part encode_loop index encode_byte write_some after_ansi with_line_flush
    with_no_ansi with_tab_width with_discard_set with_encoder new_encoding
split_escape_leaks = refl

-- Without an argument, the quotes are left as they are.
quotes_stay : with_json_controls new_encoding 34 ≡ none
unfolding with_json_controls new_encoding
quotes_stay = refl

escapes_controls : with_json_controls new_encoding 31 ≡ some (literal (codes "\\u001f"))
unfolding with_json_controls new_encoding json_escaped
escapes_controls = refl

escapes_quotes : with_json_escaped (34 ∷ 65 ∷ []) new_encoding 34 ≡ some (literal (92 ∷ 34 ∷ []))
unfolding with_json_escaped with_encoder new_encoding json_escaped
escapes_quotes = refl

encode_part-spell_example :
    let w = encode_part never terminal (27 ∷ 109 ∷ 97 ∷ 10 ∷ []) [] in
    (w.ok ≡ true) × (tokens w.log ≡ tokens [] ++ spell terminal false (27 ∷ 109 ∷ 97 ∷ 10 ∷ []))
encode_part-spell_example = encode_part-spell terminal (27 ∷ 109 ∷ 97 ∷ 10 ∷ []) []
