-- ===== src/Xlog/Muxing/Tests.antt =====
-- Writes to the writer of xlog/tail_ooo.go, where a line `{`, c, ... has the time c.
use pmesh.Base.{
  ℕ, ◌≡◌, refl, true, Option, none, some, List, [], ◌∷◌, ◌++◌, ◌==◌, ltb, if◌then◌else◌,
}
use pmesh.Xlog.Muxing.{
  Line, OooLog, Library, to_mux_writer, complete_lines, incomplete, joined, write_each, flush,
  write_lines, write_all, write_as, Event, writes, flushes, handle, handle_all,
}

abbrev insert_log : OooLog → List OooLog → List OooLog
insert_log l [] = l ∷ []
insert_log l (m ∷ ls) = if ltb m.time l.time then m ∷ insert_log l ls else l ∷ m ∷ ls

abbrev sort_logs : List OooLog → List OooLog
sort_logs [] = []
sort_logs (l ∷ ls) = insert_log l (sort_logs ls)

abbrev parse_time : Line → Option ℕ
parse_time (c ∷ t ∷ l) = if c == 123 then some t else none
parse_time _ = none

abbrev simple : Library
simple = record {
  parse = parse_time;
  with_host = λ host l. host ++ l;
  sort = sort_logs;
  accepts = λ out l. true;
}

-- Two lines in the wrong order, and a line that ends in a later write.
abbrev traffic : List Event
traffic =
    writes [] (123 ∷ 50 ∷ 10 ∷ 123 ∷ 40 ∷ 10 ∷ 123 ∷ []) ∷ writes [] (60 ∷ 10 ∷ []) ∷ flushes ∷ []

-- The lines come out in order; the beginning of the third one is lost, and its end is no line of JSON.
traffic_written :
    (handle_all simple traffic (to_mux_writer 0)).out
    ≡ (60 ∷ 10 ∷ []) ∷ (123 ∷ 40 ∷ 10 ∷ []) ∷ (123 ∷ 50 ∷ 10 ∷ []) ∷ []
unfolding handle_all handle write_as write_all write_lines complete_lines incomplete joined flush
    write_each to_mux_writer
traffic_written = refl
