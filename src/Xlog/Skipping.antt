-- ===== src/Xlog/Skipping.antt =====
-- That the filters of xlog/parser_filter.go skip no file with a line that they include.
use pmesh.Base.{
  ℕ, ◌≡◌, ◌≤◌, refl, Bool, true, false, not, ◌||◌, Option, none, some, arith, Bool-cases, inl, inr,
}
use pmesh.Base.Text.{codes, text_eq, eq_of_text_eq, has_prefix}
use pmesh.Xlog.Filter.{
  Line, FileInfo, StreamFlags, Filter, Filters, search, between, domain_, level_, multi, end, also,
  test_time, go_on, test, test_all, test_file, test_file_all, is_before,
}

-- The line is one of the file: the file was used last no earlier than at the time of the line, and it
-- is the log of the session, or its name starts with the domain of the line.
abbrev pub IsOf : Line → FileInfo → Type 0
IsOf line fi =
    ((t : ℕ) → line.time ≡ some t → t ≤ fi.last_use)
    × ((text_eq fi.name (codes "session") || has_prefix fi.name line.domain) ≡ true)

test_time-file :
    (after before time : Option ℕ) (flags : StreamFlags) (last : ℕ)
    → ((t : ℕ) → time ≡ some t → t ≤ last)
    → (test_time after before time flags).0 ≡ true
    → not (is_before last after) ≡ true
unfolding test_time
test_time-file after before none flags last h e = ground arith
test_time-file none before (some t) flags last h e = refl
test_time-file (some a) before (some t) flags last h e = ground (arith, h t refl)

test_time-stop :
    (after before time : Option ℕ) (flags : StreamFlags)
    → (test_time after before time flags).1 ≡ true
    → (test_time after before time flags).0 ≡ false
unfolding test_time
test_time-stop after before none flags e = refl
test_time-stop after before (some t) flags e = ground arith

go_on_stop :
    (r rest : Bool × Bool)
    → (r.1 ≡ true → r.0 ≡ false)
    → (rest.1 ≡ true → rest.0 ≡ false)
    → (go_on r rest).1 ≡ true
    → (go_on r rest).0 ≡ false
go_on_stop (inc, true) rest h k e = h refl
go_on_stop (false, false) rest h k e = refl
go_on_stop (true, false) rest h k e = k e

mutual
  unfolding test

  test_stop :
      (f : Filter) (line : Line) (flags : StreamFlags)
      → (test f line flags).1 ≡ true
      → (test f line flags).0 ≡ false
  test_stop (search p) line flags e = ground arith
  test_stop (between after before) line flags e = test_time-stop after before line.time flags e
  test_stop (domain_ d) line flags e = ground arith
  test_stop (level_ l) line flags e = ground arith
  test_stop (multi fs) line flags e = test_all_stop fs line flags e

  test_all_stop :
      (fs : Filters) (line : Line) (flags : StreamFlags)
      → (test_all fs line flags).1 ≡ true
      → (test_all fs line flags).0 ≡ false
  test_all_stop end line flags e = ground arith
  test_all_stop (also f fs) line flags e =
      go_on_stop (test f line flags) (test_all fs line flags) (test_stop f line flags)
        (test_all_stop fs line flags) e

go_on_included :
    (r rest : Bool × Bool)
    → (r.1 ≡ true → r.0 ≡ false)
    → (go_on r rest).0 ≡ true
    → (r.0 ≡ true) × (rest.0 ≡ true)
go_on_included (inc, true) rest h e = absurd (ground (arith, h refl))
go_on_included (false, false) rest h e = absurd (ground arith)
go_on_included (true, false) rest h e = (refl, e)

mutual
  unfolding test test_file

  file_included :
      (f : Filter) (line : Line) (flags : StreamFlags) (fi : FileInfo)
      → IsOf line fi
      → (test f line flags).0 ≡ true
      → test_file f fi ≡ true
  file_included (search p) line flags fi o e = refl
  file_included (between after before) line flags fi o e =
      test_time-file after before line.time flags fi.last_use o.0 e
  file_included (domain_ d) line flags fi o e = rw (← eq_of_text_eq line.domain d e) (o.1)
  file_included (level_ l) line flags fi o e = refl
  file_included (multi fs) line flags fi o e = file_all_included fs line flags fi o e

  file_all_included :
      (fs : Filters) (line : Line) (flags : StreamFlags) (fi : FileInfo)
      → IsOf line fi
      → (test_all fs line flags).0 ≡ true
      → test_file_all fs fi ≡ true
  file_all_included end line flags fi o e = refl
  file_all_included (also f fs) line flags fi o e =
      let both =
        go_on_included (test f line flags) (test_all fs line flags) (test_stop f line flags) e in
      ground
        (arith, file_included f line flags fi o both.0, file_all_included fs line flags fi o both.1)

-- A file that a filter skips holds no line that the filter includes, for filters put together in any
-- way; where the time of last use bounds the times of the lines and the file's name starts with their
-- domain, or is that of the session.
pub test_file-test :
    (f : Filter) (line : Line) (flags : StreamFlags) (fi : FileInfo)
    → IsOf line fi
    → test_file f fi ≡ false
    → (test f line flags).0 ≡ false
test_file-test f line flags fi o skip = elim (Bool-cases ((test f line flags).0)) [
  | inl included ↦ absurd (ground (arith, file_included f line flags fi o included))
  | inr excluded ↦ excluded
]
