-- ===== src/Xlog/Muxing/Lines.antt =====
-- What becomes of the lines that xlog/tail_ooo.go gets.
use pmesh.Xlog.Muxing.Pieces.{pieces}
use pmesh.Base.{ℕ, ◌+◌, ◌≡◌, true, Option, none, some, List, [], ◌∷◌, ◌++◌, if◌then◌else◌}
use pmesh.Base.Text.{text_eq}
use pmesh.Xlog.Muxing.{
  Line, OooLog, MuxWriter, Library, Looped, logs_of, named, Event, writes, flushes,
}

-- How often a line is in a list.
abbrev pub times : Line → List Line → ℕ
times x [] = 0
times x (l ∷ ls) = let rest = times x ls in if text_eq l x then rest + 1 else rest

abbrev pub lines_of : List OooLog → List Line
lines_of [] = []
lines_of (l ∷ ls) = l.line ∷ lines_of ls

module _ (lib : Library) where
  -- The line that is passed on for a line that came in.
  abbrev pub marked : List ℕ → Line → Option ℕ → Line
  marked host l none = l
  marked host l (some t) = named lib host l

  abbrev pub marked_all : List ℕ → List Line → List Line
  marked_all host [] = []
  marked_all host (l ∷ ls) = marked host l (lib.parse l) ∷ marked_all host ls

  -- The lines that are complete within their write, as they are passed on.
  abbrev pub given : List Event → List Line
  given [] = []
  given (writes host p ∷ events) = marked_all host (pieces p).0 ++ given events
  given (flushes ∷ events) = given events

  -- How often the writer has a line, in its output and its buffer.
  abbrev total : Line → MuxWriter → ℕ
  total x o = times x o.out + times x (lines_of (logs_of lib o.buf))

  module _ (takes : (out : List Line) (l : Line) → lib.accepts out l ≡ true)
      (sorts : (x : Line) (ls : List OooLog)
        → times x (lines_of (lib.sort ls)) ≡ times x (lines_of ls)) where
    -- The loop has taken in the lines `ls`, and left nothing in the line buffer.
    abbrev Takes : MuxWriter → List Line → Looped → Type 0
    Takes o ls r =
        (r.ok ≡ true)
        × (r.writer.lnbuf ≡ [])
        × ((x : Line) → total x r.writer ≡ total x o + times x ls)

    -- Nothing is left in the line buffer, and the lines of a call are taken in.
    abbrev Has : MuxWriter → List Line → MuxWriter → Type 0
    Has o ls o' = (o'.lnbuf ≡ []) × ((x : Line) → total x o' ≡ total x o + times x ls)
