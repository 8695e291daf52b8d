-- ===== src/Xlog/Muxing.antt =====
-- xlog/tail_ooo.go: `MuxWriter`, which keeps lines for a while and writes them in the order of their times.
-- Parameters: the JSON parser, which gives the time of a line; the line with the host in its caller;
-- sort.Slice by the times; and which writes the output takes, by the writes before. Times are
-- milliseconds, 0 for the zero time.
pub mod Pieces
pub mod Lines
mod Tests
use pmesh.Base.{
  ℕ, ◌+◌, Bool, true, false, Option, none, some, List, [], ◌∷◌, ◌++◌, ◌==◌, ltb, if◌then◌else◌, map,
}

abbrev pub Line : Type 0
Line = List ℕ

-- `oooLog`
pub record OooLog : Type 0 where
  pub line : Line
  pub time : ℕ

-- `MuxWriter`, with the writes that the output took; `buf` is `none` for nil.
pub record MuxWriter : Type 0 where
  pub out : List Line
  pub lnbuf : List ℕ
  pub buf : Option (List OooLog)
  pub flush_time : ℕ

pub record Library : Type 0 where
  pub parse : Line → Option ℕ
  pub with_host : List ℕ → Line → Line
  pub sort : List OooLog → List OooLog
  pub accepts : List Line → Line → Bool

-- `ToMuxWriter` at a time.
unfoldable pub to_mux_writer : ℕ → MuxWriter
to_mux_writer now = record { out = []; lnbuf = []; buf = some []; flush_time = now + 500 }

-- What `ReadBytes('\n')` gives until it gives io.EOF, from the start of a line on.
unfoldable pub complete_lines : List ℕ → List ℕ → List Line
complete_lines start [] = []
complete_lines start (c ∷ p) =
    let ended = complete_lines [] p in
    let more = complete_lines (start ++ c ∷ []) p in
    if c == 10 then (start ++ c ∷ []) ∷ ended else more

-- What follows the last line feed, which the last `ReadBytes` takes out of the buffer.
unfoldable pub incomplete : List ℕ → List ℕ → List ℕ
incomplete start [] = start
incomplete start (c ∷ p) =
    let ended = incomplete [] p in
    let more = incomplete (start ++ c ∷ []) p in if c == 10 then ended else more

unfoldable pub joined : List Line → List ℕ → List ℕ
joined [] tail = tail
joined (l ∷ ls) tail = l ++ joined ls tail

-- The end of the loop of `WriteAs`: the writer, the latest time, and whether no write failed.
pub record Looped : Type 0 where
  pub writer : MuxWriter
  pub max_time : ℕ
  pub ok : Bool

-- A call of `WriteAs` or `Flush`.
pub data Event : Type 0 where
  writes : (host p : List ℕ) → Event
  flushes : Event

module _ (lib : Library) where
  -- The loop of `flushLocked`, which does not look at errors.
  unfoldable pub write_each : List OooLog → List Line → List Line
  write_each [] out = out
  write_each (l ∷ ls) out =
      write_each ls (if lib.accepts out l.line then out ++ l.line ∷ [] else out)

  abbrev pub logs_of : Option (List OooLog) → List OooLog
  logs_of none = []
  logs_of (some ls) = ls

  -- `flushLocked`, and `Flush`
  unfoldable pub flush : MuxWriter → MuxWriter
  flush o = record o { out = write_each (lib.sort (logs_of o.buf)) o.out; buf = none }

  -- A line that is written at once; where the write fails, the bytes behind it stay in the line buffer.
  abbrev pub write_now : MuxWriter → Line → List ℕ → ℕ → (MuxWriter → Looped) → Looped
  write_now o l left max_time next =
      if lib.accepts o.out l
      then next (record o { out = o.out ++ l ∷ [] })
      else record { writer = record o { lnbuf = left }; max_time = max_time; ok = false }

  -- The line with the host, if there is one.
  abbrev pub named : List ℕ → Line → Line
  named [] l = l
  named (c ∷ host) l = lib.with_host (c ∷ host) l

  abbrev pub later : ℕ → ℕ → ℕ
  later t max_time = if ltb max_time t then t else max_time

  -- A line with its time.
  abbrev pub keep_or_write :
      (ℕ → MuxWriter → Looped) → Line → ℕ → List ℕ → ℕ → MuxWriter → Option (List OooLog) → Looped
  keep_or_write next l t left max_time o (some ls) =
      next (later t max_time) (record o { buf = some (ls ++ record { line = l; time = t } ∷ []) })
  keep_or_write next l t left max_time o none = write_now o l left max_time (next max_time)

  abbrev pub handle_line :
      (ℕ → MuxWriter → Looped) → List ℕ → Line → List ℕ → ℕ → MuxWriter → Option ℕ → Looped
  handle_line next host l left max_time o none = write_now o l left max_time (next max_time)
  handle_line next host l left max_time o (some t) =
      keep_or_write next (named host l) t left max_time o o.buf

  -- The rounds of the loop, from the lines that are left.
  unfoldable pub write_lines : List ℕ → List Line → List ℕ → ℕ → MuxWriter → Looped
  write_lines host [] tail max_time o = record {
    writer = record o { lnbuf = [] };
    max_time = max_time;
    ok = true;
  }
  write_lines host (l ∷ ls) tail max_time o =
      handle_line (λ t w. write_lines host ls tail t w) host l (joined ls tail) max_time o
        (lib.parse l)

  -- The end of `WriteAs`.
  abbrev pub flush_late : Looped → MuxWriter
  flush_late r =
      if r.ok
      then if ltb r.writer.flush_time r.max_time then flush r.writer else r.writer
      else r.writer

  -- `WriteAs` behind the write to the line buffer.
  unfoldable pub write_all : List ℕ → List ℕ → MuxWriter → MuxWriter
  write_all host all o =
      flush_late (write_lines host (complete_lines [] all) (incomplete [] all) 0 o)

  -- `WriteAs`: the writer behind it.
  unfoldable pub write_as : List ℕ → List ℕ → MuxWriter → MuxWriter
  write_as host p o = write_all host (o.lnbuf ++ p) o

  unfoldable pub handle : Event → MuxWriter → MuxWriter
  handle (writes host p) o = write_as host p o
  handle flushes o = flush o

  unfoldable pub handle_all : List Event → MuxWriter → MuxWriter
  handle_all [] o = o
  handle_all (e ∷ events) o = handle_all events (handle e o)
