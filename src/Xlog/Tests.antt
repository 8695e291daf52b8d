-- ===== src/Xlog/Tests.antt =====
-- A filter of xlog for the lines behind a time, and a file that ends before it.
use pmesh.Base.{true, false, none, some}
use pmesh.Base.Int.{pos}
use pmesh.Base.Text.{codes}
use pmesh.Xlog.Filter.{Filter, Line, FileInfo, StreamFlags, search, between, multi, also, end}

abbrev recent : Filter
recent = multi (also (search (codes "err")) (also (between (some 10) none) end))

abbrev old_line : Line
old_line = record { time = some 5; domain = codes "web"; level = pos 1 }

abbrev old_file : FileInfo
old_file = record { name = codes "web.1"; last_use = 7 }

abbrev flags : StreamFlags
flags = record { tail = true; head = false }
