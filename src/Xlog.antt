-- ===== src/Xlog.antt =====
-- xlog: Filter is parser_filter.go, the filters of log lines; Muxing is tail_ooo.go, the writer that
-- puts lines in order.
pub mod Filter
pub mod Skipping
pub mod Muxing
mod Tests
