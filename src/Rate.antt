-- ===== src/Rate.antt =====
-- The rate limiter, rate/window.go and rate/limit.go.
pub mod Window
pub mod Limit
