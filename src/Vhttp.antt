-- ===== src/Vhttp.antt =====
-- The router: vhttp/pattern.go, vhttp/mux.go and the virtual hosts of vhttp/vhost.go.
pub mod Pattern
pub mod Mux
pub mod Groups
pub mod Hosting
pub mod Buffered
pub mod Client
pub mod Blocking
pub mod Evidence
pub mod Trust
mod Tests
