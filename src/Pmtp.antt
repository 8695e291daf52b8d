-- ===== src/Pmtp.antt =====
-- pmtp: Duplex is jrpc_code.go, the calls that wait for a reply on one connection; Pool is pool_mux.go.
pub mod Duplex
pub mod Pending
pub mod Broken
pub mod Pool
pub mod Sharing
pub mod Stream
mod Tests
