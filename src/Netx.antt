-- ===== src/Netx.antt =====
-- Addresses and the maps of address ranges, netx/ip.go and netx/ipmap.go.
pub mod Ip
pub mod IpMap
pub mod Proxies
mod Tests
