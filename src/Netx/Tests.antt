-- ===== src/Netx/Tests.antt =====
-- Runs of netx.
use pmesh.Base.{
  ℕ, List, if◌then◌else◌, true, false, ◌||◌, ◌≡◌, refl, ◌⊎◌, none, some, [], ◌∷◌, arith,
}
use pmesh.Base.Text.{codes, text_eq}
use pmesh.Netx.Ip.{
  Ip, ParseAddr, is_v4, unmarshal_ip_port, unmarshal_ip, read_host, parse_uint, parse_uint16,
  last_index, ip_from_slice, ipv4, is_zero, is_public, is_private, is_loopback, is_unspecified,
  equal_ip,
}
use pmesh.Netx.Proxies.{
  ProxyTraits, Request, generic, resolve_proxy_traits, traits_of, edge_of, trust_forwarded,
  trust_connecting, take_generic, direct, find_first_public, parse_ip, trim_left, trim_right,
}
use pmesh.Netx.Proxies.Trusted.{is_near, resolve_proxy_traits_lem}
use pmesh.Netx.IpMap.{IpMap, find}
use pmesh.Netx.IpMap.Search.{find_complete}

-- fe80:: and 2001::
abbrev local : Ip
local = record { low = 0; high = 0xfe80000000000000 }

abbrev global : Ip
global = record { low = 0; high = 0x2001000000000000 }

abbrev no_address : ParseAddr
no_address b = none

-- 10.0.0.0 to 10.255.255.255, and 192.168.0.0 to 192.168.255.255
abbrev ranges : IpMap ℕ
ranges = record {
  v4 =
      record { first = 0x0a000000; last = 0x0affffff; info = 1 }
      ∷ record { first = 0xc0a80000; last = 0xc0a8ffff; info = 2 }
      ∷ [];
  v6 = [];
}

abbrev router : Ip
router = record { low = 0xffffc0a80001; high = 0 }

find_complete_example : find ranges router ≡ some 2
unfolding is_v4
find_complete_example =
    find_complete ranges router 1 (record { first = 0xc0a80000; last = 0xc0a8ffff; info = 2 }) refl
      (omega arith, (omega arith, omega arith, tt)) refl (omega arith) (omega arith)

-- The texts 8.8 and 10.7 as short forms of addresses.
abbrev dotted : ParseAddr
dotted b =
    if text_eq b (codes "8.8")
    then some (8 ∷ 0 ∷ 0 ∷ 8 ∷ [])
    else if text_eq b (codes "10.7")
    then some (10 ∷ 0 ∷ 0 ∷ 7 ∷ [])
    else none

-- A request from 10.7:80 that names 8.8, and one that names the list "8.8, 9.9" in one value.
abbrev forwarded : List (List ℕ) → Request
forwarded values = record {
  remote_addr = codes "10.7:80";
  forwarded_for = some values;
  connecting_ip = none;
  country = [];
}

abbrev seen_through : ProxyTraits
seen_through = record {
  proxier = generic;
  edge = record { low = 0xffff0a000007; high = 0 };
  origin = record { low = 0xffff08000008; high = 0 };
  country_hint = none;
}

names_client :
    resolve_proxy_traits dotted (λ ip. false) (forwarded (codes " 8.8" ∷ [])) ≡ some seen_through
unfolding resolve_proxy_traits traits_of edge_of trust_forwarded trust_connecting take_generic
    direct find_first_public parse_ip trim_left trim_right unmarshal_ip_port unmarshal_ip read_host
    parse_uint parse_uint16 last_index ip_from_slice ipv4 is_zero is_public is_private is_loopback
    is_unspecified is_v4 equal_ip text_eq
names_client = refl

-- A list in one value is no address, so the client is the proxy.
ignores_list :
    resolve_proxy_traits dotted (λ ip. false) (forwarded (codes "8.8, 9.9" ∷ []))
    ≡ some (direct (record { low = 0xffff0a000007; high = 0 }))
unfolding resolve_proxy_traits traits_of edge_of trust_forwarded trust_connecting take_generic
    direct find_first_public parse_ip trim_left trim_right unmarshal_ip_port unmarshal_ip read_host
    parse_uint parse_uint16 last_index ip_from_slice ipv4 is_zero is_public is_private is_loopback
    is_unspecified is_v4 equal_ip text_eq
ignores_list = refl

resolve_proxy_traits_lem_example :
    (edge : Ip) × (edge_of (unmarshal_ip_port dotted (codes "10.7:80")) ≡ some edge)
    × (is_zero edge ≡ false)
    × (seen_through.edge ≡ edge)
    × ((seen_through ≡ direct edge)
        ⊎ ((is_public seen_through.origin ≡ true) × ((is_near edge || false) ≡ true)))
resolve_proxy_traits_lem_example =
    resolve_proxy_traits_lem dotted (λ ip. false) (forwarded (codes " 8.8" ∷ [])) seen_through
      names_client
