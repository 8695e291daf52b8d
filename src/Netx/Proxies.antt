-- ===== src/Netx/Proxies.antt =====
-- netx/proxies.go: the client behind the proxies that a request came through. netip.ParseAddr and the
-- lookup of Cloudflare's networks are parameters. Header values are bytes, and strings.TrimSpace is
-- that of ASCII texts.
pub mod Trusted
use pmesh.Base.{
  ℕ, zero, suc, Bool, true, false, not, ◌&&◌, ◌||◌, Option, none, some, List, [], ◌∷◌, ◌==◌, leb,
  if◌then◌else◌, if_elim, ◌≡◌, refl, ◌⊎◌, inl, inr, arith, Bool-cases, Option-cases, ap, sym, ◌∙◌,
}
use pmesh.Netx.Ip.{
  Ip, IpPort, ParseAddr, Reading, refused, panicked, read_as, unmarshal_ip, unmarshal_ip_port,
  is_zero, is_public, is_loopback, is_private,
}

abbrev Value : Type 0
Value = List ℕ

pub data Proxier : Type 0 where
  proxier_none cloudflare generic : Proxier

pub record ProxyTraits : Type 0 where
  pub proxier : Proxier
  pub edge : Ip
  pub origin : Ip
  pub country_hint : Option (ℕ × ℕ)

-- `request.RemoteAddr` and the values of X-Forwarded-For, CF-Connecting-IP and CF-IPCountry.
pub record Request : Type 0 where
  pub remote_addr : Value
  pub forwarded_for : Option (List Value)
  pub connecting_ip : Option (List Value)
  pub country : List Value

abbrev pub no_ip : Ip
no_ip = record { low = 0; high = 0 }

abbrev is_space : ℕ → Bool
is_space c = c == 32 || (leb 9 c && leb c 13)

unfoldable pub trim_left : Value → Value
trim_left [] = []
trim_left (c ∷ s) = let rest = trim_left s in if is_space c then rest else c ∷ s

abbrev pub is_blank : Value → Bool
is_blank [] = true
is_blank (c ∷ s) = is_space c && is_blank s

unfoldable pub trim_right : Value → Value
trim_right [] = []
trim_right (c ∷ s) = let rest = trim_right s in if is_blank (c ∷ s) then [] else c ∷ rest

-- `ParseIP`: the zero address for a text that is none.
unfoldable pub parse_ip : ParseAddr → Value → Ip
parse_ip parse s = elim (unmarshal_ip parse s) [ none ↦ no_ip | some ip ↦ ip ]

-- `findFirstPublicIPInForwardList`
unfoldable pub find_first_public : ParseAddr → List Value → Ip
find_first_public parse [] = no_ip
find_first_public parse (v ∷ values) =
    let ip = parse_ip parse (trim_right (trim_left v)) in
    let rest = find_first_public parse values in if is_public ip then ip else rest

unfoldable pub take_generic : Ip → ProxyTraits → ProxyTraits
take_generic adr t = if is_zero adr then t else record t { proxier = generic; origin = adr }

-- X-Forwarded-For
unfoldable pub trust_forwarded : ParseAddr → Option (List Value) → ProxyTraits → ProxyTraits
trust_forwarded parse none t = t
trust_forwarded parse (some values) t =
    if is_loopback t.origin || is_private t.origin
    then take_generic (find_first_public parse values) t
    else t

-- `CountryISO{v[0], v[1]}` of the only value, if it has two bytes.
unfoldable pub country_of : List Value → Option (ℕ × ℕ)
country_of ((a ∷ b ∷ []) ∷ []) = some (a, b)
country_of _ = none

unfoldable pub take_cloudflare : Ip → List Value → ProxyTraits → ProxyTraits
take_cloudflare adr country t =
    if is_zero adr
    then t
    else record t { proxier = cloudflare; origin = adr; country_hint = country_of country }

-- CF-Connecting-IP
unfoldable pub trust_connecting :
    ParseAddr → (Ip → Bool) → List Value → Option (List Value) → ProxyTraits → ProxyTraits
trust_connecting parse is_cloudflare country none t = t
trust_connecting parse is_cloudflare country (some values) t =
    if is_cloudflare t.origin then take_cloudflare (find_first_public parse values) country t else t

unfoldable pub direct : Ip → ProxyTraits
direct ip = record { proxier = proxier_none; edge = ip; origin = ip; country_hint = none }

unfoldable pub traits_of : ParseAddr → (Ip → Bool) → Request → Ip → Option ProxyTraits
traits_of parse is_cloudflare r ip =
    if is_zero ip
    then none
    else some (
        trust_connecting parse is_cloudflare r.country r.connecting_ip
          (trust_forwarded parse r.forwarded_for (direct ip)))

-- The address of `ParseIPPort`.
unfoldable pub edge_of : Reading IpPort → Option Ip
edge_of refused = some no_ip
edge_of panicked = none
edge_of (read_as a) = some a.ip

-- `ResolveProxyTraits`; `none` is a panic.
unfoldable pub resolve_proxy_traits : ParseAddr → (Ip → Bool) → Request → Option ProxyTraits
resolve_proxy_traits parse is_cloudflare r =
    elim (edge_of (unmarshal_ip_port parse r.remote_addr)) [
      | none ↦ none
      | some ip ↦ traits_of parse is_cloudflare r ip
    ]
