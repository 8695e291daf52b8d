-- ===== src/Netx/Proxies/Trusted.antt =====
-- Whom netx/proxies.go believes about the client of a request.
use pmesh.Base.{
  Bool, true, false, ◌||◌, Option, none, some, List, [], ◌∷◌, if_elim, ◌≡◌, refl, ◌⊎◌, inl, inr,
  arith, Bool-cases, Option-cases, ap, sym, ◌∙◌,
}
use pmesh.Netx.Ip.{Ip, ParseAddr, unmarshal_ip_port, is_zero, is_public, is_loopback, is_private}
use pmesh.Netx.Proxies.{
  Value, ProxyTraits, Request, parse_ip, trim_left, trim_right, find_first_public, take_generic,
  trust_forwarded, take_cloudflare, trust_connecting, direct, traits_of, edge_of,
  resolve_proxy_traits,
}

find_first_public-Public :
    (parse : ParseAddr) (values : List Value)
    → (is_zero (find_first_public parse values) ≡ true)
      ⊎ (is_public (find_first_public parse values) ≡ true)
unfolding find_first_public is_zero
find_first_public-Public parse [] = inl refl
find_first_public-Public parse (v ∷ values) =
    if_elim (λ ip. (is_zero ip ≡ true) ⊎ (is_public ip ≡ true))
      (is_public (parse_ip parse (trim_right (trim_left v)))) (λ t. inr t)
      (λ f. find_first_public-Public parse values)

abbrev pub is_near : Ip → Bool
is_near edge = is_loopback edge || is_private edge

-- The client is the edge, and nothing else is said of it, or it is a public address that an edge which
-- is trusted names.
abbrev Named : (Ip → Bool) → Ip → ProxyTraits → Type 0
Named is_cloudflare edge t =
    (t.edge ≡ edge)
    × ((t ≡ direct edge)
        ⊎ ((is_public t.origin ≡ true) × ((is_near edge || is_cloudflare edge) ≡ true)))

forwarded-Named :
    (parse : ParseAddr) (is_cloudflare : Ip → Bool) (edge : Ip) (values : Option (List Value))
    → let t = trust_forwarded parse values (direct edge) in
      (t.edge ≡ edge) × ((t ≡ direct edge) ⊎ ((is_public t.origin ≡ true) × (is_near edge ≡ true)))
unfolding trust_forwarded take_generic direct
forwarded-Named parse is_cloudflare edge none = (refl, inl refl)
forwarded-Named parse is_cloudflare edge (some values) =
    let adr = find_first_public parse values in
    let P : ProxyTraits → Type 0 = λ t.
      (t.edge ≡ edge)
      × ((t ≡ direct edge) ⊎ ((is_public t.origin ≡ true) × (is_near edge ≡ true))) in
    if_elim P (is_near edge)
      (λ near.
        if_elim P (is_zero adr) (λ z. (refl, inl refl))
          (λ some_adr. elim (find_first_public-Public parse values) [
            | inl z ↦ absurd (ground arith)
            | inr public ↦ (refl, inr (public, near))
          ]))
      (λ far. (refl, inl refl))

origin-direct : (edge : Ip) → (direct edge).origin ≡ edge
unfolding direct
origin-direct edge = refl

connecting-Named :
    (parse : ParseAddr) (is_cloudflare : Ip → Bool) (edge : Ip) (country : List Value)
    (values : Option (List Value)) (t : ProxyTraits)
    → (t.edge ≡ edge) × ((t ≡ direct edge) ⊎ ((is_public t.origin ≡ true) × (is_near edge ≡ true)))
    → Named is_cloudflare edge (trust_connecting parse is_cloudflare country values t)
unfolding trust_connecting take_cloudflare
connecting-Named parse is_cloudflare edge country none t (e, inl same) = (e, inl same)
connecting-Named parse is_cloudflare edge country none t (e, inr (public, near)) =
    (e, inr (public, ground arith))
connecting-Named parse is_cloudflare edge country (some values) t (e, before) =
    let adr = find_first_public parse values in
    let kept : Named is_cloudflare edge t = elim before [
      | inl same ↦ (e, inl same)
      | inr (public, near) ↦ (e, inr (public, ground arith))
    ] in
    if_elim (Named is_cloudflare edge) (is_cloudflare t.origin)
      (λ cf.
        if_elim (Named is_cloudflare edge) (is_zero adr) (λ z. kept)
          (λ some_adr. elim (find_first_public-Public parse values) [
            | inl z ↦ absurd (ground arith)
            | inr public ↦ (e, inr (public, trusted cf before))
          ]))
      (λ other. kept)
  where
    trusted :
        is_cloudflare t.origin ≡ true
        → (t ≡ direct edge) ⊎ ((is_public t.origin ≡ true) × (is_near edge ≡ true))
        → (is_near edge || is_cloudflare edge) ≡ true
    trusted cf (inl same) =
        let o : t.origin ≡ edge = ap (λ (x : ProxyTraits). x.origin) same ∙ origin-direct edge in
        let c : is_cloudflare edge ≡ true = ap is_cloudflare (sym o) ∙ cf in ground arith
    trusted cf (inr (public, near)) = ground arith

traits_of-Named :
    (parse : ParseAddr) (is_cloudflare : Ip → Bool) (r : Request) (edge : Ip) (t : ProxyTraits)
    → traits_of parse is_cloudflare r edge ≡ some t
    → (is_zero edge ≡ false) × Named is_cloudflare edge t
unfolding traits_of
traits_of-Named parse is_cloudflare r edge t h = elim (Bool-cases (is_zero edge)) [
  | inl z ↦ absurd (ground arith)
  | inr nonzero ↦
      let first = forwarded-Named parse is_cloudflare edge r.forwarded_for in
      let u =
        trust_connecting parse is_cloudflare r.country r.connecting_ip
          (trust_forwarded parse r.forwarded_for (direct edge)) in
      let same : u ≡ t = ground arith in
      let all =
        connecting-Named parse is_cloudflare edge r.country r.connecting_ip
          (trust_forwarded parse r.forwarded_for (direct edge)) first in
      (nonzero, rw (← same) all)
]

-- Where `ResolveProxyTraits` returns, the edge is an address that is not zero, and the client is the
-- edge, without a country or a proxy, unless the edge is a loopback or private address or one of
-- Cloudflare's; then the client may be a public address.
pub resolve_proxy_traits_lem :
    (parse : ParseAddr) (is_cloudflare : Ip → Bool) (r : Request) (t : ProxyTraits)
    → resolve_proxy_traits parse is_cloudflare r ≡ some t
    → (edge : Ip) × (edge_of (unmarshal_ip_port parse r.remote_addr) ≡ some edge)
      × (is_zero edge ≡ false)
      × (t.edge ≡ edge)
      × ((t ≡ direct edge)
          ⊎ ((is_public t.origin ≡ true) × ((is_near edge || is_cloudflare edge) ≡ true)))
unfolding resolve_proxy_traits
resolve_proxy_traits_lem parse is_cloudflare r t h =
    elim (Option-cases (edge_of (unmarshal_ip_port parse r.remote_addr))) [
      | inl e ↦ absurd (ground arith)
      | inr (edge, e) ↦
          let k : traits_of parse is_cloudflare r edge ≡ some t = ground arith in
          let (nonzero, (same, rest)) = traits_of-Named parse is_cloudflare r edge t k in
          (edge, e, nonzero, same, rest)
    ]
