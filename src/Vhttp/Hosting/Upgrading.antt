-- ===== src/Vhttp/Hosting/Upgrading.antt =====
-- Which requests reach the virtual hosts of a group of vhttp/vhost.go.
use pmesh.Base.{
  Bool, true, false, not, ◌&&◌, ◌≡◌, ◌≢◌, refl, Option, none, some, List, [], ◌∷◌, ◌++◌, if_elim,
  if◌then◌else◌, arith,
}
use mathlib.Core.Path.{subst}
use pmesh.Base.Text.{Text, codes, text_eq}
use pmesh.Hosts.{match_root}
use pmesh.Vhttp.Mux.{Result, done, continue_, drop}
use pmesh.Vhttp.Hosting.{
  Request, VirtualHost, Calls, Hosted, first_name, redirects, after_host, call_host, serve_hosts,
  serve_matched, serve_group,
}

module _ {ℓ} {S : Type ℓ} where
  -- No call of a host that is upgraded has a request that is to be upgraded.
  abbrev pub is_safe : Bool → Calls S → Bool
  is_safe portal [] = true
  is_safe portal ((r, upgraded) ∷ calls) =
      not (not portal && (r.is_http && (upgraded && r.upgrade))) && is_safe portal calls

  -- Where the group returns, its calls are safe, and it does not drop the request.
  abbrev IsSafe : Bool → Option (Hosted S) → Type 0
  IsSafe portal none = true ≡ true
  IsSafe portal (some h) = (is_safe portal h.calls ≡ true) × (h.result ≢ drop)

  call_host-IsSafe :
      (next : Text → Text → Request S → Calls S → Option (Hosted S)) (portal : Bool)
      (sub prev buffer : Text) (host : VirtualHost S) (r : Request S) (calls : Calls S)
      (name : Option Text)
      → is_safe portal calls ≡ true
      → redirects portal host r ≡ false
      → ((n b : Text) (r' : Request S) (calls' : Calls S)
          → is_safe portal calls' ≡ true
          → IsSafe portal (next n b r' calls'))
      → IsSafe portal (call_host next sub prev buffer host r calls name)
  call_host-IsSafe next portal sub prev buffer host r calls none safe stays ih = refl
  call_host-IsSafe next portal sub prev buffer host r calls (some name) safe stays ih =
      by_result (host.handler seen)
    where
      built : Text
      built = if text_eq name prev then buffer else sub ++ name

      seen : Request S
      seen = record r { url_host = built }

      more : is_safe portal ((record r { url_host = built }, not host.no_upgrade) ∷ calls) ≡ true
      more = ground arith

      by_result :
          (x : Request S × Result)
          → IsSafe portal (
              after_host
                (next name built)
                ((record r { url_host = built }, not host.no_upgrade) ∷ calls)
                x)
      by_result (r', done) = (more, λ e. ground arith)
      by_result (r', drop) = (more, λ e. ground arith)
      by_result (r', continue_) = ih name built (record r' { url_host = r'.host }) _ more

  serve_hosts-IsSafe :
      (portal : Bool) (sub prev buffer : Text) (hosts : List (VirtualHost S)) (r : Request S)
      (calls : Calls S)
      → is_safe portal calls ≡ true
      → IsSafe portal (serve_hosts portal sub prev buffer hosts r calls)
  unfolding serve_hosts
  serve_hosts-IsSafe portal sub prev buffer [] r calls safe = (safe, λ e. ground arith)
  serve_hosts-IsSafe portal sub prev buffer (host ∷ hosts) r calls safe =
      if_elim (IsSafe portal) (redirects portal host r) (λ t. (safe, λ e. ground arith))
        (λ f.
          call_host-IsSafe (λ n b r' calls'. serve_hosts portal sub n b hosts r' calls') portal sub
            prev buffer host r calls (first_name host.hostnames) safe f
            (λ n b r' calls' s. serve_hosts-IsSafe portal sub n b hosts r' calls' s))

  serve_matched-IsSafe :
      (hosts : List (VirtualHost S)) (r : Request S) (sub : Option Text)
      → IsSafe r.portal (serve_matched hosts r sub)
  serve_matched-IsSafe hosts r none = (refl, λ e. ground arith)
  serve_matched-IsSafe hosts r (some sub) =
      serve_hosts-IsSafe r.portal sub (codes "-") [] hosts r [] refl

  -- Unless the request came through a portal, no virtual host that upgrades gets a request over HTTP that
  -- asks for HTTPS; and the group does not drop a request.
  pub serve_group-safe :
      (hostname : Text) (hosts : List (VirtualHost S)) (r : Request S) (h : Hosted S)
      → serve_group hostname hosts r ≡ some h
      → (is_safe r.portal h.calls ≡ true) × (h.result ≢ drop)
  unfolding serve_group
  serve_group-safe hostname hosts r h e =
      of_safe h (serve_matched hosts r (match_root hostname r.host)) e
        (serve_matched-IsSafe hosts r (match_root hostname r.host))
    where
      of_safe :
          (h : Hosted S) (o : Option (Hosted S))
          → o ≡ some h
          → IsSafe r.portal o
          → IsSafe r.portal (some h)
      of_safe h o same safe = subst (IsSafe r.portal) same safe
