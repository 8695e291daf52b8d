-- ===== src/Vhttp/Hosting.antt =====
-- vhttp/vhost.go: `virtualHostGroup.ServeHTTP`, which gives a request to the virtual hosts of a group in
-- their order. A virtual host has its handler, a mux; what else a request carries is a state of any
-- type `S`. The requests that the hosts get are kept in a list, the last one first.
pub mod Upgrading
mod Tests
use pmesh.Base.{
  Bool, true, false, not, ◌&&◌, Option, none, some, List, [], ◌∷◌, ◌++◌, if◌then◌else◌,
}
use pmesh.Base.Text.{Text, codes, text_eq}
use pmesh.Hosts.{match_root}
use pmesh.Vhttp.Mux.{Result, done, continue_, drop}

-- What a group reads of a request.
pub record Request {ℓ} (S : Type ℓ) : Type ℓ where
  pub host : Text
  pub url_host : Text
  pub is_http : Bool  -- the scheme of the URL is http
  pub portal : Bool  -- the header P-Portal
  pub upgrade : Bool  -- the header Upgrade-Insecure-Requests
  pub rest : S

-- `VirtualHost`
pub record VirtualHost {ℓ} (S : Type ℓ) : Type ℓ where
  pub hostnames : List Text
  pub no_upgrade : Bool
  pub handler : Request S → Request S × Result

-- The request that a host got, and whether the host is upgraded.
abbrev pub Calls {ℓ} : Type ℓ → Type ℓ
Calls S = List (Request S × Bool)

-- The request behind a group, its result, whether it was redirected, and the calls of the hosts.
pub record Hosted {ℓ} (S : Type ℓ) : Type ℓ where
  pub request : Request S
  pub result : Result
  pub redirected : Bool
  pub calls : Calls S

-- `host.Hostnames[0]`, which panics where there is none.
abbrev pub first_name : List Text → Option Text
first_name [] = none
first_name (n ∷ _) = some n

module _ {ℓ} {S : Type ℓ} where
  -- The test for a redirect; `portal` is read before the loop.
  abbrev pub redirects : Bool → VirtualHost S → Request S → Bool
  redirects portal host r = not portal && (r.is_http && (not host.no_upgrade && r.upgrade))

  abbrev pub ended : Result → Request S → Calls S → Option (Hosted S)
  ended result r calls =
      some (record { request = r; result = result; redirected = false; calls = calls })

  -- The `switch` on the result of a host.
  abbrev pub after_host :
      (Request S → Calls S → Option (Hosted S)) → Calls S → Request S × Result → Option (Hosted S)
  after_host next calls (r, done) = ended done (record r { url_host = r.host }) calls
  after_host next calls (r, drop) = ended continue_ (record r { url_host = r.host }) calls
  after_host next calls (r, continue_) = next (record r { url_host = r.host }) calls

  -- A host that is not skipped by a redirect, by its first name. `prev` is `prevHostname`, the first name
  -- of the host before, and `buffer` the text that was built for it.
  abbrev pub call_host :
      (Text → Text → Request S → Calls S → Option (Hosted S))
      → (sub prev buffer : Text) → VirtualHost S
      → Request S
      → Calls S
      → Option Text
      → Option (Hosted S)
  call_host next sub prev buffer host r calls none = none
  call_host next sub prev buffer host r calls (some name) =
      let built = if text_eq name prev then buffer else sub ++ name in
      let seen : Request S = record r { url_host = built } in
      after_host (next name built) ((seen, not host.no_upgrade) ∷ calls) (host.handler seen)

  -- The loop over the hosts; `none` is a panic.
  unfoldable pub serve_hosts :
      Bool
      → (sub prev buffer : Text) → List (VirtualHost S)
      → Request S
      → Calls S
      → Option (Hosted S)
  serve_hosts portal sub prev buffer [] r calls = ended continue_ r calls
  serve_hosts portal sub prev buffer (host ∷ hosts) r calls =
      if redirects portal host r
      then some (record {
        request = record r { is_http = false };
        result = done;
        redirected = true;
        calls = calls;
      })
      else call_host (λ name built r' calls'. serve_hosts portal sub name built hosts r' calls') sub
          prev buffer host r calls (first_name host.hostnames)

  -- The loop behind `hosts.Match`.
  abbrev pub serve_matched : List (VirtualHost S) → Request S → Option Text → Option (Hosted S)
  serve_matched hosts r none = ended continue_ r []
  serve_matched hosts r (some sub) = serve_hosts r.portal sub (codes "-") [] hosts r []

  -- `virtualHostGroup.ServeHTTP`
  unfoldable pub serve_group : Text → List (VirtualHost S) → Request S → Option (Hosted S)
  serve_group hostname hosts r = serve_matched hosts r (match_root hostname r.host)
