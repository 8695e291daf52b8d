-- ===== src/Vhttp/Hosting/Tests.antt =====
-- A group of two virtual hosts of vhttp/vhost.go, the first of which does not upgrade.
use pmesh.Base.{true, false, ◌≡◌, ◌≢◌, refl, some, [], ◌∷◌, ◌++◌, ℕ}
use pmesh.Base.Text.{codes, text_eq}
use pmesh.Hosts.{match_root}
use pmesh.Vhttp.Mux.{continue_, drop, done}
use pmesh.Vhttp.Hosting.{Request, VirtualHost, Hosted, serve_hosts, serve_group}
use pmesh.Vhttp.Hosting.Upgrading.{is_safe, serve_group-safe}

abbrev passing : VirtualHost ℕ
passing = record {
  hostnames = codes "pme.sh" ∷ [];
  no_upgrade = true;
  handler = λ r. (r, continue_);
}

abbrev upgrading : VirtualHost ℕ
upgrading = record passing { no_upgrade = false }

abbrev insecure : Request ℕ
insecure = record {
  host = codes "a.pme.sh";
  url_host = [];
  is_http = true;
  portal = false;
  upgrade = true;
  rest = 0;
}

-- The first host gets the request, for its own name; the second one redirects it.
abbrev redirect_of : Hosted ℕ
redirect_of = record {
  request = record insecure { url_host = codes "a.pme.sh"; is_http = false };
  result = done;
  redirected = true;
  calls = (record insecure { url_host = codes "a." ++ codes "pme.sh" }, false) ∷ [];
}

second_redirects :
    serve_group (codes "pme.sh") (passing ∷ upgrading ∷ []) insecure ≡ some redirect_of
unfolding serve_group serve_hosts match_root text_eq
second_redirects = refl

serve_group-safe_example :
    (is_safe insecure.portal redirect_of.calls ≡ true) × (redirect_of.result ≢ drop)
serve_group-safe_example =
    serve_group-safe (codes "pme.sh") (passing ∷ upgrading ∷ []) insecure redirect_of
      second_redirects
