-- ===== src/Vhttp/Tests.antt =====
-- Runs of the router of vhttp, and a client that claims to be internal.
use pmesh.Base.{ℕ, ◌+◌, ◌≡◌, true, false, none, List, [], ◌∷◌, leb}
use pmesh.Base.Text.{Text, codes}
use pmesh.Vhttp.Mux.{Route, done, continue_, drop as drop_}
use pmesh.Vhttp.Client.{ClientSession, Incoming}
use pmesh.Vhttp.Groups.{
  create_groups, lookup_group, all_listed, DistinctNames, lookup-create_groups,
}

-- Handlers that count, and finish or drop the request.
abbrev counts : Route ℕ
counts = record { pattern_ = λ n. true; handler = λ n. (n + 1, continue_) }

abbrev finishes : Route ℕ
finishes = record { pattern_ = λ n. leb 2 n; handler = λ n. (n + 10, done) }

abbrev drops : Route ℕ
drops = record { pattern_ = λ n. true; handler = λ n. (n + 5, drop_) }

abbrev hosts : List (ℕ × List Text)
hosts = (1, codes "a" ∷ codes "b" ∷ []) ∷ (2, codes "b" ∷ []) ∷ []

lookup-create_groups_example :
    DistinctNames (create_groups hosts)
    × (lookup_group (codes "b") (create_groups hosts) ≡ all_listed hosts (codes "b"))
lookup-create_groups_example = lookup-create_groups hosts (codes "b")

-- A client from outside that sends the marks itself.
abbrev outside : ClientSession
outside = record {
  ip_info = (codes "P-Ip", codes "8.8.8.8" ∷ []) ∷ [];
  remote_addr = codes "8.8.8.8:0";
  local = false;
  last_request_ms = 5;
  num_requests = 1;
  blocked_until_ms = 0;
}

abbrev forged : Incoming
forged = record {
  header = (codes "P-Internal", codes "1" ∷ []) ∷ (codes "P-Portal", codes "1" ∷ []) ∷ [];
  scheme = [];
  tls = none;
  remote_addr = codes "8.8.8.8:4";
}
