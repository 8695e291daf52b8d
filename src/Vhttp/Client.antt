-- ===== src/Vhttp/Client.antt =====
-- vhttp/client.go: client sessions, the start of a client's request, and the answer to an exceeded
-- limit. Times are milliseconds since 1970 where the code has them so. The session's address
-- information, the reading of the Authorization header and the secret are arguments.
use pmesh.Base.{
  ℕ, ◌+◌, ◌/◌, ◌%◌, ◌^◌, Bool, true, false, not, ◌&&◌, ◌||◌, Option, none, some, List, [], ◌∷◌, ltb,
  leb, ◌==◌, if◌then◌else◌,
}
use pmesh.Base.Int.{ℤ, pos, ltb_ℤ}
use pmesh.Base.Text.{Text, codes, text_eq}
use pmesh.Urlsigner.Signer.{values}

abbrev pub Header : Type 0
Header = List (Text × List Text)

pub record ClientSession : Type 0 where
  pub ip_info : Header
  pub remote_addr : Text
  pub local : Bool
  pub last_request_ms : ℕ
  pub num_requests : ℕ
  pub blocked_until_ms : ℕ

-- The loop of `BlockUntil`: the time in store, and what other goroutines store between a load and the
-- compare-and-swap behind it, round by round. It returns the time then in store and its answer.
unfoldable pub block_loop : ℕ → List ℕ → ℕ → ℕ × ℕ
block_loop at [] bt = if leb at bt then (bt, bt) else (at, at)
block_loop at (other ∷ others) bt =
    let rest = block_loop at others other in
    if leb at bt then (bt, bt) else if other == bt then (at, at) else rest

-- `BlockUntil`: none is the zero time.
unfoldable pub block_until : ℕ → List ℕ → ClientSession → ClientSession × Option ℕ
block_until at others s =
    let r = block_loop at others s.blocked_until_ms in
    if s.local then (s, none) else (record s { blocked_until_ms = r.0 }, some r.1)

unfoldable pub unblock : ClientSession → ClientSession
unblock s = record s { blocked_until_ms = 0 }

unfoldable pub is_blocked : ℕ → ClientSession → Bool
is_blocked now s = ltb now s.blocked_until_ms

-- The result of `EnforceVar`: no error, a rate error with the time to block for, or another error.
pub data Enforced : Type 0 where
  admitted : Enforced
  exceeded : ℤ → Enforced
  aborted : Enforced

pub data LimitHandler : Type 0 where
  pass later blocked reset : LimitHandler

abbrev block_ms : ℤ → ℕ → ℕ
block_ms (pos d) now = (now + d) / 1_000_000
block_ms _ now = now / 1_000_000

-- `EnforceRateReq` of a session, with the clock in nanoseconds: the handler that answers in place of the next one, if any.
unfoldable pub enforce_rate_req :
    ℕ → List ℕ → Enforced → ClientSession → ClientSession × LimitHandler
enforce_rate_req now others e s = if s.local then (s, pass) else elim e [
  | admitted ↦ (s, pass)
  | exceeded d ↦
      if ltb_ℤ (pos 0) d then ((block_until (block_ms d now) others s).0, blocked) else (s, later)
  | aborted ↦ (s, reset)
]

pub record Tls : Type 0 where
  pub peer_certificates : ℕ
  pub server_name : Text

pub record Incoming : Type 0 where
  pub header : Header
  pub scheme : Text
  pub tls : Option Tls
  pub remote_addr : Text

unfoldable pub delete_key : Header → Text → Header
delete_key [] k = []
delete_key ((l, vs) ∷ h) k =
    let rest = delete_key h k in if text_eq l k then rest else (l, vs) ∷ rest

-- `h[k] = vs`
unfoldable pub set_all : Header → Text → List Text → Header
set_all h k vs = (k, vs) ∷ delete_key h k

unfoldable pub inherit : Header → Header → Header
inherit h [] = h
inherit h ((k, vs) ∷ info) = inherit (set_all h k vs) info

abbrev no_values : List Text → Bool
no_values [] = true
no_values (v ∷ vs) = false

-- `startRequest`
unfoldable pub start_request : ClientSession → ℕ → Incoming → ClientSession × Incoming
start_request s t r =
    let header =
      if not s.local || no_values (values r.header (codes "P-Ip"))
      then inherit r.header s.ip_info
      else r.header in
    (
      record s { last_request_ms = t; num_requests = (s.num_requests + 1) % 2 ^ 32 },
      record r {
        header = delete_key header (codes "X-Forwarded-For");
        remote_addr = s.remote_addr;
      },
    )

abbrev pub with_tls : Option Tls → Text
with_tls none = codes "http"
with_tls (some t) = codes "https"

abbrev pub or_default : Text → Text → Text
or_default [] d = d
or_default (c ∷ s) d = c ∷ s

-- The proto of the header, if it is one of the two.
abbrev pub forwarded : List Text → Text → Text
forwarded [] scheme = scheme
forwarded (p ∷ ps) scheme =
    if text_eq p (codes "http") || text_eq p (codes "https") then p else scheme

-- The scheme, from the values of X-Forwarded-Proto and what the URL and the connection say.
unfoldable pub scheme_of : List Text → Text → Option Tls → Text
scheme_of protos scheme tls = forwarded protos (or_default scheme (with_tls tls))

-- A certificate that the mutual authenticator has verified.
abbrev pub has_peer : Option Tls → Bool
has_peer none = false
has_peer (some t) = ltb 0 t.peer_certificates && text_eq t.server_name (codes "pm3")

abbrev pub has_secret : Text → Option (Text × Text) → Bool
has_secret secret none = false
has_secret secret (some (u, pw)) = text_eq u secret || text_eq pw secret

module _ (basic_auth : List Text → Option (Text × Text)) (secret : Text) where
  -- Whether the request is internal, and the header without the secret.
  unfoldable pub internal_flag : ClientSession → Incoming → Text → Bool × Header
  internal_flag s r scheme =
      if s.local
      then (true, r.header)
      else if has_peer r.tls
      then (true, r.header)
      else if text_eq scheme (codes "https")
          && has_secret secret (basic_auth (values r.header (codes "Authorization")))
      then (true, delete_key r.header (codes "Authorization"))
      else (false, r.header)

  abbrev pub flagged : Bool × Header → Header
  flagged (true, h) = set_all h (codes "P-Internal") (codes "1" ∷ [])
  flagged (false, h) = delete_key h (codes "P-Internal")

  -- `StartClientRequest` behind the lookup of the session, with the next ray.
  unfoldable pub start_client_request :
      ℕ → Text → ClientSession → Incoming → ClientSession × Incoming
  start_client_request t ray s r =
      let started = start_request s t r in
      let q = started.1 in
      let rayed = record q { header = set_all q.header (codes "X-Ray") (ray ∷ []) } in
      let scheme =
        scheme_of (values rayed.header (codes "X-Forwarded-Proto")) rayed.scheme rayed.tls in
      let schemed = record rayed {
        scheme = scheme;
        header = set_all rayed.header (codes "X-Forwarded-Proto") (scheme ∷ []);
      } in
      (
        started.0,
        record schemed {
          header = delete_key (flagged (internal_flag started.0 schemed scheme)) (codes "P-Portal");
        },
      )
