-- ===== src/Http.antt =====
-- The HTTP handlers that are no part of the debug endpoint: httpProxyHandler of httpproxy.go, and the bridge
-- of localapi.go that the tspo command talks to. What the standard library does with a request that is
-- passed on is not modelled; how a dial and a takeover of the connection end are arguments.
pub mod PacUrl
mod Tests
use tswipoexp.Prelude.{
  ℕ, Bool, true, false, not, ◌&&◌, ◌||◌, Option, none, some, List, [], ◌∷◌, ◌++◌, Bytes, codes,
  ◌==◌, nat_eq, list_eq, if◌then◌else◌, has_prefix,
}
use tswipoexp.Program.{Result, ok, err}
use tswipoexp.Proxy.Settings.{pac_path}

pub record Request : Type 0 where
  pub method : Bytes
  pub uri : Bytes

-- What the handler does to the connections.
pub data Wire : Type 0 where
  dials : Bytes → Wire
  takes_over : Wire
  says_ok : Wire
  copies : Wire
  closes_client : Wire
  closes_remote : Wire

-- What the client gets: the script, an error's status, the answer of the server that the request is passed
-- on to, or the tunnel.
pub data Reply : Type 0 where
  script : Bytes → Reply
  status : ℕ → Reply
  passed_on : Reply
  tunnel : Reply

-- `defer c.Close()` and `defer cc.Close()` run when the handler returns, the last one first.
abbrev taken_over : Result (Unit {0}) → Reply × List Wire
taken_over (err e) = (status 500, takes_over ∷ closes_remote ∷ [])
taken_over (ok u) = (tunnel, takes_over ∷ says_ok ∷ copies ∷ closes_client ∷ closes_remote ∷ [])

abbrev dialed : Bytes → Result (Unit {0}) → Result (Unit {0}) → Reply × List Wire
dialed dst (err e) hijack = (status 502, dials dst ∷ [])
dialed dst (ok u) hijack = let (reply, wire) = taken_over hijack in (reply, dials dst ∷ wire)

-- The branch for a request that is no CONNECT
abbrev passed : Bytes → Reply
passed uri = if has_prefix uri (codes "/") || uri == codes "*" then status 400 else passed_on

abbrev plain : Option Bytes → Bytes → Reply
plain none uri = passed uri
plain (some pac) uri = if uri == pac_path then script pac else passed uri

unfoldable pub http_proxy_handler :
    (Bytes → Result (Unit {0})) → Result (Unit {0}) → Option Bytes → Request → Reply × List Wire
http_proxy_handler dial hijack pac r =
    if not (r.method == codes "CONNECT")
    then (plain pac r.uri, [])
    else dialed r.uri (dial r.uri) hijack

pub record BridgeTarget : Type 0 where
  pub addr : Bytes
  pub cred : Bytes

-- `none` before the first backend, and after a backend was detached.
pub record LocalApiBridge : Type 0 where
  pub target : Option BridgeTarget

-- A backend by how its Loopback goes; none detaches the bridge. After an error the target stays.
abbrev pub point :
    Option (Result BridgeTarget) → LocalApiBridge → Result (Unit {0}) × LocalApiBridge
point none br = (ok tt, record br { target = none })
point (some (err e)) br = (err e, br)
point (some (ok t)) br = (ok tt, record br { target = some t })

-- What the director of the reverse proxy makes of a request, or no service.
pub data Bridged : Type 0 where
  unavailable : Bridged
  bridged :
      (host : Bytes) (sec_tailscale : Bytes) (user : Bytes) (password : Bytes) (r : Request)
      → Bridged

abbrev bridged_to : Option BridgeTarget → Request → Bridged
bridged_to none r = unavailable
bridged_to (some t) r = bridged t.addr (codes "localapi") [] t.cred r

unfoldable pub serve_http : LocalApiBridge → Request → Bridged
serve_http br r = bridged_to br.target r
