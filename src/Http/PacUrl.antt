-- ===== src/Http/PacUrl.antt =====
-- The URL that is registered with the Windows session is one that the proxy answers with its script.
use tswipoexp.Prelude.{
  ℕ, ◌≡◌, refl, inl, inr, Bool, false, Bool-cases, some, [], ◌∷◌, ◌++◌, Bytes, codes, ◌==◌, nat_eq,
  list_eq, list_eqb, drop, contains_byte, if◌then◌else◌, arith,
}
use tswipoexp.Program.{Result}
use tswipoexp.Proxy.Settings.{pac_path}
use tswipoexp.Profiles.Config.{outbound_options}
use tswipoexp.Pac.{pac_inputs_from, pac_script}
use tswipoexp.Backend.{Backend, proxy_address}
use tswipoexp.Backend.Events.{pac}
use tswipoexp.Http.{Request, script, http_proxy_handler}

-- A URL from the first slash on
pub from_slash : Bytes → Bytes
from_slash [] = []
from_slash (c ∷ cs) = if c == b'/' then c ∷ cs else from_slash cs

-- What a browser asks the host of an http URL for: what follows `http://` and the host.
abbrev pub browser_request : Bytes → Request
browser_request url = record { method = codes "GET"; uri = from_slash (drop 7 url) }

from_slash-append :
    (addr : Bytes) → contains_byte addr b'/' ≡ false → from_slash (addr ++ pac_path) ≡ pac_path
unfolding from_slash contains_byte
from_slash-append [] h = refl
from_slash-append (c ∷ cs) h = elim (Bool-cases (c == b'/')) [
  | inl e ↦ absurd (ground (arith, h, e))
  | inr e ↦ rw e (from_slash-append cs (ground (arith, h, e)))
]

-- If the proxy's address has no slash, the handler answers a browser that fetches the URL of the
-- registration with the script of the backend's current status, and dials nothing.
pub http_proxy_handler-pac_url :
    (is_tailscale_ip : ℕ → Bool) (dial : Bytes → Result (Unit {0})) (hijack : Result (Unit {0}))
    (b : Backend)
    → contains_byte (proxy_address b) b'/' ≡ false
    → http_proxy_handler dial hijack
        (some (pac is_tailscale_ip b))
        (browser_request (outbound_options b.cfg (proxy_address b)).pac_url)
      ≡ (script (pac_script (pac_inputs_from is_tailscale_ip b.status b.cfg (proxy_address b))), [])
unfolding http_proxy_handler outbound_options pac list_eqb
http_proxy_handler-pac_url is_tailscale_ip dial hijack b h =
    rw (from_slash-append (proxy_address b) h) refl
