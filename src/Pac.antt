-- ===== src/Pac.antt =====
-- pac.go: the inputs of the proxy auto-config script and its text.
pub mod Netip
pub mod Routes
pub mod Script
mod Tests
use tswipoexp.Prelude.{
  ℕ, zero, suc, ◌+◌, ◌-◌, ◌*◌, ◌%◌, ◌/◌, ◌^◌, Bool, true, false, not, ◌&&◌, ◌||◌, Option, none,
  some, List, [], ◌∷◌, ◌++◌, Bytes, codes, ◌==◌, nat_eq, list_eq, if◌then◌else◌, trim_dots, ltb,
  leb, drop, take,
}
use tswipoexp.Disk.Calls.{contains}
use tswipoexp.Profiles.Store.{sort_strings}
use tswipoexp.Profiles.Config.{Config}
use tswipoexp.Status.{Status, Peer, Prefix, Addr, v4, v6, print_list}
use tswipoexp.Pac.Netip.{addr_text, prefix_text, masked, parse_prefix}

pub record PacInputs : Type 0 where
  pub proxy_addr : Bytes
  pub all_traffic : Bool
  pub dns_suffix : Bytes
  pub routes : List Bytes

-- `tsaddr.IsTailscaleIP` at an IPv4 address
module _ (is_tailscale_ip : ℕ → Bool) where
  -- Whether the loop takes a route.
  unfoldable pub takes_route : Prefix → Bool
  takes_route r = elim r.addr [ v4 a ↦ not (r.bits == 0) && not (is_tailscale_ip a) | v6 a ↦ false ]

  -- The inner loop, with the routes so far, which are those in `seen`.
  unfoldable pub add_routes : List Prefix → List Bytes → List Bytes
  unfolding takes_route
  add_routes [] routes = routes
  add_routes (r ∷ rs) routes = add_routes rs (
      if takes_route r && not (contains routes (prefix_text (masked r)))
      then routes ++ (prefix_text (masked r) ∷ [])
      else routes)

  abbrev add_peer : Option (List Prefix) → List Bytes → List Bytes
  add_peer none routes = routes
  add_peer (some rs) routes = add_routes rs routes

  unfoldable pub peer_routes : List Peer → List Bytes → List Bytes
  unfolding add_routes
  peer_routes [] routes = routes
  peer_routes (p ∷ ps) routes = peer_routes ps (add_peer p.primary_routes routes)

  abbrev pub with_status : Option Status → PacInputs → PacInputs
  with_status none pi = pi
  with_status (some st) pi = record pi {
    all_traffic = pi.all_traffic || st.exit_node;
    dns_suffix = trim_dots st.magic_dns_suffix;
    routes = sort_strings (peer_routes st.peers []);
  }

  unfoldable pub pac_inputs_from : Option Status → Config → Bytes → PacInputs
  unfolding peer_routes
  pac_inputs_from st cfg addr = with_status st (record {
    proxy_addr = addr;
    all_traffic = cfg.pac_all_traffic;
    dns_suffix = [];
    routes = [];
  })

-- The inputs as `%v` prints them.
unfoldable pub pac_key : PacInputs → Bytes
pac_key pi =
    codes "{"
    ++ pi.proxy_addr
    ++ (if pi.all_traffic then codes " true " else codes " false ")
    ++ pi.dns_suffix
    ++ codes " "
    ++ print_list pi.routes
    ++ codes "}"

-- `^uint32(0) << (32 - bits)`, and 0 at no bits
unfoldable pub v4_mask_number : ℕ → ℕ
v4_mask_number bits = if bits == 0 then 0 else (2 ^ 32 - 1) * 2 ^ (32 - bits) % 2 ^ 32

unfoldable pub v4_mask : ℕ → Bytes
unfolding v4_mask_number
v4_mask bits = addr_text (v4_mask_number bits)

abbrev hex_digit : ℕ → ℕ
hex_digit d = if ltb d 10 then b'0' + d else b'a' + (d - 10)

-- The letter that stands for a control character after a backslash, from the bell to the return
abbrev short_escape : ℕ → Bytes
short_escape c = drop (c - 7) (codes "abtnvfr")

unfoldable pub quoted_byte : ℕ → Bytes
quoted_byte c =
    if c == b'"' || c == b'\\'
    then b'\\' ∷ c ∷ []
    else if leb 32 c && not (c == 127)
    then c ∷ []
    else if leb 7 c && leb c 13
    then b'\\' ∷ take 1 (short_escape c)
    else b'\\' ∷ b'x' ∷ hex_digit (c / 16) ∷ hex_digit (c % 16) ∷ []

unfoldable pub escaped : Bytes → Bytes
unfolding quoted_byte
escaped [] = []
escaped (c ∷ cs) = quoted_byte c ++ escaped cs

-- `%q`, of a text whose characters beyond ASCII are printable: they stay.
unfoldable pub quoted : Bytes → Bytes
unfolding escaped
quoted s = codes "\"" ++ escaped s ++ codes "\""

unfoldable pub route_line : Bytes → Option Prefix → Bytes
route_line s none = []
route_line s (some r) = elim (masked r).addr [
  | v6 a ↦ []
  | v4 a ↦
      codes "  if (isV4(host) && isInNet(host, "
      ++ quoted (addr_text a)
      ++ codes ", "
      ++ quoted (v4_mask r.bits)
      ++ codes ")) return P;\n"
]

unfoldable pub route_lines : List Bytes → Bytes
unfolding route_line
route_lines [] = []
route_lines (s ∷ ss) = route_line s (parse_prefix s) ++ route_lines ss

unfoldable pub suffix_line : Bytes → Bytes
suffix_line suffix =
    codes "  if (dnsDomainIs(host, "
    ++ quoted (codes "." ++ suffix)
    ++ codes ") || shExpMatch(host, "
    ++ quoted (codes "*." ++ suffix)
    ++ codes ") || host == "
    ++ quoted suffix
    ++ codes ") return P;\n"

abbrev pub script_head : Bytes
script_head =
    codes "var D = \"DIRECT\";\n"
    ++ codes "function isV4(h) { return /^\\d{1,3}(\\.\\d{1,3}){3}$/.test(h); }\n"
    ++ codes "function FindProxyForURL(url, host) {\n"
    ++ codes "  host = host.toLowerCase();\n"
    ++ codes
        "  if (host == \"localhost\" || host == \"localhost.localdomain\" || host == \"127.0.0.1\" || "
    ++ codes "host == \"::1\" || host == \"[::1]\" ||\n"
    ++ codes "      /^127\\./.test(host) || shExpMatch(host, \"*.localhost\")) {\n"
    ++ codes "    return D;\n"
    ++ codes "  }\n"

abbrev pub tailnet_lines : Bytes
tailnet_lines =
    codes "  if (isV4(host) && isInNet(host, \"100.64.0.0\", \"255.192.0.0\")) return P;\n"
    ++ codes "  if (/^\\[?fd7a:115c:a1e0:/.test(host)) return P;\n"
    ++ codes "  if (isPlainHostName(host)) return P;\n"

unfoldable pub pac_script : PacInputs → Bytes
unfolding suffix_line route_lines
pac_script pi =
    codes "// Generated by tswipoexp. Proxy: "
    ++ pi.proxy_addr
    ++ codes "\nvar P = \"PROXY "
    ++ pi.proxy_addr
    ++ codes "\";\n"
    ++ script_head
    ++ (if pi.all_traffic
        then codes "  return P;\n}\n"
        else tailnet_lines
          ++ (if pi.dns_suffix == [] then [] else suffix_line pi.dns_suffix)
          ++ route_lines pi.routes
          ++ codes "  return D;\n}\n")
