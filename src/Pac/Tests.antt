-- ===== src/Pac/Tests.antt =====
-- pac.go at concrete peers.
use mathlib.Core.List.Perm
use tswipoexp.Prelude.{
  ℕ, ◌≡◌, refl, Bool, true, false, ◌↔◌, none, some, List, [], ◌∷◌, Bytes, codes, ◌++◌, list_eqb,
  ltb, leb, ◌&&◌,
}
use tswipoexp.Disk.Calls.{contains}
use tswipoexp.Profiles.Config.{zero_config}
use tswipoexp.Profiles.Store.Strict.{IsStrict}
use tswipoexp.Status.{Status, Peer, v4, v6, running_state}
use tswipoexp.Pac.{pac_inputs_from, v4_mask, quoted_byte, escaped, quoted}
use tswipoexp.Pac.Netip.{addr_text}
use tswipoexp.Pac.Routes.{IsAdvertised, pac_inputs_from-routes, pac_inputs_from-Perm}

-- 100.64.0.0/10
abbrev tailscale_range : ℕ → Bool
tailscale_range a = leb 1681915904 a && ltb a 1686110208

abbrev unnamed : Peer
unnamed = record {
  primary_routes = none;
  id = [];
  dns_name = [];
  host_name = [];
  os = [];
  ips = [];
  cur_addr = [];
  relay = [];
  online = false;
  active = false;
  is_exit_node = false;
  exit_node_option = false;
}

abbrev office : Peer
office = record unnamed { primary_routes = some (record { addr = v4 167772165; bits = 24 } ∷ []) }

abbrev home : Peer
home = record unnamed {
  primary_routes = some (
      record { addr = v4 3232235777; bits = 16 }
      ∷ record { addr = v6 (codes "fd00::"); bits = 8 }
      ∷ []);
}

abbrev status_with : List Peer → Status
status_with peers = record {
  backend_state = running_state;
  magic_dns_suffix = codes "example.ts.net.";
  exit_node = false;
  current_tailnet = none;
  self = none;
  login_name = λ n. none;
  tailscale_ips = [];
  peers = peers;
}

mask_22 : v4_mask 22 ≡ codes "255.255.252.0"
unfolding v4_mask addr_text
mask_22 = refl

control : quoted (codes "a" ++ (9 ∷ 1 ∷ 127 ∷ b'"' ∷ [])) ≡ codes "\"a\\t\\x01\\x7f\\\"\""
unfolding quoted escaped quoted_byte list_eqb
control = refl

pac_inputs_from-routes_example :
    let pi =
      pac_inputs_from tailscale_range
        (some (status_with (home ∷ office ∷ [])))
        zero_config
        (codes "127.0.0.1:1055") in
    IsStrict pi.routes
    × ((s : Bytes)
        → (contains pi.routes s ≡ true) ↔ IsAdvertised tailscale_range (home ∷ office ∷ []) s)
pac_inputs_from-routes_example =
    pac_inputs_from-routes tailscale_range (status_with (home ∷ office ∷ [])) zero_config
      (codes "127.0.0.1:1055")

pac_inputs_from-Perm_example :
    pac_inputs_from tailscale_range
      (some (status_with (office ∷ home ∷ [])))
      zero_config
      (codes "127.0.0.1:1055")
    ≡ pac_inputs_from tailscale_range
        (some (status_with (home ∷ office ∷ [])))
        zero_config
        (codes "127.0.0.1:1055")
pac_inputs_from-Perm_example =
    pac_inputs_from-Perm tailscale_range (status_with (home ∷ office ∷ [])) (office ∷ home ∷ [])
      zero_config (codes "127.0.0.1:1055") (Perm.swap office home [])
