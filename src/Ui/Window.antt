-- ===== src/Ui/Window.antt =====
-- The main window of ui.go: refresh and what it calls, with the handlers of the widgets that it sets. What
-- a handler starts is a request. Whether a dropdown of the toolkit takes a label and calls its handler,
-- and whether a checkbox that is set calls its one, are arguments. An IP address stands as its text.
use tswipoexp.Prelude.{
  ℕ, suc, Bool, true, false, not, ◌&&◌, ◌||◌, Option, none, some, List, [], ◌∷◌, ◌++◌, Bytes, codes,
  ◌==◌, nat_eq, list_eq, if◌then◌else◌, contains_byte, trim_dot,
}
use tswipoexp.Proxy.Settings.{proxy_mode_static}
use tswipoexp.Profiles.Config.{Config, hostname, register_proxy, proxy_mode}
use tswipoexp.Status.{Status, Self, running_state}
use tswipoexp.Pac.{pac_inputs_from}
use tswipoexp.Backend.{Backend, proxy_address}
use tswipoexp.Ssh.Server.{self_id, login_or_empty}
use tswipoexp.Ui.States.{needs_login, needs_machine_auth, no_state, stopped, state_text}
use tswipoexp.Ui.Peers.{PeerRow, PeerTable, apply_peer_filter, yes_no}
use tswipoexp.Ui.ExitNodes.{Prefs, Dropdown}
use tswipoexp.Ui.ProfileManager.{Manager, Facts}

-- What the handlers of the widgets start.
pub data Request : Type 0 where
  switches : Bytes → Request
  opens_new_profile : Request
  enables_outbound : Bool → Request
  sets_shields_up : Bool → Request
  sets_exit_node : Bytes → Request

pub data Color : Type 0 where
  green red gray : Color

pub record Ui : Type 0 where
  pub profile_options : List Bytes
  pub profile : Bytes
  pub manager : Option Manager
  pub state : Bytes
  pub dot : Color
  pub ipv4 : Bytes
  pub ipv6 : Bytes
  pub ip_sep : Bool
  pub user : Bytes
  pub host : Bytes
  pub dns : Bytes
  pub proxy : Bytes
  pub error : Bytes
  pub login_shown : Bool
  pub auth_key_shown : Bool
  pub login_text : Bytes
  pub connect_shown : Bool
  pub logout_shown : Bool
  pub connect_text : Bytes
  pub inbound : Bool
  pub outbound : Bool
  pub outbound_look : Bool
  pub exit_node : Dropdown
  pub table : PeerTable
  pub peers_count : ℕ × ℕ
  pub requests : List Request

-- What a refresh reads: the backend if one runs, whether the proxy is registered, the preferences at the
-- refresh and those that a handler reads again, the computer's name, the profiles, and the rest of the
-- profile window's facts.
pub record Reading : Type 0 where
  pub backend : Option Backend
  pub registered : Bool
  pub prefs : Option Prefs
  pub again : Option Prefs
  pub os_hostname : Option Bytes
  pub is_tailscale_ip : ℕ → Bool
  pub names : List Bytes
  pub facts : Facts

pub record Toolkit : Type 0 where
  pub takes : List Bytes → Bytes → Bool
  pub check_calls : Bool

abbrev pub new_profile_item : Bytes
new_profile_item = codes "(New...)"

abbrev pub requesting : List Request → Ui → Ui
requesting rs u = record u { requests = u.requests ++ rs }

-- The handler of the profile dropdown
unfoldable pub choose_profile : Bytes → Bytes → List Request
choose_profile current name =
    if name == []
    then []
    else if name == new_profile_item
    then opens_new_profile ∷ []
    else if current == name
    then []
    else switches name ∷ []

abbrev pub same_bool : Bool → Bool → Bool
same_bool true b = b
same_bool false b = not b

abbrev config_of : Option Backend → Option Config
config_of none = none
config_of (some b) = some b.cfg

-- The handler of the outbound checkbox, with the guard of setOutboundEnabled
abbrev pub check_outbound : Option Config → Bool → List Request
check_outbound none on = []
check_outbound (some cfg) on =
    if same_bool (register_proxy cfg) on then [] else enables_outbound on ∷ []

-- The handler of the inbound checkbox while a backend runs
abbrev pub check_inbound : Option Prefs → Bool → List Request
check_inbound none on = sets_shields_up (not on) ∷ []
check_inbound (some prefs) on =
    if same_bool prefs.shields_up (not on) then [] else sets_shields_up (not on) ∷ []

abbrev pub exit_request : Option Bytes → List Request
exit_request none = []
exit_request (some id) = sets_exit_node id ∷ []

-- `setState`
unfoldable pub set_state : Bytes → Color → Ui → Ui
set_state text c u = record u { state = text; dot = c }

abbrev pub is6 : Bytes → Bool
is6 ip = contains_byte ip b':'

-- The loop of `setIPs`, by what it has found so far
unfoldable pub find_ips : List Bytes → Bytes → Bytes → Bytes × Bytes
find_ips [] v4 v6 = (v4, v6)
find_ips (ip ∷ ips) v4 v6 =
    find_ips ips (if not (is6 ip) && v4 == [] then ip else v4)
      (if is6 ip && v6 == [] then ip else v6)

unfoldable pub set_ips : List Bytes → Ui → Ui
unfolding find_ips
set_ips ips u =
    let (v4, v6) = find_ips ips [] [] in
    record u { ipv4 = v4; ipv6 = v6; ip_sep = not (v4 == []) && not (v6 == []) }

unfoldable pub count_online : List PeerRow → ℕ
count_online [] = 0
count_online (r ∷ rows) =
    let rest = count_online rows in if r.online == yes_no true then suc rest else rest

abbrev with_peers : List PeerRow → PeerTable → PeerTable
with_peers rows t = apply_peer_filter (record t { peers_all = rows })

abbrev host_of : Option Self → Bytes → Bytes
host_of none host = host
host_of (some self) host = self.host_name

abbrev dns_of : Option Self → Bytes
dns_of none = []
dns_of (some self) = trim_dot self.dns_name

abbrev registered_text : Bool → Bool → Bool → Bytes
registered_text false static all = codes "not registered with Windows"
registered_text true true all = codes "registered as the Windows system proxy (fixed, all traffic)"
registered_text true false true = codes "registered as the Windows system proxy (PAC, all traffic)"
registered_text true false false =
    codes "registered as the Windows system proxy (PAC, tailnet only)"

-- The text of the proxy's line
unfoldable pub proxy_text : Reading → Backend → Status → Bytes
proxy_text r b st =
    let inputs = pac_inputs_from r.is_tailscale_ip (some st) b.cfg (proxy_address b) in
    if proxy_address b == []
    then codes "Proxy: not running"
    else codes "Proxy (SOCKS5 + HTTP): "
      ++ proxy_address b
      ++ codes ", "
      ++ registered_text r.registered (proxy_mode b.cfg == proxy_mode_static) inputs.all_traffic

abbrev color_of : Bytes → Color
color_of state =
    if state == running_state
    then green
    else if state == needs_login || state == needs_machine_auth
    then red
    else gray

-- The texts of a running backend's status
unfoldable pub draw_texts : Reading → Backend → Status → Ui → Ui
unfolding set_state set_ips proxy_text self_id
draw_texts r b st u =
    let v = set_ips st.tailscale_ips (
      set_state
        (if st.backend_state == running_state then codes "Running" else state_text st.backend_state)
        (color_of st.backend_state) u) in
    record v {
      user =
          codes "Account: "
          ++ login_or_empty (self_id (some st))
          ++ codes "   Tailnet: "
          ++ login_or_empty st.current_tailnet;
      host =
          codes "Hostname: "
          ++ host_of st.self (hostname r.os_hostname b.cfg)
          ++ codes "   DNS name:";
      dns = dns_of st.self;
      proxy = proxy_text r b st;
      error = b.last_err;
    }

-- The buttons for logging in and connecting
unfoldable pub draw_buttons : Backend → Bytes → Ui → Ui
draw_buttons b state u =
    let wants_login = state == needs_login || state == no_state in
    let runs = state == running_state in
    let shown = runs || state == stopped in
    record u {
      login_shown = wants_login;
      auth_key_shown = wants_login;
      login_text =
          if b.auth_url == []
          then codes "Log in with browser"
          else codes "Log in with browser (open link)";
      connect_shown = shown;
      logout_shown = shown;
      connect_text = if runs then codes "Disconnect" else codes "Connect";
    }
