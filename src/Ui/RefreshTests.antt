-- ===== src/Ui/RefreshTests.antt =====
-- A refresh of the main window at concrete values.
use tswipoexp.Prelude.{◌≡◌, ◌≢◌, refl, true, false, none, some, [], ◌∷◌, codes, arith}
use tswipoexp.Profiles.Config.{zero_config}
use tswipoexp.Backend.{Backend, new_backend}
use tswipoexp.Ui.Peers.{all_peers}
use tswipoexp.Ui.ExitNodes.{Prefs, none_chosen}
use tswipoexp.Ui.Window.{Ui, Reading, Toolkit, gray, new_profile_item}
use tswipoexp.Ui.Refresh.{refresh}
use tswipoexp.Ui.Refresh.Quiet.{refresh-quiet}
use tswipoexp.Ui.Tests.{status, peers-IsClear}

abbrev blank : Ui
blank = record {
  profile_options = [];
  profile = [];
  manager = none;
  state = [];
  dot = gray;
  ipv4 = [];
  ipv6 = [];
  ip_sep = false;
  user = [];
  host = [];
  dns = [];
  proxy = [];
  error = [];
  login_shown = false;
  auth_key_shown = false;
  login_text = [];
  connect_shown = false;
  logout_shown = false;
  connect_text = [];
  inbound = false;
  outbound = false;
  outbound_look = false;
  exit_node = none_chosen;
  table = record {
    peers_all = [];
    peers_search = [];
    peers_active = false;
    peers = [];
    peers_shown = all_peers 0;
  };
  peers_count = (0, 0);
  requests = [];
}

abbrev prefs : Prefs
prefs = record { exit_node_id = codes "n1"; shields_up = false }

abbrev running : Backend
running = record (new_backend (codes "Work") (codes "Work") zero_config) { status = some status }

abbrev reading : Reading
reading = record {
  backend = some running;
  registered = false;
  prefs = some prefs;
  again = some prefs;
  os_hostname = none;
  is_tailscale_ip = λ a. false;
  names = codes "Work" ∷ [];
  facts = record {
    current = codes "Work";
    dir_of = λ name. name;
    summary_of = λ name. record {
      state = [];
      tailnet = [];
      account = [];
      hostname = [];
      dns_name = [];
      ips = [];
      updated_at = 0;
    };
    config_of = λ name. none;
    time_text = λ t. [];
    calls_back = λ row i. true;
  };
}

-- A toolkit that calls every handler
abbrev eager : Toolkit
eager = record { takes = λ options label. true; check_calls = true }

work_is_old : codes "Work" ≢ new_profile_item
work_is_old e = absurd (ground (arith, e))

refresh-quiet_example : (refresh eager reading blank).requests ≡ blank.requests
refresh-quiet_example = refresh-quiet eager reading prefs blank refl refl peers-IsClear work_is_old
