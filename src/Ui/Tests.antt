-- ===== src/Ui/Tests.antt =====
-- The main window at concrete peers.
use mathlib.Core.List.{Perm}
use tswipoexp.Prelude.{
  ◌≡◌, ◌≢◌, ◌≤◌, refl, ◌⊎◌, true, false, Option, none, some, [], ◌∷◌, map, codes, arith, trim_dot,
  trim_space, cut,
}
use tswipoexp.Profiles.Config.{zero_config}
use tswipoexp.Status.{Status, Peer, running_state}
use tswipoexp.Ui.Peers.{peer_rows, peer_row, short_name}
use tswipoexp.Ui.Peers.Sorting.{InOrder, peer_rows-InOrder}
use tswipoexp.Ui.ExitNodes.{Prefs, refresh_exit_nodes, choose_exit_node, exit_label}
use tswipoexp.Ui.ExitNodes.Choosing.{IsClear, refresh_exit_nodes-unread}
use tswipoexp.Ui.Refreshing.{
  Refresher, up_to_date, change, schedule_refresh, clear_timer, Step, notifies, expires, Reaches,
  here, changed, stepped, Settles,
}
use tswipoexp.Ui.Refreshing.Settling.{pending, Settles-drawn}
use tswipoexp.Ui.Settings.{OutboundForm, show_outbound_settings, edit_outbound}
use tswipoexp.Ui.Settings.Reopening.{shown_addr, show_outbound_settings-edit_outbound}

abbrev pub server : Peer
server = record {
  primary_routes = none;
  id = codes "n1";
  dns_name = codes "server.example.ts.net.";
  host_name = codes "SERVER";
  os = codes "linux";
  ips = codes "100.64.0.2" ∷ [];
  cur_addr = codes "192.0.2.1:41641";
  relay = [];
  online = true;
  active = true;
  is_exit_node = false;
  exit_node_option = true;
}

abbrev pub laptop : Peer
laptop = record server {
  id = codes "n2";
  dns_name = [];
  host_name = codes "laptop";
  ips = [];
  online = false;
  active = false;
}

abbrev pub status : Status
status = record {
  backend_state = running_state;
  magic_dns_suffix = codes "example.ts.net.";
  exit_node = false;
  current_tailnet = none;
  self = none;
  login_name = λ n. none;
  tailscale_ips = [];
  peers = laptop ∷ server ∷ [];
}

server_name : short_name server ≡ codes "server"
unfolding short_name trim_dot cut
server_name = refl

peer_rows-InOrder_example :
    InOrder (peer_rows status) × Perm (peer_rows status) (map peer_row status.peers)
peer_rows-InOrder_example = peer_rows-InOrder status

pub peers-IsClear : IsClear (laptop ∷ server ∷ [])
unfolding exit_label short_name trim_dot cut
peers-IsClear = (
  λ o e. absurd (ground (arith, e)),
  λ o. (λ p e. absurd (ground (arith, e)), tt),
  (λ o e. absurd (ground (arith, e)), λ o. tt, tt),
)

no_prefs : (prefs : Prefs) → ◌≡◌ {A = Option Prefs} none (some prefs) → prefs.exit_node_id ≢ []
no_prefs prefs e = absurd (ground (arith, e))

refresh_exit_nodes-unread_example :
    choose_exit_node none
      (refresh_exit_nodes (laptop ∷ server ∷ []) none)
      (refresh_exit_nodes (laptop ∷ server ∷ []) none).selected
    ≡ some []
refresh_exit_nodes-unread_example =
    refresh_exit_nodes-unread (laptop ∷ server ∷ []) none peers-IsClear no_prefs

abbrev form : OutboundForm
form = record {
  static = true;
  all_traffic = false;
  env_vars = true;
  watchdog = false;
  run_once = true;
  addr = codes " 127.0.0.1:1080";
}

show_outbound_settings-edit_outbound_example :
    (show_outbound_settings (edit_outbound form zero_config)
      ≡ record form { addr = shown_addr (trim_space form.addr) })
    × ((edit_outbound form zero_config).hostname ≡ zero_config.hostname)
    × ((edit_outbound form zero_config).sync_hostname ≡ zero_config.sync_hostname)
    × ((edit_outbound form zero_config).register_proxy ≡ zero_config.register_proxy)
    × ((edit_outbound form zero_config).ssh_mode ≡ zero_config.ssh_mode)
    × ((edit_outbound form zero_config).ssh ≡ zero_config.ssh)
show_outbound_settings-edit_outbound_example = show_outbound_settings-edit_outbound form zero_config

-- A change whose notification has set the timer
abbrev waiting : Refresher
waiting = schedule_refresh (record (change up_to_date) { owed = 0 })

waiting-Reaches : Reaches up_to_date waiting
unfolding change schedule_refresh
waiting-Reaches = stepped (changed here) (notifies 0 refl refl)

waiting-Settles : Settles waiting 1 (clear_timer waiting)
unfolding change schedule_refresh clear_timer
waiting-Settles = Settles.more Settles.none (expires refl refl)

Settles-drawn_example :
    (1 ≤ pending waiting)
    × (((clear_timer waiting).drawn ≡ (clear_timer waiting).changes)
        ⊎ ((t : Refresher) × Step (clear_timer waiting) t))
Settles-drawn_example = Settles-drawn waiting-Reaches waiting-Settles
