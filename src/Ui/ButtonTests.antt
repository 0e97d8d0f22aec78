-- ===== src/Ui/ButtonTests.antt =====
-- The exit node dropdown on a node that keeps its preferences.
use tswipoexp.Prelude.{
  ◌≡◌, refl, true, false, some, [], ◌∷◌, Bytes, codes, if◌then◌else◌, arith, list_eqb, trim_dot,
  cut,
}
use tswipoexp.Program.{Error, Machine}
use tswipoexp.Profiles.Config.{zero_config}
use tswipoexp.Backend.{Backend, new_backend}
use tswipoexp.Backend.Node.{NodePrefs, MaskedPrefs, LocalClient}
use tswipoexp.Ui.Peers.{short_name}
use tswipoexp.Ui.ExitNodes.{Dropdown, refresh_exit_nodes, id_of, exit_label}
use tswipoexp.Ui.Buttons.{Screen, select_exit_node}
use tswipoexp.Ui.Buttons.ExitNode.{Edits, Shows, select_exit_node-refresh_exit_nodes}
use tswipoexp.Ui.Tests.{server, laptop, peers-IsClear}

abbrev masked : MaskedPrefs → NodePrefs → NodePrefs
masked m p = record {
  want_running = if m.want_running_set then m.prefs.want_running else p.want_running;
  shields_up = if m.shields_up_set then m.prefs.shields_up else p.shields_up;
  exit_node_id = if m.exit_node_id_set then m.prefs.exit_node_id else p.exit_node_id;
  hostname = if m.hostname_set then m.prefs.hostname else p.hostname;
}

abbrev local_client : LocalClient NodePrefs
local_client = record {
  prefs = λ p. p;
  edit_prefs = masked;
  start = λ auth_key p old. p;
  start_login_interactive = λ p. p;
  logout = λ p. record p { want_running = false };
}

local_client-Edits : Edits local_client
local_client-Edits = record {
  want_running = λ m s. refl;
  shields_up = λ m s. refl;
  exit_node_id = λ m s. refl;
  hostname = λ m s. refl;
}

abbrev home : Backend
home = record (new_backend (codes "Home") (codes "state") zero_config) { lc = true }

abbrev screen : Machine (Screen NodePrefs)
screen = record {
  state = record {
    node = record {
      want_running = true;
      shields_up = false;
      exit_node_id = codes "n2";
      hostname = codes "pc";
    };
    error = [];
    auth_key = [];
    opened = [];
  };
  fates = [];
  past = [];
}

abbrev offered : Dropdown
offered =
    refresh_exit_nodes (laptop ∷ server ∷ [])
      (some (record { exit_node_id = codes "n2"; shields_up = false }))

abbrev text_of : Error → Bytes
text_of e = codes "i/o error"

select_exit_node-refresh_exit_nodes_example :
    Shows local_client text_of
      (laptop ∷ server ∷ [])
      (id_of (codes "server") offered.ids)
      screen.state
      (select_exit_node local_client text_of offered (codes "server") (some home) screen).1.state
select_exit_node-refresh_exit_nodes_example =
    select_exit_node-refresh_exit_nodes local_client text_of local_client-Edits
      (laptop ∷ server ∷ []) peers-IsClear home refl offered (codes "server")
      (λ e. absurd (ground (arith, e))) screen

server_id : id_of (codes "server") offered.ids ≡ codes "n1"
unfolding refresh_exit_nodes id_of exit_label short_name trim_dot cut list_eqb
server_id = refl
