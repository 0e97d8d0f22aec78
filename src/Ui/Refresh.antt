-- ===== src/Ui/Refresh.antt =====
-- `refresh` of ui.go, from what it sets in turn.
pub mod Quiet
use tswipoexp.Prelude.{
  Bool, true, false, not, ◌||◌, Option, none, some, List, [], ◌∷◌, ◌++◌, Bytes, codes, length, ◌==◌,
  nat_eq, list_eq, if◌then◌else◌,
}
use tswipoexp.Profiles.Config.{register_proxy}
use tswipoexp.Status.{Status}
use tswipoexp.Backend.{Backend}
use tswipoexp.Ui.Peers.{peer_rows, apply_peer_filter}
use tswipoexp.Ui.ExitNodes.{Prefs, Dropdown, refresh_exit_nodes, choose_exit_node}
use tswipoexp.Ui.ProfileManager.{Manager, Facts, reload}
use tswipoexp.Ui.Window.{
  Ui, Request, Reading, Toolkit, gray, new_profile_item, requesting, choose_profile, same_bool,
  check_outbound, check_inbound, exit_request, set_state, set_ips, count_online, draw_texts,
  draw_buttons,
}

abbrev calls : Bool → List Request → List Request
calls true rs = rs
calls false rs = []

abbrev reload_manager : Reading → Option Manager → Option Manager
reload_manager r none = none
reload_manager r (some m) = some (reload r.facts r.names m)

-- `u.profileSel.SetSelected(cur)`, if it differs
unfoldable pub set_profile : Toolkit → Bytes → Ui → Ui
set_profile tk cur u =
    if u.profile == cur
    then u
    else if tk.takes u.profile_options cur
    then requesting (choose_profile cur cur) (record u { profile = cur })
    else u

-- Whether the inbound checkbox has to change, it is set as the preferences say.
abbrev pub set_inbound : Toolkit → Option Prefs → Option Prefs → Ui → Ui
set_inbound tk none again u = u
set_inbound tk (some prefs) again u =
    if same_bool u.inbound (not prefs.shields_up)
    then u
    else requesting (calls tk.check_calls (check_inbound again (not prefs.shields_up)))
        (record u { inbound = not prefs.shields_up })

unfoldable pub set_outbound : Toolkit → Backend → Ui → Ui
set_outbound tk b u =
    let on = register_proxy b.cfg in
    if same_bool u.outbound on
    then record u { outbound_look = on }
    else requesting (calls tk.check_calls (check_outbound (some b.cfg) on))
        (record u { outbound = on; outbound_look = on })

-- The dropdown gets its options, and its selection if it takes that.
unfoldable pub set_exit_nodes : Toolkit → Reading → Status → Ui → Ui
set_exit_nodes tk r st u =
    let d = refresh_exit_nodes st.peers r.prefs in
    if u.exit_node.selected == d.selected || not (tk.takes d.options d.selected)
    then record u { exit_node = record d { selected = u.exit_node.selected } }
    else requesting (exit_request (choose_exit_node r.again d d.selected))
        (record u { exit_node = d })

unfoldable pub draw_peers : Status → Ui → Ui
draw_peers st u =
    let rows = peer_rows st in
    record u {
      peers_count = (length rows, count_online rows);
      table = apply_peer_filter (record u.table { peers_all = rows });
    }

abbrev pub draw_status : Toolkit → Reading → Backend → Option Status → Ui → Ui
draw_status tk r b none u = set_state (codes "Starting") gray u
draw_status tk r b (some st) u = draw_peers st (
    set_exit_nodes tk r st (
      set_outbound tk b
        (set_inbound tk r.prefs r.again (draw_buttons b st.backend_state (draw_texts r b st u)))))

abbrev pub draw_backend : Toolkit → Reading → Option Backend → Ui → Ui
draw_backend tk r (some b) u = draw_status tk r b b.status u
draw_backend tk r none u =
    let v = set_ips [] (set_state (codes "No profile loaded") gray u) in
    record v {
      user = [];
      host = [];
      dns = [];
      proxy = [];
      peers_count = (0, 0);
      table = apply_peer_filter (record u.table { peers_all = [] });
    }

unfoldable pub refresh : Toolkit → Reading → Ui → Ui
unfolding set_profile set_outbound set_exit_nodes draw_peers
refresh tk r u = draw_backend tk r r.backend (
    set_profile tk r.facts.current (record u {
      profile_options = r.names ++ (new_profile_item ∷ []);
      manager = reload_manager r u.manager;
    }))
