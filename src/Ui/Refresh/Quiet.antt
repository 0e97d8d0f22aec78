-- ===== src/Ui/Refresh/Quiet.antt =====
-- A refresh of the window starts nothing.
use mathlib.Core.List.{append-nil}
use tswipoexp.Prelude.{
  ◌≡◌, ◌≢◌, refl, ap, ◌∙◌, Bool, true, false, not, ◌||◌, Option, none, some, List, [], ◌++◌, Bytes,
  ◌==◌, nat_eq, list_eq, eq_iff, eq_refl, if◌then◌else◌, arith,
}
use tswipoexp.Status.{Status}
use tswipoexp.Profiles.Config.{register_proxy}
use tswipoexp.Backend.{Backend}
use tswipoexp.Ui.ExitNodes.{Prefs, Dropdown, refresh_exit_nodes, choose_exit_node}
use tswipoexp.Ui.ExitNodes.Choosing.{IsClear, refresh_exit_nodes-quiet}
use tswipoexp.Ui.Window.{
  Ui, Request, Reading, Toolkit, new_profile_item, requesting, choose_profile, same_bool,
  check_outbound, check_inbound, exit_request, set_state, set_ips, draw_texts, draw_buttons,
}
use tswipoexp.Ui.Refresh.{
  calls, set_profile, set_inbound, set_outbound, set_exit_nodes, draw_peers, draw_status,
  draw_backend, refresh,
}

same_bool_refl : (b : Bool) → same_bool b b ≡ true
same_bool_refl true = refl
same_bool_refl false = refl

calls_nil : (b : Bool) (rs : List Request) → rs ≡ [] → calls b rs ≡ []
calls_nil true rs e = e
calls_nil false rs e = refl

requesting-nil : (rs : List Request) (u : Ui) → rs ≡ [] → (requesting rs u).requests ≡ u.requests
requesting-nil rs u e = ap (λ t. u.requests ++ t) e ∙ append-nil u.requests

choose_profile-current : (cur : Bytes) → cur ≢ new_profile_item → choose_profile cur cur ≡ []
unfolding choose_profile
choose_profile-current cur h =
    let other : (cur == new_profile_item) ≡ false =
      ground (arith, eq_iff cur new_profile_item, h) in
    rw (other, eq_refl cur) (ground arith)

-- Either of these two windows has the requests of the first one.
if-requests :
    (b : Bool) (u v w : Ui)
    → u.requests ≡ w.requests
    → v.requests ≡ w.requests
    → (if b then u else v).requests ≡ w.requests
if-requests true u v w e f = e
if-requests false u v w e f = f

set_profile-requests :
    (tk : Toolkit) (cur : Bytes) (u : Ui)
    → cur ≢ new_profile_item
    → (set_profile tk cur u).requests ≡ u.requests
unfolding set_profile
set_profile-requests tk cur u h =
    let asked : Ui = requesting (choose_profile cur cur) (record u { profile = cur }) in
    if-requests (u.profile == cur) u (if tk.takes u.profile_options cur then asked else u) u refl (
      if-requests (tk.takes u.profile_options cur) asked u u
        (requesting-nil (choose_profile cur cur) (record u { profile = cur })
          (choose_profile-current cur h))
        refl)

set_inbound-requests :
    (tk : Toolkit) (prefs : Prefs) (u : Ui)
    → (set_inbound tk (some prefs) (some prefs) u).requests ≡ u.requests
set_inbound-requests tk prefs u =
    let rs : List Request = check_inbound (some prefs) (not prefs.shields_up) in
    let none_asked : rs ≡ [] = quiet prefs.shields_up in
    let set : Ui = record u { inbound = not prefs.shields_up } in
    if-requests (same_bool u.inbound (not prefs.shields_up)) u
      (requesting (calls tk.check_calls rs) set) u refl
      (requesting-nil (calls tk.check_calls rs) set (calls_nil tk.check_calls rs none_asked))
  where
    quiet :
        (up : Bool)
        → check_inbound
            (some (record { exit_node_id = prefs.exit_node_id; shields_up = up }))
            (not up)
          ≡ []
    quiet true = refl
    quiet false = refl

set_outbound-requests :
    (tk : Toolkit) (b : Backend) (u : Ui) → (set_outbound tk b u).requests ≡ u.requests
unfolding set_outbound
set_outbound-requests tk b u =
    let on : Bool = register_proxy b.cfg in
    let rs : List Request = check_outbound (some b.cfg) on in
    let none_asked : rs ≡ [] = rw (same_bool_refl on) refl in
    let set : Ui = record u { outbound = on; outbound_look = on } in
    if-requests (same_bool u.outbound on) (record u { outbound_look = on })
      (requesting (calls tk.check_calls rs) set) u refl
      (requesting-nil (calls tk.check_calls rs) set (calls_nil tk.check_calls rs none_asked))

set_exit_nodes-requests :
    (tk : Toolkit) (r : Reading) (st : Status) (prefs : Prefs) (u : Ui)
    → r.prefs ≡ some prefs
    → r.again ≡ some prefs
    → IsClear st.peers
    → (set_exit_nodes tk r st u).requests ≡ u.requests
unfolding set_exit_nodes
set_exit_nodes-requests tk r st prefs u e f c =
    let d : Dropdown = refresh_exit_nodes st.peers r.prefs in
    let asked : Option Bytes = choose_exit_node r.again d d.selected in
    let quiet : asked ≡ none = rw (e, f) (refresh_exit_nodes-quiet st.peers prefs c) in
    if-requests (u.exit_node.selected == d.selected || not (tk.takes d.options d.selected))
      (record u { exit_node = record d { selected = u.exit_node.selected } })
      (requesting (exit_request asked) (record u { exit_node = d })) u refl
      (requesting-nil (exit_request asked) (record u { exit_node = d }) (ap exit_request quiet))

-- The labels of a running backend's exit nodes are clear.
abbrev StatusIsClear : Option Status → Type 0
StatusIsClear none = Unit
StatusIsClear (some st) = IsClear st.peers

abbrev pub BackendIsClear : Option Backend → Type 0
BackendIsClear none = Unit
BackendIsClear (some b) = StatusIsClear b.status

set_inbound-known :
    (tk : Toolkit) (r : Reading) (prefs : Prefs) (u : Ui)
    → r.prefs ≡ some prefs
    → r.again ≡ some prefs
    → (set_inbound tk r.prefs r.again u).requests ≡ u.requests
set_inbound-known tk r prefs u e f = rw (e, f) (set_inbound-requests tk prefs u)

draw_texts-requests :
    (r : Reading) (b : Backend) (st : Status) (u : Ui)
    → (draw_buttons b st.backend_state (draw_texts r b st u)).requests ≡ u.requests
unfolding draw_buttons draw_texts set_state set_ips
draw_texts-requests r b st u = refl

draw_status-requests :
    (tk : Toolkit) (r : Reading) (prefs : Prefs) (b : Backend) (st : Option Status) (u : Ui)
    → r.prefs ≡ some prefs
    → r.again ≡ some prefs
    → StatusIsClear st
    → (draw_status tk r b st u).requests ≡ u.requests
unfolding draw_peers set_state
draw_status-requests tk r prefs b none u e f c = refl
draw_status-requests tk r prefs b (some st) u e f c =
    let v1 = draw_buttons b st.backend_state (draw_texts r b st u) in
    let v2 = set_inbound tk r.prefs r.again v1 in
    set_exit_nodes-requests tk r st prefs (set_outbound tk b v2) e f c
    ∙ set_outbound-requests tk b v2
    ∙ set_inbound-known tk r prefs v1 e f
    ∙ draw_texts-requests r b st u

draw_backend-requests :
    (tk : Toolkit) (r : Reading) (prefs : Prefs) (b : Option Backend) (u : Ui)
    → r.prefs ≡ some prefs
    → r.again ≡ some prefs
    → BackendIsClear b
    → (draw_backend tk r b u).requests ≡ u.requests
unfolding set_state set_ips
draw_backend-requests tk r prefs none u e f c = refl
draw_backend-requests tk r prefs (some b) u e f c =
    draw_status-requests tk r prefs b b.status u e f c

-- If the node's preferences are read, by the refresh and again by the handlers of the widgets, with the
-- same result, the labels of the exit nodes are clear, and the profile that runs does not have the name
-- of the entry for a new one, then a refresh starts nothing: whatever the window showed before, no
-- handler of a widget that it sets switches the profile, opens a dialog, or changes a setting.
pub refresh-quiet :
    (tk : Toolkit) (r : Reading) (prefs : Prefs) (u : Ui)
    → r.prefs ≡ some prefs
    → r.again ≡ some prefs
    → BackendIsClear r.backend
    → r.facts.current ≢ new_profile_item
    → (refresh tk r u).requests ≡ u.requests
unfolding refresh
refresh-quiet tk r prefs u e f c h =
    draw_backend-requests tk r prefs r.backend _ e f c ∙ set_profile-requests tk r.facts.current _ h
