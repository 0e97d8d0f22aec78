-- ===== src/Ui/Buttons.antt =====
-- The buttons of the main window that ask the node for something, the inbound checkbox and the exit node
-- dropdown: their handlers in UI.build of ui.go with what the goroutines of these do. `parse_url` is
-- whether url.Parse takes a text; opening a URL is a call that may fail. The handlers call the node only
-- through a backend that has its client.
pub mod ExitNode
use tswipoexp.Prelude.{
  Bool, true, false, not, ◌||◌, Option, none, some, List, [], ◌∷◌, Bytes, ◌==◌, nat_eq, list_eq,
  if◌then◌else◌, trim_space,
}
use tswipoexp.Program.{Error, Result, ok, err, Program}
use tswipoexp.Program.Sealed.{◌>>=◌, ◌>>◌, pure, attempt, syscall, reading, setting}
use tswipoexp.Program.Within.{within}
use tswipoexp.Profiles.Config.{hostname}
use tswipoexp.Status.{Status, running_state}
use tswipoexp.Backend.{Backend}
use tswipoexp.Backend.Node.{
  NodePrefs, LocalClient, get_prefs, login_interactive, login_with_auth_key, log_out,
  set_want_running, set_shields_up, set_exit_node,
}
use tswipoexp.Ui.ExitNodes.{Prefs, Dropdown, choose_exit_node}

-- The node's side, the error line, the text of the auth key's entry, and the URLs that were opened.
pub record Screen (S : Type 0) : Type 0 where
  pub node : S
  pub error : Bytes
  pub auth_key : Bytes
  pub opened : List Bytes

abbrev pub with_node : {S : Type 0} → S → Screen S → Screen S
with_node s x = record x { node = s }

abbrev pub node_of : {S : Type 0} → Screen S → S
node_of x = x.node

abbrev pub seen : NodePrefs → Prefs
seen p = record { exit_node_id = p.exit_node_id; shields_up = p.shields_up }

abbrev pub seen_if_ok : Result NodePrefs → Option Prefs
seen_if_ok (ok p) = some (seen p)
seen_if_ok (err e) = none

abbrev pub wants_running : Option Status → Bool
wants_running none = true
wants_running (some st) = not (st.backend_state == running_state)

module _ {S : Type 0} (lc : LocalClient S) (error_text : Error → Bytes) where
  unfoldable pub show_err : Error → Program (Screen S) (Unit {0})
  show_err e = setting (λ x. record x { error = error_text e })

  abbrev pub shown : Result (Unit {0}) → Program (Screen S) (Unit {0})
  shown (ok u) = pure tt
  shown (err e) = show_err e

  -- `if err := m; err != nil { u.showErrAsync(err) }`
  unfoldable pub ask : Program S (Unit {0}) → Program (Screen S) (Unit {0})
  ask m = do r ← attempt (within node_of with_node m); shown r

  unfoldable pub open_url : (Bytes → Option Error) → Bytes → Program (Screen S) (Unit {0})
  open_url parse_url url = elim (parse_url url) [
    | some e ↦ show_err e
    | none ↦ do r ← attempt (syscall (λ x. (ok tt, record x { opened = url ∷ x.opened }))); shown r
  ]

  unfoldable pub press_login :
      (Bytes → Option Error) → Option Backend → Program (Screen S) (Unit {0})
  unfolding open_url ask
  press_login parse_url none = pure tt
  press_login parse_url (some b) =
      if b.auth_url == [] then ask (login_interactive lc) else open_url parse_url b.auth_url

  -- `os` is the computer's name.
  unfoldable pub press_auth_key : Option Bytes → Option Backend → Program (Screen S) (Unit {0})
  unfolding ask
  press_auth_key os none = pure tt
  press_auth_key os (some b) = reading λ x. if trim_space x.auth_key == [] then pure tt else do
    setting (λ y. record y { auth_key = [] })
    ask (login_with_auth_key lc (hostname os b.cfg) (trim_space x.auth_key))

  -- `confirmed` is the answer to the dialog.
  unfoldable pub press_logout : Bool → Option Backend → Program (Screen S) (Unit {0})
  unfolding ask
  press_logout confirmed none = pure tt
  press_logout confirmed (some b) = if confirmed then ask (log_out lc) else pure tt

  unfoldable pub press_connect : Option Backend → Program (Screen S) (Unit {0})
  unfolding ask
  press_connect none = pure tt
  press_connect (some b) = ask (set_want_running lc (wants_running b.status))

  unfoldable pub fetch_prefs : Program (Screen S) (Option Prefs)
  fetch_prefs = do r ← attempt (within node_of with_node (get_prefs lc)); pure (seen_if_ok r)

  -- `App.prefs`
  unfoldable pub read_prefs : Backend → Program (Screen S) (Option Prefs)
  unfolding fetch_prefs
  read_prefs b = if b.lc then fetch_prefs else pure none

  abbrev asks_shields : Option Prefs → Bool → Bool
  asks_shields none on = true
  asks_shields (some prefs) on = if prefs.shields_up then on else not on

  unfoldable pub toggle_inbound : Bool → Option Backend → Program (Screen S) (Unit {0})
  toggle_inbound on none = pure tt
  toggle_inbound on (some b) = do
    prefs ← read_prefs b
    if asks_shields prefs on then ask (set_shields_up lc (not on)) else pure tt

  abbrev pub ask_exit_node : Option Bytes → Program (Screen S) (Unit {0})
  ask_exit_node none = pure tt
  ask_exit_node (some id) = ask (set_exit_node lc id)

  -- The handler of the dropdown, of an empty label without the call that reads the preferences
  unfoldable pub select_exit_node :
      Dropdown → Bytes → Option Backend → Program (Screen S) (Unit {0})
  select_exit_node d label none = pure tt
  select_exit_node d label (some b) =
      if label == []
      then pure tt
      else do prefs ← read_prefs b; ask_exit_node (choose_exit_node prefs d label)
