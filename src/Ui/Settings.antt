-- ===== src/Ui/Settings.antt =====
-- The settings dialogs of ui_outbound.go and ui.go, as what they show when they open and what they tell
-- the App when they close: the outbound and inbound settings, the hostname, and a new profile.
-- net.SplitHostPort is an argument, as whether it accepts an address.
pub mod Reopening
use tswipoexp.Prelude.{
  Bool, true, false, not, ◌&&◌, ◌||◌, Option, none, some, List, [], ◌∷◌, ◌++◌, Bytes, codes, ◌==◌,
  nat_eq, list_eq, if◌then◌else◌, trim_space,
}
use tswipoexp.Program.{Result, ok, err}
use tswipoexp.Program.Sealed.{◌>>=◌, pure, attempt}
use tswipoexp.Proxy.Settings.{proxy_mode_static, proxy_mode_pac}
use tswipoexp.Profiles.Config.{
  Config, ssh_mode, ssh_off, ssh_same_user, ssh_all_users, proxy_mode, proxy_addr,
  default_proxy_addr, set_env_vars, watchdog, run_once_restore, hostname,
}
use tswipoexp.Profiles.Store.{JsonText, create}
use tswipoexp.Status.{Status}
use tswipoexp.Backend.{Platform}
use tswipoexp.Ssh.Server.{self_id, login_or_empty}
use tswipoexp.App.{
  A, World, on_disk, show, Command, changes_outbound, chooses_ssh_mode, sets_hostname,
  switch_profile,
}

-- The widgets of the outbound dialog; `static` is whether the second mode is selected.
pub record OutboundForm : Type 0 where
  pub static : Bool
  pub all_traffic : Bool
  pub env_vars : Bool
  pub watchdog : Bool
  pub run_once : Bool
  pub addr : Bytes

-- The dialog as it opens
unfoldable pub show_outbound_settings : Config → OutboundForm
show_outbound_settings cfg = record {
  static = proxy_mode cfg == proxy_mode_static;
  all_traffic = cfg.pac_all_traffic;
  env_vars = set_env_vars cfg;
  watchdog = watchdog cfg;
  run_once = run_once_restore cfg;
  addr = proxy_addr cfg;
}

unfoldable pub new_addr : OutboundForm → Bytes
new_addr f = let text = trim_space f.addr in if text == [] then default_proxy_addr else text

-- The function that applyOutbound gets
unfoldable pub edit_outbound : OutboundForm → Config → Config
unfolding new_addr
edit_outbound f c = record c {
  set_env_vars = some f.env_vars;
  watchdog = some f.watchdog;
  run_once_restore = some f.run_once;
  pac_all_traffic = f.all_traffic;
  proxy_mode = if f.static then proxy_mode_static else proxy_mode_pac;
  proxy_addr = if new_addr f == default_proxy_addr then [] else new_addr f;
}

-- What a dialog does: nothing, an error about an address, or a command.
pub data Answer : Type 0 where
  dismissed : Answer
  refused : Bytes → Answer
  asks : Command → Answer

-- What the dialog does when it closes, by whether it is saved, with the configuration as it is then: an
-- address that cannot be split is shown as an error, and nothing is changed.
unfoldable pub save_outbound_settings : (Bytes → Bool) → Bool → OutboundForm → Config → Answer
unfolding edit_outbound
save_outbound_settings splits saved f cfg =
    if not saved
    then dismissed
    else if not (splits (new_addr f))
    then refused (new_addr f)
    else asks (changes_outbound (edit_outbound f) (not (new_addr f == proxy_addr cfg)))

-- The options of the inbound dialog
unfoldable pub inbound_options : Option Status → List Bytes
unfolding self_id
inbound_options st =
    let login = login_or_empty (self_id st) in
    codes "Off"
    ∷ (if login == []
        then codes "On for same user only"
        else codes "On for same user only (" ++ login ++ codes ")")
    ∷ codes "On for all users (if TCP port 22 is reachable per tailnet policy)"
    ∷ []

abbrev pub ssh_modes : List Bytes
ssh_modes = ssh_off ∷ ssh_same_user ∷ ssh_all_users ∷ []

-- The last option whose mode is this one, or the selection so far.
unfoldable pub option_of : Bytes → List Bytes → List Bytes → Bytes → Bytes
option_of mode (m ∷ modes) (opt ∷ options) selected =
    option_of mode modes options (if m == mode then opt else selected)
option_of mode modes options selected = selected

-- The option that the inbound dialog shows when it opens
unfoldable pub show_inbound_settings : Config → Option Status → Bytes
unfolding inbound_options option_of
show_inbound_settings cfg st = option_of (ssh_mode cfg) ssh_modes (inbound_options st) []

-- The loop over the options when it is saved
unfoldable pub modes_of : Bytes → List Bytes → List Bytes → List Command
modes_of selected (opt ∷ options) (m ∷ modes) =
    let rest = modes_of selected options modes in
    if opt == selected then chooses_ssh_mode m ∷ rest else rest
modes_of selected options modes = []

unfoldable pub save_inbound_settings : Bool → List Bytes → Bytes → List Command
unfolding modes_of
save_inbound_settings saved options selected =
    if saved then modes_of selected options ssh_modes else []

-- The hostname dialog: its entry and its checkbox
unfoldable pub show_hostname_dialog : Option Bytes → Config → Bytes × Bool
show_hostname_dialog os_hostname cfg = (hostname os_hostname cfg, cfg.sync_hostname)

unfoldable pub save_hostname_dialog : Bool → Bytes → Bool → Answer
save_hostname_dialog saved text sync =
    if saved then asks (sets_hostname (trim_space text) sync) else dismissed

module _ (os : Platform) (json : JsonText) (log_file : Bytes → Option Bytes) where
  -- A profile that is created is switched to.
  abbrev pub switch_to : Bytes → Result (Unit {0}) → A (Unit {0})
  switch_to name (err e) = show (err e)
  switch_to name (ok u) = switch_profile os json log_file name

  -- The end of the dialog for a new profile
  unfoldable pub save_new_profile : Bool → Bytes → A (Unit {0})
  save_new_profile saved text =
      let name = trim_space text in
      if not saved || name == []
      then pure tt
      else do created ← attempt (on_disk (create name)); switch_to name created
