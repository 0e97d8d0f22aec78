-- ===== src/Debug.antt =====
-- The debug endpoint of debug.go: whom it listens to, what it reports of the App, and what a tap and a new
-- value do to a widget. A widget is what the endpoint reads of it. Which addresses of the loopback
-- interface there are, and what fmt.Sscanf makes of a row, are arguments.
pub mod Matching
mod Tests
use tswipoexp.Prelude.{
  ℕ, suc, Bool, true, false, not, ◌&&◌, ◌||◌, Option, none, some, List, [], ◌∷◌, ◌++◌, Bytes, codes,
  ◌==◌, nat_eq, list_eq, if◌then◌else◌, cut, has_prefix, to_lower,
}
use tswipoexp.Profiles.Config.{ssh_mode, ssh_off}
use tswipoexp.Status.{Status, Self}
use tswipoexp.Backend.{Backend, proxy_address}
use tswipoexp.Pac.Netip.{decimal}
use tswipoexp.Ui.Peers.{PeerRow, peer_rows}
use tswipoexp.Ui.ProfileManager.{row_of}

-- `serveDebug` listens only on an address whose host is an IP address of the loopback interface; the host
-- is what net.SplitHostPort finds.
unfoldable pub may_listen : (Bytes → Bool) → Option Bytes → Bool
may_listen is_loopback none = false
may_listen is_loopback (some host) = is_loopback host

-- The widgets that have a name: the list of the log viewer and that of the profile window, with its names,
-- are told apart.
pub data Widget : Type 0 where
  label : Bytes → Widget
  button : Bool → Widget
  entry : Bytes → Widget
  select : List Bytes → Widget
  check : Bool → Widget
  radio : List Bytes → Widget
  copy_text : Bytes → Widget
  log_list : Widget
  profile_list : List Bytes → Widget
  other_list : Widget
  other : Widget

-- What is done to a widget or a dialog.
pub data Effect : Type 0 where
  nothing : Effect
  taps : Effect
  sets_checked : Bool → Effect
  copies : Effect
  sets_text : Bytes → Effect
  selects : Bytes → Effect
  selects_row : ℕ → Effect
  selects_rows : ℕ → ℕ → Effect
  confirms : Bytes → Effect
  hides : Bytes → Effect
  copies_selection : Effect

-- The HTTP status of a refusal, or what is done.
pub data Reply : Type 0 where
  refused : ℕ → Reply
  does : Effect → Reply

abbrev pub dialogs : List Bytes
dialogs =
    codes "outbound"
    ∷ codes "inbound"
    ∷ codes "hostname"
    ∷ codes "profile"
    ∷ codes "rename"
    ∷ codes "delete"
    ∷ []

unfoldable pub is_dialog : Bytes → List Bytes → Bool
is_dialog prefix [] = false
is_dialog prefix (d ∷ ds) = d == prefix || is_dialog prefix ds

-- The part for the dialogs, which are no widgets
abbrev pub tap_dialog : (Bytes → Bool) → Bytes → Bytes → Reply
tap_dialog is_open prefix action =
    if not (is_dialog prefix dialogs && is_open prefix)
    then refused 400
    else if action == codes "save"
    then does (confirms prefix)
    else does (hides prefix)

abbrev pub tap_widget : Option Widget → Reply
tap_widget none = refused 404
tap_widget (some (button disabled)) = if disabled then refused 400 else does taps
tap_widget (some (check checked)) = does (sets_checked (not checked))
tap_widget (some (copy_text value)) = does copies
tap_widget (some (label text)) = refused 400
tap_widget (some (entry text)) = refused 400
tap_widget (some (select options)) = refused 400
tap_widget (some (radio options)) = refused 400
tap_widget (some log_list) = refused 400
tap_widget (some (profile_list names)) = refused 400
tap_widget (some other_list) = refused 400
tap_widget (some other) = refused 400

abbrev tap_named : Bool → (Bytes → Option Widget) → Bytes → Reply
tap_named logs_open lookup name =
    if name == codes "logs.copy"
    then if logs_open then does copies_selection else refused 400
    else tap_widget (lookup name)

abbrev tap_cut :
    Option (Bytes × Bytes) → (Bytes → Bool) → Bool → (Bytes → Option Widget) → Bytes → Reply
tap_cut none is_open logs_open lookup name = tap_named logs_open lookup name
tap_cut (some (prefix, action)) is_open logs_open lookup name =
    if action == codes "save" || action == codes "cancel"
    then tap_dialog is_open prefix action
    else tap_named logs_open lookup name

-- `debugTap`, with which dialogs and whether the log viewer are open
unfoldable pub debug_tap : (Bytes → Bool) → Bool → (Bytes → Option Widget) → Bytes → Reply
unfolding is_dialog
debug_tap is_open logs_open lookup name = tap_cut (cut b'.' name) is_open logs_open lookup name

-- The first option with this index or this prefix
unfoldable pub match_radio : Bytes → ℕ → List Bytes → Option Bytes
match_radio text i [] = none
match_radio text i (opt ∷ options) =
    if text == decimal i || has_prefix opt text then some opt else match_radio text (suc i) options

-- What the loop over the options of a dropdown has found: the first one that matches, or that there are two.
pub data Match : Type 0 where
  found : Bytes → Match
  ambiguous : Match

unfoldable pub match_options : Bytes → List Bytes → Bytes → Match
match_options text [] match = found match
match_options text (opt ∷ options) match =
    if opt == text
    then found opt
    else if not (has_prefix opt text)
    then match_options text options match
    else if match == []
    then match_options text options opt
    else ambiguous

abbrev pub selected_by : Match → Option Bytes
selected_by ambiguous = none
selected_by (found []) = none
selected_by (found (c ∷ cs)) = some (c ∷ cs)

-- The option of a dropdown that a text selects
unfoldable pub match_select : Bytes → List Bytes → Option Bytes
unfolding match_options
match_select text options = selected_by (match_options text options [])

pub data Scan : Type 0 where
  two : ℕ → ℕ → Scan
  one : ℕ → Scan
  bad : Scan

abbrev select_rows : Scan → Reply
select_rows (two lo hi) = does (selects_rows lo hi)
select_rows (one lo) = does (selects_row lo)
select_rows bad = refused 400

abbrev select_option : Option Bytes → Reply
select_option none = refused 400
select_option (some opt) = does (selects opt)

abbrev select_profile : Option ℕ → Reply
select_profile none = refused 400
select_profile (some i) = does (selects_row i)

abbrev pub set_widget : (Bytes → Scan) → Bytes → Option Widget → Reply
set_widget scan text none = refused 404
set_widget scan text (some (entry old)) = does (sets_text text)
set_widget scan text (some (radio options)) = select_option (match_radio text 0 options)
set_widget scan text (some (select options)) = select_option (match_select text options)
set_widget scan text (some log_list) = select_rows (scan text)
set_widget scan text (some (profile_list names)) = select_profile (row_of text names)
set_widget scan text (some other_list) = does nothing
set_widget scan text (some (check checked)) = does (sets_checked (to_lower text == codes "true"))
set_widget scan text (some (label old)) = refused 400
set_widget scan text (some (button disabled)) = refused 400
set_widget scan text (some (copy_text value)) = refused 400
set_widget scan text (some other) = refused 400

-- `debugSet`
unfoldable pub debug_set : (Bytes → Scan) → (Bytes → Option Widget) → Bytes → Bytes → Reply
unfolding match_radio match_select
debug_set scan lookup name text = set_widget scan text (lookup name)

-- What `debugState` reports.
pub record State : Type 0 where
  pub profile : Bytes
  pub profiles : List Bytes
  pub backend_state : Bytes
  pub auth_url : Bytes
  pub last_err : Bytes
  pub proxy_addr : Bytes
  pub ssh : Bytes
  pub tailscale_ips : List Bytes
  pub hostname : Bytes
  pub dns_name : Bytes
  pub peers : List PeerRow

abbrev with_self : Option Self → State → State
with_self none s = s
with_self (some self) s = record s { hostname = self.host_name; dns_name = self.dns_name }

abbrev with_status : Option Status → State → State
with_status none s = s
with_status (some st) s = with_self st.self (record s {
  backend_state = st.backend_state;
  tailscale_ips = st.tailscale_ips;
  peers = peer_rows st;
})

abbrev with_backend : Option Backend → State → State
with_backend none s = s
with_backend (some b) s = with_status b.status (record s {
  auth_url = b.auth_url;
  last_err = b.last_err;
  proxy_addr = proxy_address b;
  ssh = if b.ssh_srv then ssh_mode b.cfg else ssh_off;
})

unfoldable pub debug_state : Option Backend → Bytes → List Bytes → State
debug_state b current names = with_backend b (record {
  profile = current;
  profiles = names;
  backend_state = [];
  auth_url = [];
  last_err = [];
  proxy_addr = [];
  ssh = [];
  tailscale_ips = [];
  hostname = [];
  dns_name = [];
  peers = [];
})
