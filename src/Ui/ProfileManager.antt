-- ===== src/Ui/ProfileManager.antt =====
-- The profile window of ui_profiles.go: its list, the details of the selected profile, and what its
-- dialogs for renaming and deleting tell the App. A list of the toolkit that selects a row may call the
-- window back, which is an argument; the text of a time is another one.
pub mod Selecting
use tswipoexp.Prelude.{
  ℕ, zero, suc, Bool, true, false, not, ◌&&◌, ◌||◌, Option, none, some, List, [], ◌∷◌, ◌++◌, Bytes,
  codes, nat_eqb, ◌==◌, nat_eq, list_eq, if◌then◌else◌, trim_space,
}
use tswipoexp.Logs.Viewer.{joined}
use tswipoexp.Profiles.Config.{Config, register_proxy, proxy_mode, ssh_mode}
use tswipoexp.Status.{ProfileSummary}
use tswipoexp.App.{Command, renames, deletes}
use tswipoexp.Ui.States.{state_text}

-- `row` is the row of the list that is selected.
pub record Manager : Type 0 where
  pub names : List Bytes
  pub selected : Bytes
  pub row : Option ℕ
  pub title : Bytes
  pub details : Bytes
  pub can_rename : Bool
  pub can_delete : Bool

-- What the window reads of the App: the profile that runs, and of each profile its directory, summary and
-- configuration, if that can be loaded.
pub record Facts : Type 0 where
  pub current : Bytes
  pub dir_of : Bytes → Bytes
  pub summary_of : Bytes → ProfileSummary
  pub config_of : Bytes → Option Config
  pub time_text : ℕ → Bytes
  pub calls_back : Option ℕ → ℕ → Bool

abbrev bool_text : Bool → Bytes
bool_text true = codes "true"
bool_text false = codes "false"

abbrev line : Bytes → Bytes → Bytes
line name value = name ++ value ++ codes "\n"

abbrev settings_text : Option Config → Bytes
settings_text none = []
settings_text (some cfg) =
    codes "\nSettings:\n"
    ++ line (codes "  Outbound access: ")
        (bool_text (register_proxy cfg) ++ codes " (" ++ proxy_mode cfg ++ codes ")")
    ++ line (codes "  SSH: ") (ssh_mode cfg)
    ++ (if cfg.sync_hostname then codes "  Hostname follows this computer's name\n" else [])

abbrev seen_text : Bool → (ℕ → Bytes) → ProfileSummary → Bytes
seen_text running time_text s =
    if nat_eqb s.updated_at 0
    then codes "No details yet: this profile hasn't run.\n"
    else (if running
        then codes "Currently running.\n\n"
        else codes "Last seen " ++ time_text s.updated_at ++ codes "\n\n")
      ++ line (codes "State: ") (state_text s.state)
      ++ line (codes "Tailnet: ") s.tailnet
      ++ line (codes "Account: ") s.account
      ++ line (codes "Hostname: ") s.hostname
      ++ line (codes "DNS name: ") s.dns_name
      ++ line (codes "Tailscale IPs: ") (joined (codes ", ") s.ips)

abbrev details_text : Facts → Bytes → Bytes
details_text facts name =
    codes "Directory: "
    ++ facts.dir_of name
    ++ codes "\n\n"
    ++ seen_text (facts.current == name) facts.time_text (facts.summary_of name)
    ++ settings_text (facts.config_of name)

unfoldable pub show_details : Facts → Manager → Manager
show_details facts m =
    if m.selected == []
    then record m {
      title = [];
      details = codes "Select a profile.";
      can_rename = false;
      can_delete = false;
    }
    else record m {
      title = m.selected;
      details = details_text facts m.selected;
      can_rename = true;
      can_delete = not (facts.current == m.selected);
    }

unfoldable pub name_at : List Bytes → ℕ → Bytes
name_at [] i = []
name_at (n ∷ names) zero = n
name_at (n ∷ names) (suc i) = name_at names i

-- `list.OnSelected`
unfoldable pub on_selected : Facts → ℕ → Manager → Manager
unfolding show_details name_at
on_selected facts i m = show_details facts (record m { selected = name_at m.names i })

-- `m.list.Select(i)`
unfoldable pub select_row : Facts → ℕ → Manager → Manager
unfolding on_selected
select_row facts i m =
    if facts.calls_back m.row i
    then on_selected facts i (record m { row = some i })
    else record m { row = some i }

-- The row of the first of the names that is this one
unfoldable pub row_of : Bytes → List Bytes → Option ℕ
row_of name [] = none
row_of name (n ∷ names) =
    if n == name then some 0 else elim (row_of name names) [ none ↦ none | some i ↦ some (suc i) ]

-- The end of `reload`: the selection is found in the list, or cleared.
abbrev pub reselect : Facts → Option ℕ → Manager → Manager
reselect facts (some i) m = select_row facts i m
reselect facts none m = show_details facts (record m { selected = []; row = none })

unfoldable pub reload : Facts → List Bytes → Manager → Manager
unfolding select_row row_of show_details
reload facts names m =
    let selected = if m.selected == [] then facts.current else m.selected in
    reselect facts (row_of selected names) (record m { names = names; selected = selected })

-- The end of the dialog for a new name, by whether it is confirmed
unfoldable pub ask_rename : Bytes → Bool → Bytes → Option Command
ask_rename from confirmed text =
    let to = trim_space text in
    if not confirmed || to == [] || to == from then none else some (renames from to)

-- What is done when the renaming has ended, by whether it failed
unfoldable pub renamed : Facts → List Bytes → Bool → Bytes → Manager → Manager
unfolding reload
renamed facts names failed to m =
    reload facts names (if failed then m else record m { selected = to })

-- The end of the dialog that asks whether to delete, and what is done when that has ended
unfoldable pub ask_delete : Bytes → Bool → Option Command
ask_delete name confirmed = if confirmed then some (deletes name) else none

unfoldable pub deleted : Facts → List Bytes → Bool → Manager → Manager
unfolding reload
deleted facts names failed m = reload facts names (if failed then m else record m { selected = [] })
