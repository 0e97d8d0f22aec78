-- ===== src/Ui/ExitNodes.antt =====
-- The exit node dropdown of ui.go: refreshExitNodes, and the handler of the dropdown. A map of Go is a
-- list of pairs in front of which an assignment puts its pair.
pub mod Choosing
use tswipoexp.Prelude.{
  Bool, true, false, not, ◌&&◌, ◌||◌, Option, none, some, List, [], ◌∷◌, ◌++◌, Bytes, codes, ◌==◌,
  nat_eq, list_eq, if◌then◌else◌,
}
use tswipoexp.Profiles.Store.{sort_strings}
use tswipoexp.Status.{Peer}
use tswipoexp.Ui.Peers.{short_name}

-- What ui.go reads of the node's preferences, ipn.Prefs.
pub record Prefs : Type 0 where
  pub exit_node_id : Bytes
  pub shields_up : Bool

abbrev pub exit_node_none : Bytes
exit_node_none = codes "None"

-- The dropdown, with `exitNodeIDs`
pub record Dropdown : Type 0 where
  pub options : List Bytes
  pub selected : Bytes
  pub ids : List (Bytes × Bytes)

-- `u.exitNodeIDs[label]`, "" for a label that is not there
unfoldable pub id_of : Bytes → List (Bytes × Bytes) → Bytes
id_of label [] = []
id_of label ((l, id) ∷ ids) = if l == label then id else id_of label ids

unfoldable pub exit_label : Peer → Bytes
exit_label p = if p.online then short_name p else short_name p ++ codes " (offline)"

-- `prefs != nil && prefs.ExitNodeID == id`
abbrev pub is_current : Option Prefs → Bytes → Bool
is_current none id = false
is_current (some prefs) id = prefs.exit_node_id == id

abbrev pub offer : Option Prefs → Peer → Dropdown → Dropdown
offer prefs p d = record {
  options = d.options ++ (exit_label p ∷ []);
  selected = if is_current prefs p.id then exit_label p else d.selected;
  ids = (exit_label p, p.id) ∷ d.ids;
}

-- The loop over the peers
unfoldable pub offer_all : Option Prefs → List Peer → Dropdown → Dropdown
offer_all prefs [] d = d
offer_all prefs (p ∷ ps) d = offer_all prefs ps (if p.exit_node_option then offer prefs p d else d)

-- An exit node that is not among the peers is shown by its ID.
abbrev pub with_unseen : Option Prefs → Dropdown → Dropdown
with_unseen none d = d
with_unseen (some prefs) d =
    if d.selected == exit_node_none && not (prefs.exit_node_id == [])
    then record {
      options = d.options ++ (prefs.exit_node_id ∷ []);
      selected = prefs.exit_node_id;
      ids = (prefs.exit_node_id, prefs.exit_node_id) ∷ d.ids;
    }
    else d

abbrev pub none_chosen : Dropdown
none_chosen = record { options = []; selected = exit_node_none; ids = [] }

-- `sort.Strings(labels[1:])`
abbrev pub sorted_options : Dropdown → Dropdown
sorted_options d = record d { options = exit_node_none ∷ sort_strings d.options }

unfoldable pub refresh_exit_nodes : List Peer → Option Prefs → Dropdown
unfolding offer_all
refresh_exit_nodes ps prefs = with_unseen prefs (sorted_options (offer_all prefs ps none_chosen))

-- The handler of the dropdown while a backend runs, with the preferences that it reads: the exit node that
-- it asks the node for, if any.
unfoldable pub choose_exit_node : Option Prefs → Dropdown → Bytes → Option Bytes
unfolding id_of
choose_exit_node cur d label =
    if label == [] || is_current cur (id_of label d.ids) then none else some (id_of label d.ids)
