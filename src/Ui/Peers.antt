-- ===== src/Ui/Peers.antt =====
-- The rows of the peer table and its filter: shortName, peerRows and applyPeerFilter of ui.go. Two rows
-- that sort.Slice finds equal may come in any order; the insertion here keeps one of these orders.
pub mod Sorting
use tswipoexp.Prelude.{
  ℕ, Bool, true, false, not, ◌&&◌, ◌||◌, Option, none, some, List, [], ◌∷◌, ◌++◌, map, Bytes, codes,
  length, nat_eqb, ◌==◌, nat_eq, list_eq, if◌then◌else◌, cut, contains_sub, to_lower, trim_dot,
  trim_space,
}
use tswipoexp.Logs.Viewer.{joined}
use tswipoexp.Profiles.Store.{bytes_le}
use tswipoexp.Status.{Status, Peer}

pub record PeerRow : Type 0 where
  pub name : Bytes
  pub ip : Bytes
  pub os : Bytes
  pub online : Bytes
  pub path : Bytes
  pub copy_name : Bytes
  pub active : Bool
  pub search : Bytes

abbrev first_label : Option (Bytes × Bytes) → Bytes → Bytes
first_label none name = name
first_label (some ([], rest)) name = name
first_label (some (c ∷ label, rest)) name = c ∷ label

abbrev named_or : Bytes → Bytes → Bytes
named_or [] host = host
named_or (c ∷ name) host = c ∷ name

unfoldable pub short_name : Peer → Bytes
short_name p =
    let name = trim_dot p.dns_name in named_or (first_label (cut b'.' name) name) p.host_name

unfoldable pub path_of : Peer → Bytes
path_of p =
    if not p.online
    then codes "-"
    else if not (p.cur_addr == [])
    then codes "direct " ++ p.cur_addr
    else if not (p.relay == [])
    then codes "relay " ++ p.relay
    else if p.active
    then codes "active"
    else codes "idle"

abbrev pub yes_no : Bool → Bytes
yes_no true = codes "yes"
yes_no false = codes "no"

unfoldable pub annotated : Peer → Bytes
unfolding short_name
annotated p =
    if p.is_exit_node
    then short_name p ++ codes " (exit node)"
    else if p.exit_node_option
    then short_name p ++ codes " (exit node option)"
    else short_name p

abbrev first_ip : List Bytes → Bytes
first_ip [] = []
first_ip (ip ∷ ips) = ip

-- The text that the filter matches
unfoldable pub search_text : Peer → Bytes
unfolding annotated path_of
search_text p = to_lower (
    joined (codes " ")
      (p.ips ++ (annotated p ∷ trim_dot p.dns_name ∷ p.host_name ∷ p.os ∷ path_of p ∷ [])))

-- The row that the loop of `peerRows` appends
unfoldable pub peer_row : Peer → PeerRow
unfolding search_text
peer_row p = record {
  name = annotated p;
  ip = first_ip p.ips;
  os = p.os;
  online = yes_no p.online;
  path = path_of p;
  copy_name = short_name p;
  active = p.active;
  search = search_text p;
}

-- Whether the second row need not stand before the first one: not `less` of the two
unfoldable pub row_le : PeerRow → PeerRow → Bool
row_le r s = if r.online == s.online then bytes_le r.name s.name else r.online == codes "yes"

unfoldable pub insert_row : PeerRow → List PeerRow → List PeerRow
insert_row r [] = r ∷ []
insert_row r (s ∷ rows) = if row_le r s then r ∷ s ∷ rows else s ∷ insert_row r rows

unfoldable pub sort_rows : List PeerRow → List PeerRow
unfolding insert_row
sort_rows [] = []
sort_rows (r ∷ rows) = insert_row r (sort_rows rows)

unfoldable pub peer_rows : Status → List PeerRow
unfolding sort_rows
peer_rows st = sort_rows (map peer_row st.peers)

-- The tests of the loop of `applyPeerFilter`, on the trimmed lower-case text
abbrev pub passes : Bytes → Bool → PeerRow → Bool
passes q active_only r = (not active_only || r.active) && (q == [] || contains_sub r.search q)

unfoldable pub filter_rows : Bytes → Bool → List PeerRow → List PeerRow
filter_rows q active_only [] = []
filter_rows q active_only (r ∷ rows) =
    let rest = filter_rows q active_only rows in if passes q active_only r then r ∷ rest else rest

-- The label beside the filter: `%d peers`, or `%d of %d peers`
pub data Count : Type 0 where
  all_peers : ℕ → Count
  some_peers : ℕ → ℕ → Count

unfoldable pub count_shown : List PeerRow → List PeerRow → Count
count_shown shown all =
    if nat_eqb (length shown) (length all)
    then all_peers (length all)
    else some_peers (length shown) (length all)

-- The peers window's part of the UI
pub record PeerTable : Type 0 where
  pub peers_all : List PeerRow
  pub peers_search : Bytes
  pub peers_active : Bool
  pub peers : List PeerRow
  pub peers_shown : Count

unfoldable pub apply_peer_filter : PeerTable → PeerTable
unfolding filter_rows count_shown
apply_peer_filter t =
    let rows = filter_rows (to_lower (trim_space t.peers_search)) t.peers_active t.peers_all in
    record t { peers = rows; peers_shown = count_shown rows t.peers_all }
