-- ===== src/Status.antt =====
-- What backend.go, pac.go and ui.go read of a status snapshot of the node, ipnstate.Status, and the profile
-- summary made of it (summarize and key of backend.go, ProfileSummary of profiles.go). An IP address
-- of the node stands as its text. The peers, a Go map, are a list in the order in which one loop
-- ranges over them.
pub mod Key
use tswipoexp.Prelude.{ℕ, Bool, Option, none, some, List, [], ◌∷◌, ◌++◌, Bytes, codes, trim_dot}

-- `netip.Addr`: an IPv4 address as its number, or an IPv6 address.
pub data Addr : Type 0 where
  v4 : ℕ → Addr
  v6 : Bytes → Addr

pub record Prefix : Type 0 where
  pub addr : Addr
  pub bits : ℕ

-- `ipnstate.PeerStatus`; `PrimaryRoutes` may be nil.
pub record Peer : Type 0 where
  pub primary_routes : Option (List Prefix)
  pub id : Bytes
  pub dns_name : Bytes
  pub host_name : Bytes
  pub os : Bytes
  pub ips : List Bytes
  pub cur_addr : Bytes
  pub relay : Bytes
  pub online : Bool
  pub active : Bool
  pub is_exit_node : Bool
  pub exit_node_option : Bool

pub record Self : Type 0 where
  pub user_id : ℕ
  pub host_name : Bytes
  pub dns_name : Bytes

-- `exit_node` is whether ExitNodeStatus is there, `current_tailnet` the tailnet's name, `login_name` the
-- name of each user known.
pub record Status : Type 0 where
  pub backend_state : Bytes
  pub magic_dns_suffix : Bytes
  pub exit_node : Bool
  pub current_tailnet : Option Bytes
  pub self : Option Self
  pub login_name : ℕ → Option Bytes
  pub tailscale_ips : List Bytes
  pub peers : List Peer

-- `ipn.Running.String()`
abbrev pub running_state : Bytes
running_state = codes "Running"

-- A time of 0 is the zero time.
pub record ProfileSummary : Type 0 where
  pub state : Bytes
  pub tailnet : Bytes
  pub account : Bytes
  pub hostname : Bytes
  pub dns_name : Bytes
  pub ips : List Bytes
  pub updated_at : ℕ

abbrev or_empty : Option Bytes → Bytes
or_empty none = []
or_empty (some b) = b

abbrev with_self : Option Self → (ℕ → Option Bytes) → ProfileSummary → ProfileSummary
with_self none login_name s = s
with_self (some self) login_name s = record s {
  account = or_empty (login_name self.user_id);
  hostname = self.host_name;
  dns_name = trim_dot self.dns_name;
}

unfoldable pub summarize : Status → ProfileSummary
summarize st = with_self st.self st.login_name (record {
  state = st.backend_state;
  tailnet = or_empty st.current_tailnet;
  account = [];
  hostname = [];
  dns_name = [];
  ips = st.tailscale_ips;
  updated_at = 0;
})

-- A slice of strings as `%v` prints it.
abbrev pub spaced : List Bytes → Bytes
spaced [] = []
spaced (s ∷ []) = s
spaced (s ∷ t ∷ rest) = s ++ codes " " ++ spaced (t ∷ rest)

unfoldable pub print_list : List Bytes → Bytes
print_list ss = codes "[" ++ spaced ss ++ codes "]"

unfoldable pub key : ProfileSummary → Bytes
unfolding print_list
key s =
    s.state
    ++ codes "|"
    ++ s.tailnet
    ++ codes "|"
    ++ s.account
    ++ codes "|"
    ++ s.hostname
    ++ codes "|"
    ++ s.dns_name
    ++ codes "|"
    ++ print_list s.ips
