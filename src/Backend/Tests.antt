-- ===== src/Backend/Tests.antt =====
-- Runs of a backend, with an encoding in place of JSON.
use tswipoexp.Prelude.{
  ℕ, All, ◌≢◌, map, arith, eq_iff, ◌≡◌, refl, true, false, none, some, List, [], ◌∷◌, Bytes, codes,
  contains_byte, list_eqb, nat_eq, list_eq,
}
use tswipoexp.Codec.Saved.{marshal, unmarshal, unmarshal-marshal, laptop}
use tswipoexp.Program.{Machine, works, fails}
use tswipoexp.Proxy.Session.{app_base}
use tswipoexp.Proxy.Undo.Always.{SameSettings}
use tswipoexp.Profiles.Config.{Config, zero_config, ssh_all_users}
use tswipoexp.Status.{Status, running_state, summarize, key, print_list}
use tswipoexp.Status.Key.{IsPlain}
use tswipoexp.Backend.{Platform, Place, new_backend, close}
use tswipoexp.Backend.Owning.{Op, applies, sets_mode, edits, live}
use tswipoexp.Backend.Closing.{begun, live-closes}
use tswipoexp.Backend.Again.{close-close}
use tswipoexp.Backend.Events.{
  Event, fetches, advances, browses, Watch, happen, happen_all, refresh_locked, refresh_unlocked,
  advance, take_status, keep_summary, keep_pac, pac_changed,
}
use tswipoexp.Backend.Events.Summaries.{Delivers, happen_all-Delivers}

abbrev windows : Platform
windows = record {
  marshal = marshal;
  unmarshal = unmarshal;
  error_text = λ e. codes "error";
  os_hostname = some (codes "PC");
  listener_addr = λ a. a;
}

abbrev no_pac : Config → Config
no_pac c = record c { proxy_mode = codes "static" }

abbrev some_ops : List Op
some_ops = edits no_pac ∷ applies ∷ sets_mode ssh_all_users ∷ []

live-closes_example :
    let start_state = begun laptop (new_backend (codes "work") (codes "work") zero_config) in
    let p =
      (live windows
        (codes "key")
        some_ops
        (record { state = start_state; fates = []; past = [] })).1.state in
    SameSettings laptop p.session
    × ((p.backend.ssh_srv ≡ false) × ((p.ssh_port ≡ false) × (p.proxy_port ≡ false)))
    × (p.node ≡ none)
unfolding app_base list_eqb contains_byte
live-closes_example =
    live-closes windows unmarshal-marshal laptop (codes "C:\\L") (codes "work") (codes "work")
      zero_config (codes "key") some_ops refl refl refl

abbrev stuck : Machine Place
stuck = record {
  state = record (begun laptop (new_backend (codes "work") (codes "work") zero_config)) {
    backend = record (new_backend (codes "work") (codes "work") zero_config) {
      server = true;
      ssh_srv = true;
      proxy_ln = some (codes "127.0.0.1:1055");
    };
  };
  fates = works ∷ fails [] ∷ fails [] ∷ works ∷ fails [] ∷ works ∷ fails [] ∷ [];
  past = [];
}

close-close_example : close windows (close windows stuck).1 ≡ close windows stuck
close-close_example = close-close windows stuck

abbrev status_of : Bytes → Status
status_of state = record {
  backend_state = state;
  magic_dns_suffix = codes "example.ts.net";
  exit_node = false;
  current_tailnet = none;
  self = none;
  login_name = λ n. none;
  tailscale_ips = codes "100.64.0.7" ∷ [];
  peers = [];
}

without : (c : ℕ) (s : Bytes) → contains_byte s c ≡ false → All (λ x. x ≢ c) s
unfolding contains_byte
without c [] h = tt
without c (x ∷ xs) h = (λ e. ground (arith, h, (eq_iff x c).1 e), without c xs (ground (arith, h)))

both :
    (c d : ℕ) (s : Bytes) → All (λ x. x ≢ c) s → All (λ x. x ≢ d) s → All (λ x. (x ≢ c) × (x ≢ d)) s
both c d [] h k = tt
both c d (x ∷ xs) (h, hs) (k, ks) = ((h, k), both c d xs hs ks)

ip-without :
    (contains_byte (codes "100.64.0.7") b' ' ≡ false)
    × (contains_byte (codes "100.64.0.7") b']' ≡ false)
unfolding contains_byte
ip-without = (refl, refl)

plain : (state : Bytes) → contains_byte state b'|' ≡ false → IsPlain (summarize (status_of state))
unfolding summarize
plain state h = record {
  state = without b'|' state h;
  tailnet = tt;
  account = tt;
  hostname = tt;
  dns_name = tt;
  ips = (
    (
      λ e. absurd (ground (arith, e)),
      both b' ' b']' (codes "100.64.0.7") (without b' ' _ ip-without.0)
          (without b']' _ ip-without.1),
    ),
    tt,
  );
}

states-without :
    (contains_byte (codes "NeedsLogin") b'|' ≡ false) × (contains_byte running_state b'|' ≡ false)
unfolding contains_byte
states-without = (refl, refl)

abbrev some_events : List Event
some_events =
    fetches (some (status_of (codes "NeedsLogin")))
    ∷ browses (codes "https://login")
    ∷ fetches none
    ∷ fetches (some (status_of running_state))
    ∷ advances 0 4
    ∷ advances 1 5
    ∷ []

abbrev new_watch : Watch
new_watch = record {
  place = begun laptop (new_backend (codes "work") (codes "work") zero_config);
  in_flight = [];
}

happen_all-Delivers_example : Delivers (happen_all (λ a. false) some_events new_watch)
unfolding new_backend
happen_all-Delivers_example =
    happen_all-Delivers (λ a. false) some_events new_watch
      (
        plain (codes "NeedsLogin") states-without.0,
        (tt, (tt, (plain running_state states-without.1, (tt, (tt, tt))))),
      )
      refl

-- The call with the older status hands its summary over last.
older_last :
    map (λ s. s.state) (happen_all (λ a. false) some_events new_watch).place.saved
    ≡ codes "NeedsLogin" ∷ running_state ∷ []
unfolding new_backend happen_all happen refresh_locked refresh_unlocked advance take_status
    keep_summary keep_pac pac_changed summarize key print_list list_eqb
older_last = refl
