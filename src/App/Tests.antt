-- ===== src/App/Tests.antt =====
-- Runs of the App, with encodings in place of JSON.
use tswipoexp.Prelude.{
  ◌≡◌, refl, inl, false, none, List, [], ◌∷◌, codes, contains_byte, list_eqb, All,
}
use tswipoexp.Codec.Saved.{marshal, unmarshal, unmarshal-marshal, laptop}
use tswipoexp.Codec.Framed.{framed}
use tswipoexp.Program.{works, fails, Machine}
use tswipoexp.Disk.{Disk}
use tswipoexp.Logs.Sink.{new_log_sink}
use tswipoexp.Proxy.Session.{app_base}
use tswipoexp.Proxy.Undo.Always.{SameSettings}
use tswipoexp.Profiles.Config.{ssh_same_user}
use tswipoexp.Backend.{Platform}
use tswipoexp.App.{
  World, Command, switches, renames, deletes, enables_outbound, chooses_ssh_mode, sets_hostname,
  run_app,
}
use tswipoexp.App.Pointing.{Points}
use tswipoexp.App.Pointing.Always.{run_app-Points}
use tswipoexp.App.Quitting.{beginning, run_app-releases}

abbrev windows : Platform
windows = record {
  marshal = marshal;
  unmarshal = unmarshal;
  error_text = λ e. codes "error";
  os_hostname = none;
  listener_addr = λ a. a;
}

-- A disk on which some calls fail
abbrev stick : Disk
stick = record {
  state = record { dirs = codes "Work" ∷ codes "Home" ∷ []; files = λ p. none };
  fates = works ∷ works ∷ fails (codes "x") ∷ works ∷ works ∷ fails [] ∷ [];
  past = [];
}

abbrev commands : List Command
commands =
    chooses_ssh_mode ssh_same_user
    ∷ enables_outbound false
    ∷ renames (codes "Work") (codes "Office")
    ∷ switches (codes "Home")
    ∷ sets_hostname (codes "stick") false
    ∷ deletes (codes "Home")
    ∷ []

run_app-releases_example :
    let w =
      (run_app windows framed
        (λ d. none)
        (codes "Work")
        commands
        (record { state = beginning stick laptop new_log_sink; fates = []; past = [] })).1.state in
    SameSettings laptop w.place.session
    × (w.running ≡ false)
    × ((w.place.backend.ssh_srv ≡ false)
        × (w.place.ssh_port ≡ false)
        × (w.place.proxy_port ≡ false))
    × (w.place.node ≡ none)
unfolding app_base list_eqb contains_byte
run_app-releases_example =
    run_app-releases windows unmarshal-marshal laptop laptop (codes "C:\\L") framed (λ d. none)
      stick new_log_sink (codes "Work") commands (inl (refl, refl, refl, refl, refl)) refl refl

-- Some calls fail, to the disk and to the node.
abbrev beset : Machine World
beset = record {
  state = beginning stick laptop new_log_sink;
  fates = works ∷ works ∷ works ∷ fails [] ∷ works ∷ fails [] ∷ [];
  past = [];
}

run_app-Points_example :
    ((run_app windows framed (λ d. none) (codes "Work") commands beset).1.state.target ≡ none)
    × All Points (run_app windows framed (λ d. none) (codes "Work") commands beset).1.past
run_app-Points_example =
    run_app-Points windows framed (λ d. none) beset (codes "Work") commands refl refl
