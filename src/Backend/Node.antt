-- ===== src/Backend/Node.antt =====
-- The LocalAPI calls of backend.go: the preferences of the node, and logging in and out. The service that
-- answers them is a parameter, LocalClient: what it does with its state when a call goes through.
use tswipoexp.Prelude.{Bool, true, false, [], Bytes}
use tswipoexp.Program.{ok, Program}
use tswipoexp.Program.Sealed.{◌>>=◌, ◌>>◌, syscall}

-- What the program reads and sets of `ipn.Prefs`.
pub record NodePrefs : Type 0 where
  pub want_running : Bool
  pub shields_up : Bool
  pub exit_node_id : Bytes
  pub hostname : Bytes

pub record MaskedPrefs : Type 0 where
  pub prefs : NodePrefs
  pub want_running_set : Bool
  pub shields_up_set : Bool
  pub exit_node_id_set : Bool
  pub hostname_set : Bool

pub record LocalClient (S : Type 0) : Type 0 where
  pub prefs : S → NodePrefs
  pub edit_prefs : MaskedPrefs → S → S
  pub start : Bytes → NodePrefs → S → S
  pub start_login_interactive : S → S
  pub logout : S → S

abbrev pub no_prefs : NodePrefs
no_prefs = record { want_running = false; shields_up = false; exit_node_id = []; hostname = [] }

-- `&ipn.MaskedPrefs{}`
abbrev pub no_edits : MaskedPrefs
no_edits = record {
  prefs = no_prefs;
  want_running_set = false;
  shields_up_set = false;
  exit_node_id_set = false;
  hostname_set = false;
}

module _ {S : Type 0} (lc : LocalClient S) where
  unfoldable pub get_prefs : Program S NodePrefs
  get_prefs = syscall (λ s. (ok (lc.prefs s), s))

  unfoldable pub edit_prefs : MaskedPrefs → Program S (Unit {0})
  edit_prefs m = syscall (λ s. (ok tt, lc.edit_prefs m s))

  unfoldable pub login_interactive : Program S (Unit {0})
  login_interactive = syscall (λ s. (ok tt, lc.start_login_interactive s))

  -- `LoginWithAuthKey`, with `b.cfg.hostname()`
  unfoldable pub login_with_auth_key : Bytes → Bytes → Program S (Unit {0})
  unfolding get_prefs login_interactive
  login_with_auth_key host auth_key = do
    prefs ← get_prefs
    syscall
        (λ s. (ok tt, lc.start auth_key (record prefs { want_running = true; hostname = host }) s))
    login_interactive

  unfoldable pub log_out : Program S (Unit {0})
  log_out = syscall (λ s. (ok tt, lc.logout s))

  unfoldable pub set_want_running : Bool → Program S (Unit {0})
  set_want_running want =
      edit_prefs (record no_edits {
        prefs = record no_prefs { want_running = want };
        want_running_set = true;
      })

  unfoldable pub set_shields_up : Bool → Program S (Unit {0})
  set_shields_up up =
      edit_prefs
        (record no_edits { prefs = record no_prefs { shields_up = up }; shields_up_set = true })

  unfoldable pub set_exit_node : Bytes → Program S (Unit {0})
  set_exit_node id =
      edit_prefs
        (record no_edits { prefs = record no_prefs { exit_node_id = id }; exit_node_id_set = true })
