-- ===== src/Ui/States.antt =====
-- The states of the node by the names that ipn gives them, and stateText of ui.go.
use tswipoexp.Prelude.{Bytes, codes, ◌==◌, nat_eq, list_eq, if◌then◌else◌}

abbrev pub needs_login : Bytes
needs_login = codes "NeedsLogin"

abbrev pub needs_machine_auth : Bytes
needs_machine_auth = codes "NeedsMachineAuth"

abbrev pub stopped : Bytes
stopped = codes "Stopped"

abbrev pub starting : Bytes
starting = codes "Starting"

abbrev pub no_state : Bytes
no_state = codes "NoState"

unfoldable pub state_text : Bytes → Bytes
state_text state =
    if state == needs_login
    then codes "Needs login"
    else if state == needs_machine_auth
    then codes "Needs approval in the admin console"
    else if state == stopped
    then codes "Disconnected"
    else if state == starting
    then codes "Starting"
    else if state == no_state
    then codes "Starting"
    else state
