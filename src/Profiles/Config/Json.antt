-- ===== src/Profiles/Config/Json.antt =====
-- The fields of tswipoexp.json: the struct tags of Config, profiles.go, as encoding/json reads
-- them. An empty field is left out, and a pointer to `false` is not empty. A name is matched in
-- any case. The text around the fields is a parameter where it is needed.
pub mod RoundTrip
use tswipoexp.Prelude.{
  ◌≡◌, refl, sym, ap, list_eqb, Bool, true, false, Option, none, some, List, [], ◌∷◌, ◌++◌, Bytes,
  codes, if◌then◌else◌, ◌==◌, nat_eq, list_eq, to_lower, arith,
}
use tswipoexp.Profiles.Config.{Config, zero_config}

pub data Value : Type 0 where
  text : Bytes → Value
  bool : Bool → Value
  null : Value
  other : Value

abbrev pub Fields : Type 0
Fields = List (Bytes × Value)

pub data TextKey : Type 0 where
  host proxy_address mode_of_proxy mode_of_ssh : TextKey

pub data BoolKey : Type 0 where
  sync all_traffic ssh_on : BoolKey

-- The fields that are pointers.
pub data PointerKey : Type 0 where
  register env_vars dog run_once : PointerKey

pub data Key : Type 0 where
  text_key : TextKey → Key
  bool_key : BoolKey → Key
  pointer_key : PointerKey → Key

abbrev pub name_of : Key → Bytes
name_of (text_key host) = codes "Hostname"
name_of (text_key proxy_address) = codes "ProxyAddr"
name_of (text_key mode_of_proxy) = codes "ProxyMode"
name_of (text_key mode_of_ssh) = codes "SSHMode"
name_of (bool_key sync) = codes "SyncHostname"
name_of (bool_key all_traffic) = codes "PACAllTraffic"
name_of (bool_key ssh_on) = codes "SSH"
name_of (pointer_key register) = codes "RegisterProxy"
name_of (pointer_key env_vars) = codes "SetEnvVars"
name_of (pointer_key dog) = codes "Watchdog"
name_of (pointer_key run_once) = codes "RunOnceRestore"

abbrev pub get_text : TextKey → Config → Bytes
get_text host c = c.hostname
get_text proxy_address c = c.proxy_addr
get_text mode_of_proxy c = c.proxy_mode
get_text mode_of_ssh c = c.ssh_mode

abbrev pub set_text : TextKey → Bytes → Config → Config
set_text host v c = record c { hostname = v }
set_text proxy_address v c = record c { proxy_addr = v }
set_text mode_of_proxy v c = record c { proxy_mode = v }
set_text mode_of_ssh v c = record c { ssh_mode = v }

abbrev pub get_bool : BoolKey → Config → Bool
get_bool sync c = c.sync_hostname
get_bool all_traffic c = c.pac_all_traffic
get_bool ssh_on c = c.ssh

abbrev pub set_bool : BoolKey → Bool → Config → Config
set_bool sync v c = record c { sync_hostname = v }
set_bool all_traffic v c = record c { pac_all_traffic = v }
set_bool ssh_on v c = record c { ssh = v }

abbrev pub get_pointer : PointerKey → Config → Option Bool
get_pointer register c = c.register_proxy
get_pointer env_vars c = c.set_env_vars
get_pointer dog c = c.watchdog
get_pointer run_once c = c.run_once_restore

abbrev pub set_pointer : PointerKey → Option Bool → Config → Config
set_pointer register v c = record c { register_proxy = v }
set_pointer env_vars v c = record c { set_env_vars = v }
set_pointer dog v c = record c { watchdog = v }
set_pointer run_once v c = record c { run_once_restore = v }

abbrev omit_text : Bytes → Bytes → Fields
omit_text key [] = []
omit_text key (c ∷ cs) = (key, text (c ∷ cs)) ∷ []

abbrev omit_bool : Bytes → Bool → Fields
omit_bool key false = []
omit_bool key true = (key, bool true) ∷ []

abbrev omit_pointer : Bytes → Option Bool → Fields
omit_pointer key none = []
omit_pointer key (some b) = (key, bool b) ∷ []

-- A field as `omitempty` writes it.
pub field : Key → Config → Fields
field (text_key k) c = omit_text (name_of (text_key k)) (get_text k c)
field (bool_key k) c = omit_bool (name_of (bool_key k)) (get_bool k c)
field (pointer_key k) c = omit_pointer (name_of (pointer_key k)) (get_pointer k c)

-- In the order of the struct.
abbrev pub keys : List Key
keys =
    text_key host
    ∷ bool_key sync
    ∷ text_key proxy_address
    ∷ pointer_key register
    ∷ text_key mode_of_proxy
    ∷ bool_key all_traffic
    ∷ pointer_key env_vars
    ∷ pointer_key dog
    ∷ pointer_key run_once
    ∷ text_key mode_of_ssh
    ∷ bool_key ssh_on
    ∷ []

pub encode_keys : List Key → Config → Fields
unfolding field
encode_keys [] c = []
encode_keys (k ∷ ks) c = field k c ++ encode_keys ks c

-- `json.Marshal`
unfoldable pub encode : Config → Fields
unfolding encode_keys
encode = encode_keys keys

-- The field of the struct that a name in the file stands for.
pub find_key : List Key → Bytes → Option Key
find_key [] name = none
find_key (k ∷ ks) name = if to_lower (name_of k) == to_lower name then some k else find_key ks name

-- A value of the wrong type is an error; `null` clears a pointer and leaves other fields alone.
pub store : Key → Value → Config → Option Config
store (text_key k) (text v) c = some (set_text k v c)
store (text_key k) null c = some c
store (text_key k) _ c = none
store (bool_key k) (bool v) c = some (set_bool k v c)
store (bool_key k) null c = some c
store (bool_key k) _ c = none
store (pointer_key k) (bool v) c = some (set_pointer k (some v) c)
store (pointer_key k) null c = some (set_pointer k none c)
store (pointer_key k) _ c = none

abbrev store_found : Option Key → Value → Config → Option Config
store_found none v c = some c
store_found (some k) v c = store k v c

-- `json.Unmarshal` into a Config; `none` is an error.
pub decode : Fields → Config → Option Config
unfolding find_key store
decode [] c = some c
decode ((name, v) ∷ fs) c = elim (store_found (find_key keys name) v c) [
  | none ↦ none
  | some c' ↦ decode fs c'
]
