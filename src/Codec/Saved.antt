-- ===== src/Codec/Saved.antt =====
-- An encoding of the saved proxy settings for the runs in the test modules, and a session to run in.
use tswipoexp.Prelude.{
  ◌≡◌, refl, ℕ, zero, suc, Option, none, some, [], ◌∷◌, Bytes, codes, length, if◌then◌else◌, ◌==◌,
  nat_eq, list_eq,
}
use tswipoexp.Codec.{put, get, get-put}
use tswipoexp.Proxy.Session.{SavedProxySettings, Session, Env, no_watchdog}

unfoldable pub put_env : Env → Bytes
put_env [] = []
put_env ((k, v) ∷ rest) = put k (put v (put_env rest))

unfoldable pub get_env : ℕ → Bytes → Env
get_env zero xs = []
get_env (suc n) xs = ((get xs).0, (get (get xs).1).0) ∷ get_env n (get (get xs).1).1

get_env-put_env : (e : Env) → get_env (length e) (put_env e) ≡ e
unfolding get_env put_env
get_env-put_env [] = refl
get_env-put_env ((k, v) ∷ rest) =
    rw (get-put k (put v (put_env rest)), get-put v (put_env rest), get_env-put_env rest) refl

unfoldable pub marshal : SavedProxySettings → Bytes
marshal s =
    s.proxy_flags
    ∷ length s.env
    ∷ put s.machine (
        put s.user
          (put s.proxy_server (put s.proxy_override (put s.auto_config_url (put_env s.env)))))

unfoldable pub unmarshal : Bytes → Option SavedProxySettings
unmarshal (flags ∷ n ∷ b0) =
    let b1 = (get b0).1 in
    let b2 = (get b1).1 in
    let b3 = (get b2).1 in
    let b4 = (get b3).1 in
    some (record {
      machine = (get b0).0;
      user = (get b1).0;
      proxy_flags = flags;
      proxy_server = (get b2).0;
      proxy_override = (get b3).0;
      auto_config_url = (get b4).0;
      env = get_env n (get b4).1;
    })
unmarshal (flags ∷ []) = none
unmarshal [] = none

pub unmarshal-marshal : (s : SavedProxySettings) → unmarshal (marshal s) ≡ some s
unfolding unmarshal marshal
unmarshal-marshal s = simp (get-put, get_env-put_env)

abbrev pub laptop : Session
laptop = record {
  machine = codes "m";
  user = codes "u";
  local_app_data = codes "C:\\L";
  cache_dir = none;
  connection = record { flags = 3; server = codes "corp:80"; bypass = []; pac = [] };
  variables = λ n. if n == codes "NO_PROXY" then some (codes "corp") else none;
  run_once = none;
  restore_json = none;
  restore_reg = none;
  restore_cmd = none;
  blob = none;
  watchdog = no_watchdog;
}
