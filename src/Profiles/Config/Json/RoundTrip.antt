-- ===== src/Profiles/Config/Json/RoundTrip.antt =====
-- Settings written by SaveConfig and read by LoadConfig, profiles.go.
use tswipoexp.Prelude.{
  ◌≡◌, refl, sym, ap, ◌∙◌, list_eqb, Bool, true, false, Option, none, some, [], ◌∷◌, ◌++◌, Bytes,
  to_lower, arith,
}
use tswipoexp.Profiles.Config.{Config, zero_config}
use tswipoexp.Profiles.Config.Json.{
  Fields, Key, TextKey, BoolKey, PointerKey, host, proxy_address, mode_of_proxy, mode_of_ssh, sync,
  all_traffic, ssh_on, register, env_vars, dog, run_once, text_key, bool_key, pointer_key, name_of,
  get_text, set_text, get_bool, set_bool, get_pointer, set_pointer, omit_text, omit_bool,
  omit_pointer, field, keys, encode_keys, encode, find_key, decode,
}

copy : Key → Config → Config → Config
copy (text_key k) c acc = set_text k (get_text k c) acc
copy (bool_key k) c acc = set_bool k (get_bool k c) acc
copy (pointer_key k) c acc = set_pointer k (get_pointer k c) acc

abbrev IsUnset : Key → Config → Type 0
IsUnset (text_key k) acc = get_text k acc ≡ []
IsUnset (bool_key k) acc = get_bool k acc ≡ false
IsUnset (pointer_key k) acc = get_pointer k acc ≡ none

find-name_of : (k : Key) → find_key keys (name_of k) ≡ some k
unfolding find_key to_lower list_eqb
find-name_of (text_key host) = refl
find-name_of (text_key proxy_address) = refl
find-name_of (text_key mode_of_proxy) = refl
find-name_of (text_key mode_of_ssh) = refl
find-name_of (bool_key sync) = refl
find-name_of (bool_key all_traffic) = refl
find-name_of (bool_key ssh_on) = refl
find-name_of (pointer_key register) = refl
find-name_of (pointer_key env_vars) = refl
find-name_of (pointer_key dog) = refl
find-name_of (pointer_key run_once) = refl

copy_unset-text :
    (k : TextKey) (v : Bytes) (acc : Config) → get_text k acc ≡ v → set_text k v acc ≡ acc
copy_unset-text host v acc e = ground arith
copy_unset-text _ v acc e = ground arith

copy_unset-bool :
    (k : BoolKey) (v : Bool) (acc : Config) → get_bool k acc ≡ v → set_bool k v acc ≡ acc
copy_unset-bool sync v acc e = ground arith
copy_unset-bool _ v acc e = ground arith

copy_unset-pointer :
    (k : PointerKey) (v : Option Bool) (acc : Config)
    → get_pointer k acc ≡ v
    → set_pointer k v acc ≡ acc
copy_unset-pointer register v acc e = ground arith
copy_unset-pointer _ v acc e = ground arith

-- One field, written and read, is copied.
decode-field :
    (k : Key) (c acc : Config) (rest : Fields)
    → IsUnset k acc
    → decode (field k c ++ rest) acc ≡ decode rest (copy k c acc)
unfolding decode field copy
decode-field (text_key k) c acc rest u = go (get_text k c)
  where
    go :
        (v : Bytes)
        → decode (omit_text (name_of (text_key k)) v ++ rest) acc ≡ decode rest (set_text k v acc)
    go [] = ap (decode rest) (sym (copy_unset-text k [] acc u))
    go (b ∷ bs) = rw (find-name_of (text_key k), decode)
decode-field (bool_key k) c acc rest u = go (get_bool k c)
  where
    go :
        (v : Bool)
        → decode (omit_bool (name_of (bool_key k)) v ++ rest) acc ≡ decode rest (set_bool k v acc)
    go false = ap (decode rest) (sym (copy_unset-bool k false acc u))
    go true = rw (find-name_of (bool_key k), decode)
decode-field (pointer_key k) c acc rest u = go (get_pointer k c)
  where
    go :
        (v : Option Bool)
        → decode (omit_pointer (name_of (pointer_key k)) v ++ rest) acc
          ≡ decode rest (set_pointer k v acc)
    go none = ap (decode rest) (sym (copy_unset-pointer k none acc u))
    go (some b) = rw (find-name_of (pointer_key k), decode)

-- Settings come back as they were saved, with `false` told apart from unset.
pub decode-encode : (c : Config) → decode (encode c) zero_config ≡ some c
unfolding encode encode_keys copy decode
decode-encode c =
    decode-field (text_key host) c _ _ refl
    ∙ decode-field (bool_key sync) c _ _ refl
    ∙ decode-field (text_key proxy_address) c _ _ refl
    ∙ decode-field (pointer_key register) c _ _ refl
    ∙ decode-field (text_key mode_of_proxy) c _ _ refl
    ∙ decode-field (bool_key all_traffic) c _ _ refl
    ∙ decode-field (pointer_key env_vars) c _ _ refl
    ∙ decode-field (pointer_key dog) c _ _ refl
    ∙ decode-field (pointer_key run_once) c _ _ refl
    ∙ decode-field (text_key mode_of_ssh) c _ _ refl
    ∙ decode-field (bool_key ssh_on) c _ _ refl
