-- ===== src/Ui/Settings/Reopening.antt =====
-- What the outbound dialog of ui_outbound.go shows when it opens again.
use tswipoexp.Prelude.{
  ◌≡◌, ◌≢◌, refl, sym, ap, ◌∙◌, inl, inr, Bool, true, false, Bool-cases, [], ◌∷◌, ◌++◌, Bytes,
  codes, ◌==◌, nat_eq, list_eq, list_eqb, eq_iff, eq_refl, if◌then◌else◌, trim_space, arith,
}
use tswipoexp.Proxy.Settings.{pac_path, proxy_mode_static, proxy_mode_pac}
use tswipoexp.Profiles.Config.{
  Config, proxy_mode, proxy_addr, default_proxy_addr, set_env_vars, watchdog, run_once_restore,
  outbound_options,
}
use tswipoexp.App.{changes_outbound}
use tswipoexp.Ui.Settings.{
  OutboundForm, show_outbound_settings, new_addr, edit_outbound, save_outbound_settings, asks,
}

abbrev stored : Bytes → Bytes
stored a = if a == default_proxy_addr then [] else a

abbrev or_default : Bytes → Bytes
or_default a = if a == [] then default_proxy_addr else a

or_default-ne-nil : (a : Bytes) → or_default a ≢ []
unfolding list_eqb
or_default-ne-nil [] e = absurd (ground (arith, e))
or_default-ne-nil (x ∷ xs) e = absurd (ground (arith, e))

or_default_self : (a : Bytes) → a ≢ [] → or_default a ≡ a
unfolding list_eqb
or_default_self [] h = absurd (h refl)
or_default_self (x ∷ xs) h = refl

or_default-stored : (a : Bytes) → a ≢ [] → or_default (stored a) ≡ a
unfolding list_eqb
or_default-stored a h = elim (Bool-cases (a == default_proxy_addr)) [
  | inl e ↦ rw e (sym ((eq_iff a default_proxy_addr).0 e))
  | inr e ↦ rw e (or_default_self a h)
]

-- What the dialog shows for an address that was typed without spaces around it.
abbrev pub shown_addr : Bytes → Bytes
shown_addr [] = codes "127.0.0.1:1055"
shown_addr (c ∷ cs) = c ∷ cs

or_default-shown : (a : Bytes) → or_default a ≡ shown_addr a
unfolding list_eqb
or_default-shown [] = refl
or_default-shown (c ∷ cs) = refl

new_addr-shown : (f : OutboundForm) → new_addr f ≡ shown_addr (trim_space f.addr)
unfolding new_addr
new_addr-shown f = or_default-shown (trim_space f.addr)

new_addr-ne-nil : (f : OutboundForm) → new_addr f ≢ []
unfolding new_addr
new_addr-ne-nil f = or_default-ne-nil (trim_space f.addr)

edit_outbound-addr : (f : OutboundForm) (c : Config) → proxy_addr (edit_outbound f c) ≡ new_addr f
unfolding edit_outbound proxy_addr
edit_outbound-addr f c = or_default-stored (new_addr f) (new_addr-ne-nil f)

mode_back :
    (b : Bool)
    → ((if (if b then proxy_mode_static else proxy_mode_pac) == proxy_mode_static
          then proxy_mode_static
          else proxy_mode_pac)
        == proxy_mode_static)
      ≡ b
unfolding list_eqb
mode_back true = refl
mode_back false = refl

-- Reopened on a configuration that a saved dialog has edited, the dialog shows what was saved, with the
-- address trimmed and the default one in place of an empty one; the settings that it does not show are
-- as they were.
pub show_outbound_settings-edit_outbound :
    (f : OutboundForm) (c : Config)
    → (show_outbound_settings (edit_outbound f c)
        ≡ record f { addr = shown_addr (trim_space f.addr) })
      × ((edit_outbound f c).hostname ≡ c.hostname)
      × ((edit_outbound f c).sync_hostname ≡ c.sync_hostname)
      × ((edit_outbound f c).register_proxy ≡ c.register_proxy)
      × ((edit_outbound f c).ssh_mode ≡ c.ssh_mode)
      × ((edit_outbound f c).ssh ≡ c.ssh)
unfolding show_outbound_settings edit_outbound proxy_mode set_env_vars watchdog run_once_restore
show_outbound_settings-edit_outbound f c = (
  λ i. record {
    static = mode_back f.static i;
    all_traffic = f.all_traffic;
    env_vars = f.env_vars;
    watchdog = f.watchdog;
    run_once = f.run_once;
    addr = (edit_outbound-addr f c ∙ new_addr-shown f) i;
  },
  refl,
  refl,
  refl,
  refl,
  refl,
)

-- The address that the dialog shows has no space to trim.
show_outbound_settings-addr :
    (c : Config)
    → trim_space (proxy_addr c) ≡ proxy_addr c
    → new_addr (show_outbound_settings c) ≡ proxy_addr c
unfolding new_addr show_outbound_settings proxy_addr
show_outbound_settings-addr c h =
    ap or_default h ∙ or_default_self (proxy_addr c) (or_default-ne-nil c.proxy_addr)

abbrev mode_of : Bool → Bytes
mode_of b = if b then proxy_mode_static else proxy_mode_pac

mode_kept :
    (b : Bool) → mode_of (mode_of (mode_of b == proxy_mode_static) == proxy_mode_static) ≡ mode_of b
unfolding list_eqb
mode_kept true = refl
mode_kept false = refl

options_kept :
    (c : Config) (addr : Bytes)
    → outbound_options (edit_outbound (show_outbound_settings c) c) addr ≡ outbound_options c addr
unfolding show_outbound_settings edit_outbound outbound_options proxy_mode set_env_vars watchdog
    run_once_restore
options_kept c addr i = record {
  addr = addr;
  mode = mode_kept (c.proxy_mode == proxy_mode_static) i;
  pac_url = codes "http://" ++ (addr ++ pac_path);
  env_vars = set_env_vars c;
  watchdog = watchdog c;
  run_once = run_once_restore c;
}

-- If the address has no space at its ends and can be split, then saving the dialog as it opened asks for
-- no restart, and for a change that keeps the proxy's address and registers it with the same options.
pub save_outbound_settings-untouched :
    (splits : Bytes → Bool) (c : Config)
    → trim_space (proxy_addr c) ≡ proxy_addr c
    → splits (proxy_addr c) ≡ true
    → (save_outbound_settings splits true (show_outbound_settings c) c
        ≡ asks (changes_outbound (edit_outbound (show_outbound_settings c)) false))
      × (proxy_addr (edit_outbound (show_outbound_settings c) c) ≡ proxy_addr c)
      × ((addr : Bytes)
          → outbound_options (edit_outbound (show_outbound_settings c) c) addr
            ≡ outbound_options c addr)
unfolding save_outbound_settings
save_outbound_settings-untouched splits c trimmed h =
    let same = show_outbound_settings-addr c trimmed in
    (
      rw (same, h, eq_refl (proxy_addr c)) refl,
      edit_outbound-addr (show_outbound_settings c) c ∙ same,
      options_kept c,
    )
