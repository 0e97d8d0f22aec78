-- ===== src/Http/Tests.antt =====
-- A browser that fetches the script.
use tswipoexp.Prelude.{◌≡◌, refl, false, some, [], codes, contains_byte}
use tswipoexp.Program.{ok}
use tswipoexp.Profiles.Config.{zero_config, outbound_options}
use tswipoexp.Pac.{pac_inputs_from, pac_script}
use tswipoexp.Backend.{Backend, new_backend, proxy_address}
use tswipoexp.Backend.Events.{pac}
use tswipoexp.Http.{script, http_proxy_handler}
use tswipoexp.Http.PacUrl.{browser_request, http_proxy_handler-pac_url}

abbrev running : Backend
running = record (new_backend (codes "Work") (codes "Work") zero_config) {
  proxy_ln = some (codes "127.0.0.1:1055");
}

no_slash : contains_byte (proxy_address running) b'/' ≡ false
unfolding contains_byte
no_slash = refl

http_proxy_handler-pac_url_example :
    http_proxy_handler
      (λ dst. ok tt)
      (ok tt)
      (some (pac (λ a. false) running))
      (browser_request (outbound_options running.cfg (proxy_address running)).pac_url)
    ≡ (
      script (
          pac_script
            (pac_inputs_from (λ a. false) running.status running.cfg (proxy_address running))),
      [],
    )
http_proxy_handler-pac_url_example =
    http_proxy_handler-pac_url (λ a. false) (λ dst. ok tt) (ok tt) running no_slash
