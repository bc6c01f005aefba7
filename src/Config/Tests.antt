-- ===== src/Config/Tests.antt =====
-- A configuration that is set, unset, loaded and printed, over a URL that is its own parts.
use pbox.Base.{
  ◌≡◌, ◌↔◌, refl, ◌⊎◌, Option, none, some, [], ◌∷◌, ◌++◌, Text, codes, text_eq, if◌then◌else◌, ok,
  err, show, leb, u64_max, ◌*◌, arith, trim, trim_start, trim_end, is_whitespace, parse_unsigned,
  parse_digits,
}
use pbox.Relay.Route.{UrlCrate}
use pbox.Config.{Config, pve_node, key_of, default_config}
use pbox.Config.Keys.{key_of_iff}
use pbox.Config.Durations.{parse_duration, parse_duration-show, too_large, hour}
use pbox.Config.Checks.{validate_non_empty, blank, parse_port}
use pbox.Config.Values.{validate, set, set_value, in_pve}
use pbox.Config.Changes.{set_value-validate, default-validate}
use pbox.Config.Layers.{
  ConfigOverrides, no_overrides, missing, load, load_file, apply_environment, apply_overrides,
  apply, read_variable, variable_of, with_variable,
}
use pbox.Config.Merging.{Layered, load_iff}
use pbox.Config.Redaction.{
  Setters, IsClearing, redact_url, without_username, without_password, without_query,
  without_fragment, redacted, get_redacted,
}
use pbox.Config.Secrets.{IsBare, with_secret, redact_url-IsBare, redacted_secret}

-- A user name, a password, a query, a fragment and the rest.
abbrev Parts : Type 0
Parts = Text × Option Text × Option Text × Option Text × Text

abbrev urls : UrlCrate
urls = record {
  Url = Parts;
  parse = λ t. some (codes "root", some (codes "pw"), some (codes "q"), none, t);
  scheme = λ p. codes "https";
  host_str = λ p. some (p.4);
  username = λ p. p.0;
  password = λ p. p.1;
  query = λ p. p.2;
  fragment = λ p. p.3;
  path = λ p. [];
  set_scheme = λ s p. some p;
  set_path = λ s p. p;
  to_string = λ p. p.4;
}

abbrev setters : Setters urls
setters = record {
  set_username = λ t p. some (t, p.1, p.2, p.3, p.4);
  set_password = λ t p. some (p.0, t, p.2, p.3, p.4);
  set_query = λ t p. (p.0, p.1, t, p.3, p.4);
  set_fragment = λ t p. (p.0, p.1, p.2, t, p.4);
}

setters-IsClearing : IsClearing urls setters
setters-IsClearing = record {
  cleared_username = λ p. refl;
  cleared_password = λ p. refl;
  cleared_query = λ p. refl;
  cleared_fragment = λ p. refl;
  username_password = λ p. refl;
  username_query = λ p. refl;
  username_fragment = λ p. refl;
  password_query = λ p. refl;
  password_fragment = λ p. refl;
  query_fragment = λ p. refl;
}

redact_run : redact_url urls setters (some (codes "pve")) ≡ some (codes "pve")
unfolding redact_url without_username without_password without_query without_fragment
redact_run = refl

redact_url-IsBare_example :
    (codes "pve" ≡ codes "<invalid>")
    ⊎ ((url : Parts) × (codes "pve" ≡ urls.to_string url) × IsBare urls setters url)
redact_url-IsBare_example =
    redact_url-IsBare urls setters (codes "pve") (codes "pve") setters-IsClearing redact_run

redacted_secret_example :
    (redacted urls setters (with_secret urls setters (codes "a") default_config)
      ≡ redacted urls setters (with_secret urls setters (codes "b") default_config))
    × (get_redacted urls setters
          (with_secret urls setters (codes "a") default_config)
          (codes "pve.node")
        ≡ get_redacted urls setters
            (with_secret urls setters (codes "b") default_config)
            (codes "pve.node"))
redacted_secret_example =
    redacted_secret urls setters default_config (codes "a") (codes "b") (codes "pve.node")

node_key : key_of (codes "pve.node") ≡ some pve_node
node_key = (key_of_iff (codes "pve.node") pve_node).1 refl

abbrev renamed : Config
renamed = in_pve (record default_config.pve { node = codes "pve1" }) default_config

renamed_run : set_value urls default_config (codes "pve.node") (codes " pve1 ") ≡ ok renamed
unfolding set_value set key_of text_eq validate_non_empty blank trim trim_start trim_end
    is_whitespace
renamed_run = refl

renamed_valid : validate urls renamed ≡ ok tt
renamed_valid =
    set_value-validate urls default_config renamed pve_node (codes "pve.node") (codes " pve1 ")
      node_key tt (default-validate urls) renamed_run

set_value-validate_example : validate urls renamed ≡ ok tt
set_value-validate_example =
    set_value-validate urls default_config renamed pve_node (codes "pve.node") (codes " pve1 ")
      node_key tt (default-validate urls) renamed_run

parse_duration-show_example :
    parse_duration (show 2 ++ codes "h")
    ≡ (if leb (2 * 3600) u64_max then ok (2 * 3600) else err too_large)
parse_duration-show_example = parse_duration-show 2 hour (omega arith)

abbrev on_port : ConfigOverrides
on_port = record no_overrides { agent_port = some (codes "9443") }

abbrev with_port : Config
with_port = record default_config { agent = record default_config.agent { port = 9443 } }

abbrev on_other_port : Config
on_other_port = record default_config { agent = record default_config.agent { port = 8443 } }

loaded :
    load urls (λ t. none) missing ((codes "PBOX_AGENT_PORT", codes "8443") ∷ []) on_port
    ≡ ok with_port
unfolding load_file apply_environment apply_overrides apply read_variable variable_of with_variable
    set_value set key_of text_eq parse_port parse_unsigned parse_digits
loaded =
    (load_iff urls (λ t. none) missing ((codes "PBOX_AGENT_PORT", codes "8443") ∷ []) on_port
        with_port).1
      (record {
        from_file = default_config;
        from_environment = on_other_port;
        reads = refl;
        environment = refl;
        overridden = refl;
      })

load_iff_example :
    (load urls (λ t. none) missing ((codes "PBOX_AGENT_PORT", codes "8443") ∷ []) on_port
      ≡ ok with_port)
    ↔ Layered urls
        (λ t. none)
        missing
        ((codes "PBOX_AGENT_PORT", codes "8443") ∷ [])
        on_port
        with_port
load_iff_example =
    load_iff urls (λ t. none) missing ((codes "PBOX_AGENT_PORT", codes "8443") ∷ []) on_port
      with_port
