-- ===== src/Config/Redaction.antt =====
-- crates/pbox-core/src/config.rs: the views that are printed, `redacted` and `redacted_pairs`. A redacted
-- configuration has the same fields as a configuration, so it is one. A BTreeMap is a function of its keys.
use pbox.Base.{
  ◌≡◌, Bool, true, false, Option, none, some, [], Text, codes, is_empty, if◌then◌else◌, show,
}
use pbox.Relay.Route.{UrlCrate, is_some}
use pbox.Vmid.{display}
use pbox.Config.{
  Config, key_of, Key, pve_url, pve_token_id, pve_token_secret, pve_tls_insecure, pve_node,
  pve_storage, pve_template_storage, pve_bridge, defaults_cores, defaults_memory, defaults_swap,
  defaults_disk, defaults_unprivileged, defaults_onboot, images_default, agent_binary, agent_port,
  relay_url, relay_key_file, recipes_repository, recipes_ref, recipes_auto_sync, recipes_sync_ttl,
  recipes_snapshot, recipes_rollback, vmid_key,
}

-- The setters of the crate url; a setter that fails gives nothing.
pub record Setters (u : UrlCrate) : Type 0 where
  pub set_username : Text → u.Url → Option u.Url
  pub set_password : Option Text → u.Url → Option u.Url
  pub set_query : Option Text → u.Url → u.Url
  pub set_fragment : Option Text → u.Url → u.Url

-- `let _ = …` on a setter: a failure leaves the URL as it is.
abbrev pub or_keep : {A : Type 0} → A → Option A → A
or_keep url none = url
or_keep url (some url') = url'

abbrev pub show_bool : Bool → Text
show_bool true = codes "true"
show_bool false = codes "false"

abbrev pub or_text : Text → Option Text → Text
or_text t none = t
or_text t (some value) = value

module _ (u : UrlCrate) (s : Setters u) where
  unfoldable pub without_username : u.Url → u.Url
  without_username url =
      if is_empty (u.username url) then url else or_keep url (s.set_username [] url)

  unfoldable pub without_password : u.Url → u.Url
  without_password url =
      if is_some (u.password url) then or_keep url (s.set_password none url) else url

  unfoldable pub without_query : u.Url → u.Url
  without_query url = if is_some (u.query url) then s.set_query none url else url

  unfoldable pub without_fragment : u.Url → u.Url
  without_fragment url = if is_some (u.fragment url) then s.set_fragment none url else url

  unfoldable pub redact_url : Option Text → Option Text
  redact_url none = none
  redact_url (some value) = elim (u.parse value) [
    | none ↦ some (codes "<invalid>")
    | some parsed ↦ some (
        u.to_string (without_fragment (without_query (without_password (without_username parsed)))))
  ]

  abbrev redact_secret : Option Text → Option Text
  redact_secret none = none
  redact_secret (some secret) = some (codes "<redacted>")

  unfoldable pub redacted : Config → Config
  redacted c = record c {
    pve = record c.pve {
      url = redact_url c.pve.url;
      token_secret = redact_secret c.pve.token_secret;
    };
  }

  unfoldable pub redacted_pairs : Config → Key → Text
  redacted_pairs c pve_url = or_text (codes "<unset>") (redact_url c.pve.url)
  redacted_pairs c pve_token_id = or_text (codes "<unset>") c.pve.token_id
  redacted_pairs c pve_token_secret =
      if is_some c.pve.token_secret then codes "<redacted>" else codes "<unset>"
  redacted_pairs c pve_tls_insecure = show_bool c.pve.tls_insecure
  redacted_pairs c pve_node = c.pve.node
  redacted_pairs c pve_storage = c.pve.storage
  redacted_pairs c pve_template_storage = c.pve.template_storage
  redacted_pairs c pve_bridge = c.pve.bridge
  redacted_pairs c defaults_cores = show c.pve.defaults.cores
  redacted_pairs c defaults_memory = show c.pve.defaults.memory
  redacted_pairs c defaults_swap = show c.pve.defaults.swap
  redacted_pairs c defaults_disk = c.pve.defaults.disk
  redacted_pairs c defaults_unprivileged = show_bool c.pve.defaults.unprivileged
  redacted_pairs c defaults_onboot = show_bool c.pve.defaults.onboot
  redacted_pairs c images_default = c.images
  redacted_pairs c agent_binary = or_text (codes "<unset>") c.agent.binary
  redacted_pairs c agent_port = show c.agent.port
  redacted_pairs c relay_url = or_text [] c.relay.url
  redacted_pairs c relay_key_file = or_text [] c.relay.key_file
  redacted_pairs c recipes_repository = c.recipes.repository
  redacted_pairs c recipes_ref = c.recipes.reference
  redacted_pairs c recipes_auto_sync = show_bool c.recipes.auto_sync
  redacted_pairs c recipes_sync_ttl = c.recipes.sync_ttl
  redacted_pairs c recipes_snapshot = c.recipes.snapshot_before_apply
  redacted_pairs c recipes_rollback = show_bool c.recipes.rollback_on_failure
  redacted_pairs c vmid_key = display c.vmid_pattern

  unfoldable pub get_redacted : Config → Text → Option Text
  get_redacted c key = elim (key_of key) [ none ↦ none | some k ↦ some (redacted_pairs c k) ]

  -- What the crate documents: a setter clears its part, or the part is empty, and keeps the others.
  pub record IsClearing : Type 0 where
    pub cleared_username : (url : u.Url) → u.username (or_keep url (s.set_username [] url)) ≡ []
    pub cleared_password : (url : u.Url) → u.password (or_keep url (s.set_password none url)) ≡ none
    pub cleared_query : (url : u.Url) → u.query (s.set_query none url) ≡ none
    pub cleared_fragment : (url : u.Url) → u.fragment (s.set_fragment none url) ≡ none
    pub username_password :
        (url : u.Url) → u.username (or_keep url (s.set_password none url)) ≡ u.username url
    pub username_query : (url : u.Url) → u.username (s.set_query none url) ≡ u.username url
    pub username_fragment : (url : u.Url) → u.username (s.set_fragment none url) ≡ u.username url
    pub password_query : (url : u.Url) → u.password (s.set_query none url) ≡ u.password url
    pub password_fragment : (url : u.Url) → u.password (s.set_fragment none url) ≡ u.password url
    pub query_fragment : (url : u.Url) → u.query (s.set_fragment none url) ≡ u.query url
