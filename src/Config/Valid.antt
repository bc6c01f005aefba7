-- ===== src/Config/Valid.antt =====
-- The checks of `validate` one by one, and that a value which is set passes its own.
use pbox.Base.{
  All, ◌≡◌, subst, inl, inr, true, false, some, Text, trim, text_eq, text_eq_sound, ok,
  Result-cases, arith,
}
use pbox.Relay.Route.{UrlCrate}
use pbox.Vmid
use pbox.Config.{
  Config, key_name, Key, pve_url, pve_token_id, pve_token_secret, pve_tls_insecure, pve_node,
  pve_storage, pve_template_storage, pve_bridge, defaults_cores, defaults_memory, defaults_swap,
  defaults_disk, defaults_unprivileged, defaults_onboot, images_default, agent_binary, agent_port,
  relay_url, relay_key_file, recipes_repository, recipes_ref, recipes_auto_sync, recipes_sync_ttl,
  recipes_snapshot, recipes_rollback, vmid_key,
}
use pbox.Config.Checks.{
  blank, validate_non_empty, validate_snapshot_policy, parse_bool, parse_port, parse_u64,
  parse_positive, validate_repository_reference, validate_relay_url, validate_pve_url,
}
use pbox.Config.Values.{
  checks, validate_duration, not_nothing, in_pve, in_defaults, in_recipes, set,
}
use pbox.Config.Reading.{
  Passes, after, split_checks, after_value, replace, renew, trimmed, filled, port_read,
  positive_read,
}

module _ (u : UrlCrate) where
  -- Every check of `validate` passes.
  abbrev pub IsValid : Config → Type 0
  IsValid c = All Passes (checks u c)

  address_trimmed :
      (key value : Text)
      → Passes (validate_pve_url u key value)
      → Passes (validate_pve_url u key (trim value))
  unfolding validate_pve_url
  address_trimmed key value h =
      let e : text_eq value (trim value) ≡ true = ground arith in
      subst (λ t. Passes (validate_pve_url u key t)) (text_eq_sound value (trim value) e) h

  -- What a value must be for the check that `set_value` leaves out.
  abbrev pub Fits : Key → Text → Type 0
  Fits relay_key_file value = blank value ≡ false
  Fits _ value = Unit {0}

  file_fits :
      (value : Text)
      → blank value ≡ false
      → Passes (validate_non_empty (key_name relay_key_file) value)
  unfolding validate_non_empty
  file_fits value h = ground arith

  pub set-IsValid :
      (c c' : Config) (k : Key) (value : Text)
      → Fits k value
      → IsValid c
      → set u c k value ≡ ok c'
      → IsValid c'
  unfolding set
  set-IsValid c c' pve_url value fits v h =
      let (p, q, e) =
        split_checks (validate_non_empty (key_name pve_url) value)
          (validate_pve_url u (key_name pve_url) value)
          (in_pve (record c.pve { url = some (trim value) }) c) c' h in
      let trimmed_url = validate_non_empty (key_name pve_url) (trim value) in
      subst IsValid e (
        renew 3 _ (replace 2 trimmed_url (checks u c)) (address_trimmed (key_name pve_url) value q)
          (renew 2 trimmed_url (checks u c) (trimmed (key_name pve_url) value p) v))
  set-IsValid c c' pve_token_id value fits v h =
      let (p, e) =
        after (validate_non_empty (key_name pve_token_id) value)
          (in_pve (record c.pve { token_id = some value }) c) c' h in
      subst IsValid e (renew 4 _ (checks u c) (p) v)
  set-IsValid c c' pve_token_secret value fits v h =
      let (p, e) =
        after (not_nothing pve_token_secret value)
          (in_pve (record c.pve { token_secret = some value }) c) c' h in
      subst IsValid e (renew 5 _ (checks u c) (p) v)
  set-IsValid c c' pve_tls_insecure value fits v h =
      let (b, p, e) =
        after_value (parse_bool (key_name pve_tls_insecure) value)
          (λ b. in_pve (record c.pve { tls_insecure = b }) c) c' h in
      subst IsValid e v
  set-IsValid c c' pve_node value fits v h =
      let (p, e) =
        after (validate_non_empty (key_name pve_node) value)
          (in_pve (record c.pve { node = trim value }) c) c' h in
      subst IsValid e (renew 8 _ (checks u c) (trimmed (key_name pve_node) value p) v)
  set-IsValid c c' pve_storage value fits v h =
      let (p, e) =
        after (validate_non_empty (key_name pve_storage) value)
          (in_pve (record c.pve { storage = trim value }) c) c' h in
      subst IsValid e (renew 9 _ (checks u c) (trimmed (key_name pve_storage) value p) v)
  set-IsValid c c' pve_template_storage value fits v h =
      let (p, e) =
        after (validate_non_empty (key_name pve_template_storage) value)
          (in_pve (record c.pve { template_storage = trim value }) c) c' h in
      subst IsValid e (renew 10 _ (checks u c) (trimmed (key_name pve_template_storage) value p) v)
  set-IsValid c c' pve_bridge value fits v h =
      let (p, e) =
        after (validate_non_empty (key_name pve_bridge) value)
          (in_pve (record c.pve { bridge = trim value }) c) c' h in
      subst IsValid e (renew 11 _ (checks u c) (trimmed (key_name pve_bridge) value p) v)
  set-IsValid c c' defaults_cores value fits v h =
      let (b, p, e) =
        after_value (parse_positive (key_name defaults_cores) value)
          (λ b. in_defaults (record c.pve.defaults { cores = b }) c) c' h in
      subst IsValid e
        (renew 12 _ (checks u c) (positive_read (key_name defaults_cores) value b p) v)
  set-IsValid c c' defaults_memory value fits v h =
      let (b, p, e) =
        after_value (parse_positive (key_name defaults_memory) value)
          (λ b. in_defaults (record c.pve.defaults { memory = b }) c) c' h in
      subst IsValid e
        (renew 13 _ (checks u c) (positive_read (key_name defaults_memory) value b p) v)
  set-IsValid c c' defaults_swap value fits v h =
      let (b, p, e) =
        after_value (parse_u64 (key_name defaults_swap) value)
          (λ b. in_defaults (record c.pve.defaults { swap = b }) c) c' h in
      subst IsValid e v
  set-IsValid c c' defaults_disk value fits v h =
      let (p, e) =
        after (validate_non_empty (key_name defaults_disk) value)
          (in_defaults (record c.pve.defaults { disk = trim value }) c) c' h in
      subst IsValid e (renew 14 _ (checks u c) (trimmed (key_name defaults_disk) value p) v)
  set-IsValid c c' defaults_unprivileged value fits v h =
      let (b, p, e) =
        after_value (parse_bool (key_name defaults_unprivileged) value)
          (λ b. in_defaults (record c.pve.defaults { unprivileged = b }) c) c' h in
      subst IsValid e v
  set-IsValid c c' defaults_onboot value fits v h =
      let (b, p, e) =
        after_value (parse_bool (key_name defaults_onboot) value)
          (λ b. in_defaults (record c.pve.defaults { onboot = b }) c) c' h in
      subst IsValid e v
  set-IsValid c c' images_default value fits v h =
      let (p, e) =
        after (validate_non_empty (key_name images_default) value)
          (record c { images = trim value }) c' h in
      subst IsValid e (renew 15 _ (checks u c) (trimmed (key_name images_default) value p) v)
  set-IsValid c c' agent_binary value fits v h =
      let (p, e) =
        after (validate_non_empty (key_name agent_binary) value)
          (record c { agent = record c.agent { binary = some value } }) c' h in
      subst IsValid e
        (renew 6 _ (checks u c) (filled (key_name agent_binary) agent_binary value p) v)
  set-IsValid c c' agent_port value fits v h =
      let (b, p, e) =
        after_value (parse_port (key_name agent_port) value)
          (λ b. record c { agent = record c.agent { port = b } }) c' h in
      subst IsValid e (renew 7 _ (checks u c) (port_read value b p) v)
  set-IsValid c c' relay_url value fits v h =
      let (p, e) =
        after (validate_relay_url u (key_name relay_url) value)
          (record c { relay = record c.relay { url = some value } }) c' h in
      subst IsValid e (renew 0 _ (checks u c) (p) v)
  set-IsValid c c' relay_key_file value fits v h =
      let e : record c { relay = record c.relay { key_file = some value } } ≡ c' = ground arith in
      subst IsValid e (renew 1 _ (checks u c) (file_fits value fits) v)
  set-IsValid c c' recipes_repository value fits v h =
      let (p, e) =
        after (validate_repository_reference (key_name recipes_repository) value)
          (in_recipes (record c.recipes { repository = value }) c) c' h in
      subst IsValid e (renew 16 _ (checks u c) (p) v)
  set-IsValid c c' recipes_ref value fits v h =
      let (p, e) =
        after (validate_non_empty (key_name recipes_ref) value)
          (in_recipes (record c.recipes { reference = value }) c) c' h in
      subst IsValid e (renew 17 _ (checks u c) (p) v)
  set-IsValid c c' recipes_auto_sync value fits v h =
      let (b, p, e) =
        after_value (parse_bool (key_name recipes_auto_sync) value)
          (λ b. in_recipes (record c.recipes { auto_sync = b }) c) c' h in
      subst IsValid e v
  set-IsValid c c' recipes_sync_ttl value fits v h =
      let (p, e) =
        after (validate_duration value) (in_recipes (record c.recipes { sync_ttl = value }) c) c'
          h in
      subst IsValid e (renew 18 _ (checks u c) (p) v)
  set-IsValid c c' recipes_snapshot value fits v h =
      let (p, e) =
        after (validate_snapshot_policy (key_name recipes_snapshot) value)
          (in_recipes (record c.recipes { snapshot_before_apply = value }) c) c' h in
      subst IsValid e (renew 19 _ (checks u c) (p) v)
  set-IsValid c c' recipes_rollback value fits v h =
      let (b, p, e) =
        after_value (parse_bool (key_name recipes_rollback) value)
          (λ b. in_recipes (record c.recipes { rollback_on_failure = b }) c) c' h in
      subst IsValid e v
  set-IsValid c c' vmid_key value fits v h = elim (Result-cases (Vmid.parse value)) [
    | inl (pattern, e) ↦
        let e' : record c { vmid_pattern = pattern } ≡ c' = ground arith in subst IsValid e' v
    | inr (reason, e) ↦ absurd (ground arith)
  ]
