-- ===== src/Config/Values.antt =====
-- crates/pbox-core/src/config.rs: `validate`, `set_value` and `unset_value`. A failed `set_value` changes
-- nothing, so the changed configuration is the result of a successful one.
use pbox.Base.{
  ℕ, false, Option, none, some, List, [], ◌∷◌, Text, codes, is_empty, ◌==◌, trim, Result, ok, err,
  ◌>>=◌, ◌>>◌, fail_if,
}
use pbox.Relay.Route.{UrlCrate}
use pbox.Vmid
use pbox.Vmid.{VmidPattern}
use pbox.Config.Durations.{parse_duration}
use pbox.Config.{
  PveDefaults, PveConfig, RecipeConfig, Config, default_pve_defaults, default_pve, default_agent,
  default_recipes, default_pattern, key_name, key_of, Key, pve_url, pve_token_id, pve_token_secret,
  pve_tls_insecure, pve_node, pve_storage, pve_template_storage, pve_bridge, defaults_cores,
  defaults_memory, defaults_swap, defaults_disk, defaults_unprivileged, defaults_onboot,
  images_default, agent_binary, agent_port, relay_url, relay_key_file, recipes_repository,
  recipes_ref, recipes_auto_sync, recipes_sync_ttl, recipes_snapshot, recipes_rollback, vmid_key,
}
use pbox.Config.Checks.{
  Check, ConfigError, unknown_key, invalid_value, empty_value, not_a_port, bad_duration,
  bad_pattern, validate_non_empty, validate_positive, validate_snapshot_policy, parse_bool,
  parse_port, parse_u64, parse_positive, validate_repository_reference, validate_relay_url,
  validate_pve_url,
}

-- The checks of a list in their order: the first error is the result.
abbrev pub all_ok : List Check → Check
all_ok [] = ok tt
all_ok (check ∷ checks) = check >> all_ok checks

-- A check of a value that may be unset.
abbrev pub where_set : Option Text → (Text → Check) → Check
where_set none check = ok tt
where_set (some value) check = check value

unfoldable pub validate_duration : Text → Check
validate_duration value = elim (parse_duration value) [
  | ok seconds ↦ ok tt
  | err reason ↦ err (invalid_value (key_name recipes_sync_ttl) (bad_duration reason))
]

unfoldable pub not_nothing : Key → Text → Check
not_nothing k value = fail_if (is_empty value) (invalid_value (key_name k) empty_value)

unfoldable pub validate_port : ℕ → Check
validate_port port = fail_if (port == 0) (invalid_value (key_name agent_port) not_a_port)

abbrev pub in_pve : PveConfig → Config → Config
in_pve pve config = record config { pve = pve }

abbrev pub in_defaults : PveDefaults → Config → Config
in_defaults defaults config = record config { pve = record config.pve { defaults = defaults } }

abbrev pub in_recipes : RecipeConfig → Config → Config
in_recipes recipes config = record config { recipes = recipes }

module _ (u : UrlCrate) where
  -- The checks of `validate`, in the source's order.
  abbrev pub checks : Config → List Check
  checks c =
      where_set c.relay.url (validate_relay_url u (key_name relay_url))
      ∷ where_set c.relay.key_file (validate_non_empty (key_name relay_key_file))
      ∷ where_set c.pve.url (validate_non_empty (key_name pve_url))
      ∷ where_set c.pve.url (validate_pve_url u (key_name pve_url))
      ∷ where_set c.pve.token_id (validate_non_empty (key_name pve_token_id))
      ∷ where_set c.pve.token_secret (not_nothing pve_token_secret)
      ∷ where_set c.agent.binary (not_nothing agent_binary)
      ∷ validate_port c.agent.port
      ∷ validate_non_empty (key_name pve_node) c.pve.node
      ∷ validate_non_empty (key_name pve_storage) c.pve.storage
      ∷ validate_non_empty (key_name pve_template_storage) c.pve.template_storage
      ∷ validate_non_empty (key_name pve_bridge) c.pve.bridge
      ∷ validate_positive (key_name defaults_cores) c.pve.defaults.cores
      ∷ validate_positive (key_name defaults_memory) c.pve.defaults.memory
      ∷ validate_non_empty (key_name defaults_disk) c.pve.defaults.disk
      ∷ validate_non_empty (key_name images_default) c.images
      ∷ validate_repository_reference (key_name recipes_repository) c.recipes.repository
      ∷ validate_non_empty (key_name recipes_ref) c.recipes.reference
      ∷ validate_duration c.recipes.sync_ttl
      ∷ validate_snapshot_policy (key_name recipes_snapshot) c.recipes.snapshot_before_apply
      ∷ []

  unfoldable pub validate : Config → Check
  validate c = all_ok (checks c)

  unfoldable pub set : Config → Key → Text → Result ConfigError Config
  set c pve_url value = do
    validate_non_empty (key_name pve_url) value
    validate_pve_url u (key_name pve_url) value
    ok (in_pve (record c.pve { url = some (trim value) }) c)
  set c pve_token_id value = do
    validate_non_empty (key_name pve_token_id) value
    ok (in_pve (record c.pve { token_id = some value }) c)
  set c pve_token_secret value = do
    not_nothing pve_token_secret value
    ok (in_pve (record c.pve { token_secret = some value }) c)
  set c pve_tls_insecure value = do
    b ← parse_bool (key_name pve_tls_insecure) value
    ok (in_pve (record c.pve { tls_insecure = b }) c)
  set c pve_node value = do
    validate_non_empty (key_name pve_node) value
    ok (in_pve (record c.pve { node = trim value }) c)
  set c pve_storage value = do
    validate_non_empty (key_name pve_storage) value
    ok (in_pve (record c.pve { storage = trim value }) c)
  set c pve_template_storage value = do
    validate_non_empty (key_name pve_template_storage) value
    ok (in_pve (record c.pve { template_storage = trim value }) c)
  set c pve_bridge value = do
    validate_non_empty (key_name pve_bridge) value
    ok (in_pve (record c.pve { bridge = trim value }) c)
  set c defaults_cores value = do
    n ← parse_positive (key_name defaults_cores) value
    ok (in_defaults (record c.pve.defaults { cores = n }) c)
  set c defaults_memory value = do
    n ← parse_positive (key_name defaults_memory) value
    ok (in_defaults (record c.pve.defaults { memory = n }) c)
  set c defaults_swap value = do
    n ← parse_u64 (key_name defaults_swap) value
    ok (in_defaults (record c.pve.defaults { swap = n }) c)
  set c defaults_disk value = do
    validate_non_empty (key_name defaults_disk) value
    ok (in_defaults (record c.pve.defaults { disk = trim value }) c)
  set c defaults_unprivileged value = do
    b ← parse_bool (key_name defaults_unprivileged) value
    ok (in_defaults (record c.pve.defaults { unprivileged = b }) c)
  set c defaults_onboot value = do
    b ← parse_bool (key_name defaults_onboot) value
    ok (in_defaults (record c.pve.defaults { onboot = b }) c)
  set c images_default value = do
    validate_non_empty (key_name images_default) value
    ok (record c { images = trim value })
  set c agent_binary value = do
    validate_non_empty (key_name agent_binary) value
    ok (record c { agent = record c.agent { binary = some value } })
  set c relay_url value = do
    validate_relay_url u (key_name relay_url) value
    ok (record c { relay = record c.relay { url = some value } })
  set c relay_key_file value = ok (record c { relay = record c.relay { key_file = some value } })
  set c agent_port value = do
    n ← parse_port (key_name agent_port) value
    ok (record c { agent = record c.agent { port = n } })
  set c recipes_repository value = do
    validate_repository_reference (key_name recipes_repository) value
    ok (in_recipes (record c.recipes { repository = value }) c)
  set c recipes_ref value = do
    validate_non_empty (key_name recipes_ref) value
    ok (in_recipes (record c.recipes { reference = value }) c)
  set c recipes_auto_sync value = do
    b ← parse_bool (key_name recipes_auto_sync) value
    ok (in_recipes (record c.recipes { auto_sync = b }) c)
  set c recipes_sync_ttl value = do
    validate_duration value
    ok (in_recipes (record c.recipes { sync_ttl = value }) c)
  set c recipes_snapshot value = do
    validate_snapshot_policy (key_name recipes_snapshot) value
    ok (in_recipes (record c.recipes { snapshot_before_apply = value }) c)
  set c recipes_rollback value = do
    b ← parse_bool (key_name recipes_rollback) value
    ok (in_recipes (record c.recipes { rollback_on_failure = b }) c)
  set c vmid_key value = elim (Vmid.parse value) [
    | ok pattern ↦ ok (record c { vmid_pattern = pattern })
    | err reason ↦ err (invalid_value (key_name vmid_key) (bad_pattern reason))
  ]

  unfoldable pub set_value : Config → Text → Text → Result ConfigError Config
  set_value c key value = elim (key_of key) [
    | none ↦ err (unknown_key key)
    | some k ↦ set c k value
  ]

unfoldable pub unset : Config → Key → Config
unset c pve_url = in_pve (record c.pve { url = none }) c
unset c pve_token_id = in_pve (record c.pve { token_id = none }) c
unset c pve_token_secret = in_pve (record c.pve { token_secret = none }) c
unset c pve_tls_insecure = in_pve (record c.pve { tls_insecure = false }) c
unset c pve_node = in_pve (record c.pve { node = default_pve.node }) c
unset c pve_storage = in_pve (record c.pve { storage = default_pve.storage }) c
unset c pve_template_storage =
    in_pve (record c.pve { template_storage = default_pve.template_storage }) c
unset c pve_bridge = in_pve (record c.pve { bridge = default_pve.bridge }) c
unset c defaults_cores =
    in_defaults (record c.pve.defaults { cores = default_pve_defaults.cores }) c
unset c defaults_memory =
    in_defaults (record c.pve.defaults { memory = default_pve_defaults.memory }) c
unset c defaults_swap = in_defaults (record c.pve.defaults { swap = default_pve_defaults.swap }) c
unset c defaults_disk = in_defaults (record c.pve.defaults { disk = default_pve_defaults.disk }) c
unset c defaults_unprivileged =
    in_defaults (record c.pve.defaults { unprivileged = default_pve_defaults.unprivileged }) c
unset c defaults_onboot =
    in_defaults (record c.pve.defaults { onboot = default_pve_defaults.onboot }) c
unset c images_default = record c { images = codes "debian-13" }
unset c agent_binary = record c { agent = record c.agent { binary = none } }
unset c agent_port = record c { agent = record c.agent { port = default_agent.port } }
unset c relay_url = record c { relay = record c.relay { url = none } }
unset c relay_key_file = record c { relay = record c.relay { key_file = none } }
unset c recipes_repository =
    in_recipes (record c.recipes { repository = default_recipes.repository }) c
unset c recipes_ref = in_recipes (record c.recipes { reference = default_recipes.reference }) c
unset c recipes_auto_sync =
    in_recipes (record c.recipes { auto_sync = default_recipes.auto_sync }) c
unset c recipes_sync_ttl = in_recipes (record c.recipes { sync_ttl = default_recipes.sync_ttl }) c
unset c recipes_snapshot =
    in_recipes (record c.recipes { snapshot_before_apply = default_recipes.snapshot_before_apply })
      c
unset c recipes_rollback =
    in_recipes (record c.recipes { rollback_on_failure = default_recipes.rollback_on_failure }) c
unset c vmid_key = record c { vmid_pattern = default_pattern }

unfoldable pub unset_value : Config → Text → Result ConfigError Config
unset_value c key = elim (key_of key) [ none ↦ err (unknown_key key) | some k ↦ ok (unset c k) ]
