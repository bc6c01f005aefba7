-- ===== src/Config/Layers.antt =====
-- crates/pbox-core/src/config.rs: the layers that `load` merges, which are the file, the environment and
-- the overrides of the command line. `file` is what reading the file gives, `toml` is the crate toml.
use pbox.Base.{
  Bool, Option, none, some, List, [], ◌∷◌, Text, codes, text_eq, if◌then◌else◌, Result, ok, err,
  ◌>>=◌, ◌>>◌,
}
use pbox.Relay.Route.{UrlCrate}
use pbox.Config.{
  Config, default_config, key_name, Key, pve_url, pve_token_id, pve_token_secret, agent_binary,
  agent_port, recipes_repository, recipes_ref, recipes_sync_ttl, recipes_snapshot, vmid_key,
}
use pbox.Config.Checks.{ConfigError, parse_bool}
use pbox.Config.Values.{validate, set_value, in_pve, in_recipes}

pub record ConfigOverrides : Type 0 where
  pub pve_url : Option Text
  pub pve_token_id : Option Text
  pub pve_token_secret : Option Text
  pub pve_tls_insecure : Option Bool
  pub agent_binary : Option Text
  pub agent_port : Option Text
  pub recipes_repository : Option Text
  pub recipes_reference : Option Text
  pub recipes_auto_sync : Option Bool
  pub recipes_sync_ttl : Option Text
  pub recipes_snapshot_before_apply : Option Text
  pub recipes_rollback_on_failure : Option Bool
  pub vmid_pattern : Option Text

abbrev pub no_overrides : ConfigOverrides
no_overrides = record {
  pve_url = none;
  pve_token_id = none;
  pve_token_secret = none;
  pve_tls_insecure = none;
  agent_binary = none;
  agent_port = none;
  recipes_repository = none;
  recipes_reference = none;
  recipes_auto_sync = none;
  recipes_sync_ttl = none;
  recipes_snapshot_before_apply = none;
  recipes_rollback_on_failure = none;
  vmid_pattern = none;
}

-- One of the changes that `apply_overrides` makes in turn; a flag is set without a check.
pub data Change : Type 0 where
  value : Key → Option Text → Change
  tls_insecure auto_sync rollback : Option Bool → Change

abbrev pub changes : ConfigOverrides → List Change
changes o =
    value pve_url o.pve_url
    ∷ value pve_token_id o.pve_token_id
    ∷ value pve_token_secret o.pve_token_secret
    ∷ tls_insecure o.pve_tls_insecure
    ∷ value agent_binary o.agent_binary
    ∷ value agent_port o.agent_port
    ∷ value recipes_repository o.recipes_repository
    ∷ value recipes_ref o.recipes_reference
    ∷ auto_sync o.recipes_auto_sync
    ∷ value recipes_sync_ttl o.recipes_sync_ttl
    ∷ value recipes_snapshot o.recipes_snapshot_before_apply
    ∷ rollback o.recipes_rollback_on_failure
    ∷ value vmid_key o.vmid_pattern
    ∷ []

-- The variables of the environment that are read.
pub data Variable : Type 0 where
  env_url env_token_id env_token_secret env_tls_insecure env_binary env_port env_repository
        env_ref :
      Variable
  env_auto_sync env_sync_ttl env_snapshot env_rollback env_pattern : Variable

abbrev variable_name : Variable → Text
variable_name env_url = codes "PBOX_PVE_URL"
variable_name env_token_id = codes "PBOX_PVE_TOKEN_ID"
variable_name env_token_secret = codes "PBOX_PVE_TOKEN_SECRET"
variable_name env_tls_insecure = codes "PBOX_PVE_TLS_INSECURE"
variable_name env_binary = codes "PBOX_AGENT_BINARY"
variable_name env_port = codes "PBOX_AGENT_PORT"
variable_name env_repository = codes "PBOX_RECIPES_REPOSITORY"
variable_name env_ref = codes "PBOX_RECIPES_REF"
variable_name env_auto_sync = codes "PBOX_RECIPES_AUTO_SYNC"
variable_name env_sync_ttl = codes "PBOX_RECIPES_SYNC_TTL"
variable_name env_snapshot = codes "PBOX_RECIPES_SNAPSHOT_BEFORE_APPLY"
variable_name env_rollback = codes "PBOX_RECIPES_ROLLBACK_ON_FAILURE"
variable_name env_pattern = codes "PBOX_VMID_PATTERN"

abbrev find_variable : List Variable → Text → Option Variable
find_variable [] name = none
find_variable (v ∷ vs) name =
    if text_eq (variable_name v) name then some v else find_variable vs name

unfoldable pub variable_of : Text → Option Variable
variable_of name =
    find_variable
      (env_url ∷ env_token_id ∷ env_token_secret ∷ env_tls_insecure ∷ env_binary ∷ env_port
        ∷ env_repository ∷ env_ref ∷ env_auto_sync ∷ env_sync_ttl ∷ env_snapshot ∷ env_rollback
        ∷ env_pattern ∷ [])
      name

unfoldable pub with_variable :
    ConfigOverrides → Variable → Text → Result ConfigError ConfigOverrides
with_variable o env_url v = ok (record o { pve_url = some v })
with_variable o env_token_id v = ok (record o { pve_token_id = some v })
with_variable o env_token_secret v = ok (record o { pve_token_secret = some v })
with_variable o env_tls_insecure v = do
  b ← parse_bool (variable_name env_tls_insecure) v
  ok (record o { pve_tls_insecure = some b })
with_variable o env_binary v = ok (record o { agent_binary = some v })
with_variable o env_port v = ok (record o { agent_port = some v })
with_variable o env_repository v = ok (record o { recipes_repository = some v })
with_variable o env_ref v = ok (record o { recipes_reference = some v })
with_variable o env_auto_sync v = do
  b ← parse_bool (variable_name env_auto_sync) v
  ok (record o { recipes_auto_sync = some b })
with_variable o env_sync_ttl v = ok (record o { recipes_sync_ttl = some v })
with_variable o env_snapshot v = ok (record o { recipes_snapshot_before_apply = some v })
with_variable o env_rollback v = do
  b ← parse_bool (variable_name env_rollback) v
  ok (record o { recipes_rollback_on_failure = some b })
with_variable o env_pattern v = ok (record o { vmid_pattern = some v })

unfoldable pub read_variable : ConfigOverrides → Text → Text → Result ConfigError ConfigOverrides
read_variable o name v = elim (variable_of name) [
  | none ↦ ok o
  | some variable ↦ with_variable o variable v
]

-- The loop over the variables, and the overrides that it ends with.
abbrev pub read_environment :
    ConfigOverrides → List (Text × Text) → Result ConfigError ConfigOverrides
read_environment o [] = ok o
read_environment o ((name, v) ∷ vars) = do o ← read_variable o name v; read_environment o vars

-- What reading the file gives.
pub data FileRead : Type 0 where
  contents : Text → FileRead
  missing unreadable : FileRead

pub data LoadError : Type 0 where
  read_failed parse_failed : LoadError
  config_error : ConfigError → LoadError

abbrev pub lift : {A : Type 0} → Result ConfigError A → Result LoadError A
lift (ok a) = ok a
lift (err e) = err (config_error e)

module _ (u : UrlCrate) where
  unfoldable pub apply : Change → Config → Result ConfigError Config
  apply (value k none) c = ok c
  apply (value k (some v)) c = set_value u c (key_name k) v
  apply (tls_insecure none) c = ok c
  apply (tls_insecure (some b)) c = ok (in_pve (record c.pve { tls_insecure = b }) c)
  apply (auto_sync none) c = ok c
  apply (auto_sync (some b)) c = ok (in_recipes (record c.recipes { auto_sync = b }) c)
  apply (rollback none) c = ok c
  apply (rollback (some b)) c = ok (in_recipes (record c.recipes { rollback_on_failure = b }) c)

  abbrev pub apply_all : List Change → Config → Result ConfigError Config
  apply_all [] c = ok c
  apply_all (change ∷ changes) c = do c ← apply change c; apply_all changes c

  unfoldable pub apply_overrides : Config → ConfigOverrides → Result ConfigError Config
  apply_overrides c o = apply_all (changes o) c

  unfoldable pub apply_environment : Config → List (Text × Text) → Result ConfigError Config
  unfolding apply_overrides
  apply_environment c vars = do
    overrides ← read_environment no_overrides vars
    apply_overrides c overrides

  unfoldable pub load_file : (Text → Option Config) → FileRead → Result LoadError Config
  load_file toml missing = ok default_config
  load_file toml unreadable = err read_failed
  load_file toml (contents t) = elim (toml t) [
    | none ↦ err parse_failed
    | some c ↦ do lift (validate u c); ok c
  ]

  unfoldable pub load :
      (Text → Option Config)
      → FileRead
      → List (Text × Text)
      → ConfigOverrides
      → Result LoadError Config
  load toml file vars overrides = do
    config ← load_file toml file
    config ← lift (apply_environment config vars)
    config ← lift (apply_overrides config overrides)
    lift (validate u config)
    ok config
