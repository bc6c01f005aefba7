-- ===== src/Config.antt =====
-- crates/pbox-core/src/config.rs: the configuration and its keys. A text is its characters, and so is
-- a path. The child modules hold the checks, the values by key, and the layers that `load` merges.
pub mod Durations
pub mod Keys
pub mod Merging
pub mod Checks
pub mod Values
pub mod Reading
pub mod Valid
pub mod Changes
pub mod Layers
pub mod Redaction
pub mod Secrets
mod Tests
use pbox.Base.{
  ℕ, ◌≡◌, Bool, true, false, Option, none, some, List, [], ◌∷◌, Text, codes, text_eq, if◌then◌else◌,
}
use pbox.Vmid.{VmidPattern}

pub record PveDefaults : Type 0 where
  pub cores : ℕ
  pub memory : ℕ
  pub swap : ℕ
  pub disk : Text
  pub unprivileged : Bool
  pub onboot : Bool

pub record PveConfig : Type 0 where
  pub url : Option Text
  pub token_id : Option Text
  pub token_secret : Option Text
  pub tls_insecure : Bool
  pub node : Text
  pub storage : Text
  pub template_storage : Text
  pub bridge : Text
  pub defaults : PveDefaults

pub record AgentConfig : Type 0 where
  pub binary : Option Text
  pub port : ℕ

pub record RecipeConfig : Type 0 where
  pub repository : Text
  pub reference : Text
  pub auto_sync : Bool
  pub sync_ttl : Text
  pub snapshot_before_apply : Text
  pub rollback_on_failure : Bool

pub record RelayConfig : Type 0 where
  pub url : Option Text
  pub key_file : Option Text

-- `images` is an `ImageConfig`, whose one field is `default`.
pub record Config : Type 0 where
  pub pve : PveConfig
  pub agent : AgentConfig
  pub relay : RelayConfig
  pub images : Text
  pub recipes : RecipeConfig
  pub vmid_pattern : VmidPattern

abbrev pub default_pve_defaults : PveDefaults
default_pve_defaults = record {
  cores = 2;
  memory = 1024;
  swap = 256;
  disk = codes "8G";
  unprivileged = true;
  onboot = false;
}

abbrev pub default_pve : PveConfig
default_pve = record {
  url = none;
  token_id = none;
  token_secret = none;
  tls_insecure = false;
  node = codes "auto";
  storage = codes "auto";
  template_storage = codes "local";
  bridge = codes "vmbr0";
  defaults = default_pve_defaults;
}

abbrev pub default_agent : AgentConfig
default_agent = record { binary = none; port = 7443 }

abbrev pub default_recipes : RecipeConfig
default_recipes = record {
  repository = codes "https://github.com/kierandrewett/pbox-recipes.git";
  reference = codes "main";
  auto_sync = true;
  sync_ttl = codes "15m";
  snapshot_before_apply = codes "auto";
  rollback_on_failure = false;
}

-- What `VmidPattern::parse("9xxx")` returns.
abbrev pub default_pattern : VmidPattern
default_pattern = record { prefix = 9; wildcard_digits = 3; first = 9000; last = 9999 }

abbrev pub default_config : Config
default_config = record {
  pve = default_pve;
  agent = default_agent;
  relay = record { url = none; key_file = none };
  images = codes "debian-13";
  recipes = default_recipes;
  vmid_pattern = default_pattern;
}

-- The keys that `set_value`, `unset_value` and `redacted_pairs` know.
pub data Key : Type 0 where
  pve_url pve_token_id pve_token_secret pve_tls_insecure pve_node pve_storage : Key
  pve_template_storage pve_bridge defaults_cores defaults_memory defaults_swap : Key
  defaults_disk defaults_unprivileged defaults_onboot images_default agent_binary : Key
  agent_port relay_url relay_key_file recipes_repository recipes_ref recipes_auto_sync : Key
  recipes_sync_ttl recipes_snapshot recipes_rollback vmid_key : Key

abbrev pub key_name : Key → Text
key_name pve_url = codes "pve.url"
key_name pve_token_id = codes "pve.token_id"
key_name pve_token_secret = codes "pve.token_secret"
key_name pve_tls_insecure = codes "pve.tls_insecure"
key_name pve_node = codes "pve.node"
key_name pve_storage = codes "pve.storage"
key_name pve_template_storage = codes "pve.template-storage"
key_name pve_bridge = codes "pve.bridge"
key_name defaults_cores = codes "pve.defaults.cores"
key_name defaults_memory = codes "pve.defaults.memory"
key_name defaults_swap = codes "pve.defaults.swap"
key_name defaults_disk = codes "pve.defaults.disk"
key_name defaults_unprivileged = codes "pve.defaults.unprivileged"
key_name defaults_onboot = codes "pve.defaults.onboot"
key_name images_default = codes "images.default"
key_name agent_binary = codes "agent.binary"
key_name agent_port = codes "agent.port"
key_name relay_url = codes "relay.url"
key_name relay_key_file = codes "relay.key-file"
key_name recipes_repository = codes "recipes.repository"
key_name recipes_ref = codes "recipes.ref"
key_name recipes_auto_sync = codes "recipes.auto-sync"
key_name recipes_sync_ttl = codes "recipes.sync-ttl"
key_name recipes_snapshot = codes "recipes.snapshot-before-apply"
key_name recipes_rollback = codes "recipes.rollback-on-failure"
key_name vmid_key = codes "pve.vmid-pattern"

abbrev pub all_keys : List Key
all_keys =
    pve_url ∷ pve_token_id ∷ pve_token_secret ∷ pve_tls_insecure ∷ pve_node ∷ pve_storage
    ∷ pve_template_storage ∷ pve_bridge ∷ defaults_cores ∷ defaults_memory ∷ defaults_swap
    ∷ defaults_disk ∷ defaults_unprivileged ∷ defaults_onboot ∷ images_default ∷ agent_binary
    ∷ agent_port ∷ relay_url ∷ relay_key_file ∷ recipes_repository ∷ recipes_ref ∷ recipes_auto_sync
    ∷ recipes_sync_ttl ∷ recipes_snapshot ∷ recipes_rollback ∷ vmid_key ∷ []

abbrev pub find_key : List Key → Text → Option Key
find_key [] key = none
find_key (k ∷ ks) key = if text_eq (key_name k) key then some k else find_key ks key

-- The key of a name, as the source's matches on a text find it.
unfoldable pub key_of : Text → Option Key
key_of key = find_key all_keys key
