-- ===== src/Config/Keys.antt =====
-- The names of the keys: each is found under its own name, and under no other.
use pbox.Base.{
  ◌≡◌, ◌↔◌, refl, ap, sym, ◌∙◌, subst, inl, inr, some, List, [], ◌∷◌, Text, text_eq, text_eq_sound,
  Bool-cases, arith,
}
use pbox.Config.{
  Key, key_name, key_of, find_key, all_keys, pve_url, pve_token_id, pve_token_secret,
  pve_tls_insecure, pve_node, pve_storage, pve_template_storage, pve_bridge, defaults_cores,
  defaults_memory, defaults_swap, defaults_disk, defaults_unprivileged, defaults_onboot,
  images_default, agent_binary, agent_port, relay_url, relay_key_file, recipes_repository,
  recipes_ref, recipes_auto_sync, recipes_sync_ttl, recipes_snapshot, recipes_rollback, vmid_key,
}

in_list : (ks : List Key) (key : Text) (k : Key) → find_key ks key ≡ some k → key_name k ≡ key
in_list [] key k h = absurd (ground arith)
in_list (x ∷ ks) key k h = elim (Bool-cases (text_eq (key_name x) key)) [
  | inl e ↦
      let same : x ≡ k = ground arith in ap key_name (sym same) ∙ text_eq_sound (key_name x) key e
  | inr e ↦ in_list ks key k (ground arith)
]

found : (key : Text) (k : Key) → key_of key ≡ some k → key_name k ≡ key
unfolding key_of
found key k h = in_list all_keys key k h

key_of-key_name : (k : Key) → key_of (key_name k) ≡ some k
unfolding key_of text_eq
key_of-key_name pve_url = refl
key_of-key_name pve_token_id = refl
key_of-key_name pve_token_secret = refl
key_of-key_name pve_tls_insecure = refl
key_of-key_name pve_node = refl
key_of-key_name pve_storage = refl
key_of-key_name pve_template_storage = refl
key_of-key_name pve_bridge = refl
key_of-key_name defaults_cores = refl
key_of-key_name defaults_memory = refl
key_of-key_name defaults_swap = refl
key_of-key_name defaults_disk = refl
key_of-key_name defaults_unprivileged = refl
key_of-key_name defaults_onboot = refl
key_of-key_name images_default = refl
key_of-key_name agent_binary = refl
key_of-key_name agent_port = refl
key_of-key_name relay_url = refl
key_of-key_name relay_key_file = refl
key_of-key_name recipes_repository = refl
key_of-key_name recipes_ref = refl
key_of-key_name recipes_auto_sync = refl
key_of-key_name recipes_sync_ttl = refl
key_of-key_name recipes_snapshot = refl
key_of-key_name recipes_rollback = refl
key_of-key_name vmid_key = refl

-- A text finds a key exactly if it is the name of that key, so no two keys share a name.
pub key_of_iff : (key : Text) (k : Key) → (key_of key ≡ some k) ↔ (key_name k ≡ key)
key_of_iff key k = (found key k, λ e. subst (λ t. key_of t ≡ some k) e (key_of-key_name k))
