-- ===== src/Config/Changes.antt =====
-- What `set_value` and `unset_value` keep: a valid configuration stays valid.
use pbox.Base.{
  ℕ, List, ◌≡◌, refl, some, Text, trim, trim_start, trim_end, is_whitespace, text_eq,
  parse_unsigned, parse_digits, find, starts_with, strip_prefix, checked, ok, All, arith,
}
use pbox.Relay.Route.{UrlCrate}
use pbox.Config.Durations.{parse_duration, read_duration, split_last, multiplier, seconds_of}
use pbox.Config.{
  Config, default_config, key_of, Key, pve_url, pve_token_id, pve_token_secret, pve_tls_insecure,
  pve_node, pve_storage, pve_template_storage, pve_bridge, defaults_cores, defaults_memory,
  defaults_swap, defaults_disk, defaults_unprivileged, defaults_onboot, images_default,
  agent_binary, agent_port, relay_url, relay_key_file, recipes_repository, recipes_ref,
  recipes_auto_sync, recipes_sync_ttl, recipes_snapshot, recipes_rollback, vmid_key,
}
use pbox.Config.Checks.{
  Check, blank, validate_non_empty, validate_positive, validate_snapshot_policy,
  validate_repository_reference, contains, check_url, is_transport, authority_of, is_policy,
}
use pbox.Config.Values.{
  validate_duration, validate_port, checks, validate, set_value, unset, unset_value,
}
use pbox.Config.Reading.{replace, renew, at, Passes-at, Passes, all_ok_sound, all_ok_complete}
use pbox.Config.Valid.{IsValid, Fits, set-IsValid}

module _ (u : UrlCrate) where
  default-IsValid : IsValid u default_config
  unfolding validate_port validate_non_empty blank trim trim_start trim_end is_whitespace
      validate_positive validate_repository_reference contains find starts_with strip_prefix
      check_url is_transport authority_of text_eq validate_duration parse_duration read_duration
      split_last multiplier seconds_of parse_unsigned parse_digits validate_snapshot_policy
      is_policy checked
  default-IsValid = (
    refl,
    (
      refl,
      (
        refl,
        (
          refl,
          (
            refl,
            (
              refl,
              (
                refl,
                (
                  refl,
                  (
                    refl,
                    (
                      refl,
                      (
                        refl,
                        (refl, (refl, (refl, (refl, (refl, (refl, (refl, (refl, (refl, tt))))))))),
                      ),
                    ),
                  ),
                ),
              ),
            ),
          ),
        ),
      ),
    ),
  )

  -- A check of the defaults can take the place of another configuration's.
  restored :
      (n : ℕ) (rs : List Check)
      → All Passes rs
      → All Passes (replace n (at n (checks u default_config)) rs)
  restored n rs v =
      renew n (at n (checks u default_config)) rs
        (Passes-at n (checks u default_config) default-IsValid) v

  unset-IsValid : (c : Config) (k : Key) → IsValid u c → IsValid u (unset c k)
  unfolding unset
  unset-IsValid c pve_url v =
      restored 3 (replace 2 (at 2 (checks u default_config)) (checks u c))
        (restored 2 (checks u c) v)
  unset-IsValid c pve_token_id v = restored 4 (checks u c) v
  unset-IsValid c pve_token_secret v = restored 5 (checks u c) v
  unset-IsValid c pve_tls_insecure v = v
  unset-IsValid c pve_node v = restored 8 (checks u c) v
  unset-IsValid c pve_storage v = restored 9 (checks u c) v
  unset-IsValid c pve_template_storage v = restored 10 (checks u c) v
  unset-IsValid c pve_bridge v = restored 11 (checks u c) v
  unset-IsValid c defaults_cores v = restored 12 (checks u c) v
  unset-IsValid c defaults_memory v = restored 13 (checks u c) v
  unset-IsValid c defaults_swap v = v
  unset-IsValid c defaults_disk v = restored 14 (checks u c) v
  unset-IsValid c defaults_unprivileged v = v
  unset-IsValid c defaults_onboot v = v
  unset-IsValid c images_default v = restored 15 (checks u c) v
  unset-IsValid c agent_binary v = restored 6 (checks u c) v
  unset-IsValid c agent_port v = restored 7 (checks u c) v
  unset-IsValid c relay_url v = restored 0 (checks u c) v
  unset-IsValid c relay_key_file v = restored 1 (checks u c) v
  unset-IsValid c recipes_repository v = restored 16 (checks u c) v
  unset-IsValid c recipes_ref v = restored 17 (checks u c) v
  unset-IsValid c recipes_auto_sync v = v
  unset-IsValid c recipes_sync_ttl v = restored 18 (checks u c) v
  unset-IsValid c recipes_snapshot v = restored 19 (checks u c) v
  unset-IsValid c recipes_rollback v = v
  unset-IsValid c vmid_key v = v

  pub validate_sound : (c : Config) → validate u c ≡ ok tt → IsValid u c
  unfolding validate
  validate_sound c h = all_ok_sound (checks u c) h

  pub validate_complete : (c : Config) → IsValid u c → validate u c ≡ ok tt
  unfolding validate
  validate_complete c v = all_ok_complete (checks u c) v

  -- A successful `set_value` on a valid configuration leaves a valid one, if a relay key file that it
  -- sets is not blank: that is the one check of `validate` that `set_value` leaves out.
  pub set_value-validate :
      (c c' : Config) (k : Key) (key value : Text)
      → key_of key ≡ some k
      → Fits u k value
      → validate u c ≡ ok tt
      → set_value u c key value ≡ ok c'
      → validate u c' ≡ ok tt
  unfolding set_value
  set_value-validate c c' k key value known fits h e =
      validate_complete c' (set-IsValid u c c' k value fits (validate_sound c h) (ground arith))

  -- `unset_value` on a valid configuration succeeds for a known key and leaves a valid one.
  pub unset_value-validate :
      (c : Config) (k : Key) (key : Text)
      → key_of key ≡ some k
      → validate u c ≡ ok tt
      → (c' : Config) × (unset_value c key ≡ ok c') × (validate u c' ≡ ok tt)
  unfolding unset_value
  unset_value-validate c k key known h = (
    unset c k,
    ground arith,
    validate_complete (unset c k) (unset-IsValid c k (validate_sound c h)),
  )

  -- The default configuration is valid.
  pub default-validate : validate u default_config ≡ ok tt
  default-validate = validate_complete default_config default-IsValid
