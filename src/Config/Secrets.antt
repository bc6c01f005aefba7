-- ===== src/Config/Secrets.antt =====
-- What the printed views of a configuration do not tell.
use pbox.Base.{
  ◌≡◌, refl, ap, ◌∙◌, inl, inr, ◌⊎◌, true, false, Option, none, some, [], ◌∷◌, Text, codes, text_eq,
  is_empty, Option-cases, Bool-cases, arith,
}
use pbox.Relay.Route.{UrlCrate, is_some}
use pbox.Config.{
  Config, key_of, Key, pve_url, pve_token_id, pve_token_secret, pve_tls_insecure, pve_node,
  pve_storage, pve_template_storage, pve_bridge, defaults_cores, defaults_memory, defaults_swap,
  defaults_disk, defaults_unprivileged, defaults_onboot, images_default, agent_binary, agent_port,
  relay_url, relay_key_file, recipes_repository, recipes_ref, recipes_auto_sync, recipes_sync_ttl,
  recipes_snapshot, recipes_rollback, vmid_key,
}
use pbox.Config.Values.{in_pve}
use pbox.Config.Redaction.{
  Setters, without_username, without_password, without_query, without_fragment, redact_url,
  redacted, redacted_pairs, get_redacted, IsClearing,
}

empty_nil : (t : Text) → is_empty t ≡ true → t ≡ []
empty_nil [] h = refl
empty_nil (c ∷ t) h = absurd (ground arith)

unset_none : {A : Type 0} (o : Option A) → is_some o ≡ false → o ≡ none
unset_none none h = refl
unset_none (some a) h = absurd (ground arith)

module _ (u : UrlCrate) (s : Setters u) where
  -- A URL without a user name, a password, a query and a fragment.
  abbrev pub IsBare : u.Url → Type 0
  IsBare url =
      (u.username url ≡ [])
      × (u.password url ≡ none)
      × (u.query url ≡ none)
      × (u.fragment url ≡ none)

  without_password-username :
      (url : u.Url) → IsClearing u s → u.username (without_password u s url) ≡ u.username url
  unfolding without_password
  without_password-username url k = elim (Bool-cases (is_some (u.password url))) [
    | inl e ↦ rw e (k.username_password url)
    | inr e ↦ rw e refl
  ]

  without_query-username :
      (url : u.Url) → IsClearing u s → u.username (without_query u s url) ≡ u.username url
  unfolding without_query
  without_query-username url k = elim (Bool-cases (is_some (u.query url))) [
    | inl e ↦ rw e (k.username_query url)
    | inr e ↦ rw e refl
  ]

  without_query-password :
      (url : u.Url) → IsClearing u s → u.password (without_query u s url) ≡ u.password url
  unfolding without_query
  without_query-password url k = elim (Bool-cases (is_some (u.query url))) [
    | inl e ↦ rw e (k.password_query url)
    | inr e ↦ rw e refl
  ]

  without_fragment-username :
      (url : u.Url) → IsClearing u s → u.username (without_fragment u s url) ≡ u.username url
  unfolding without_fragment
  without_fragment-username url k = elim (Bool-cases (is_some (u.fragment url))) [
    | inl e ↦ rw e (k.username_fragment url)
    | inr e ↦ rw e refl
  ]

  without_fragment-password :
      (url : u.Url) → IsClearing u s → u.password (without_fragment u s url) ≡ u.password url
  unfolding without_fragment
  without_fragment-password url k = elim (Bool-cases (is_some (u.fragment url))) [
    | inl e ↦ rw e (k.password_fragment url)
    | inr e ↦ rw e refl
  ]

  without_fragment-query :
      (url : u.Url) → IsClearing u s → u.query (without_fragment u s url) ≡ u.query url
  unfolding without_fragment
  without_fragment-query url k = elim (Bool-cases (is_some (u.fragment url))) [
    | inl e ↦ rw e (k.query_fragment url)
    | inr e ↦ rw e refl
  ]

  username_gone : (url : u.Url) → IsClearing u s → u.username (without_username u s url) ≡ []
  unfolding without_username
  username_gone url k = elim (Bool-cases (is_empty (u.username url))) [
    | inl e ↦ rw e (empty_nil (u.username url) e)
    | inr e ↦ rw e (k.cleared_username url)
  ]

  password_gone : (url : u.Url) → IsClearing u s → u.password (without_password u s url) ≡ none
  unfolding without_password
  password_gone url k = elim (Bool-cases (is_some (u.password url))) [
    | inl e ↦ rw e (k.cleared_password url)
    | inr e ↦ rw e (unset_none (u.password url) e)
  ]

  query_gone : (url : u.Url) → IsClearing u s → u.query (without_query u s url) ≡ none
  unfolding without_query
  query_gone url k = elim (Bool-cases (is_some (u.query url))) [
    | inl e ↦ rw e (k.cleared_query url)
    | inr e ↦ rw e (unset_none (u.query url) e)
  ]

  fragment_gone : (url : u.Url) → IsClearing u s → u.fragment (without_fragment u s url) ≡ none
  unfolding without_fragment
  fragment_gone url k = elim (Bool-cases (is_some (u.fragment url))) [
    | inl e ↦ rw e (k.cleared_fragment url)
    | inr e ↦ rw e (unset_none (u.fragment url) e)
  ]

  bare :
      (url : u.Url)
      → IsClearing u s
      → IsBare (
          without_fragment u s
            (without_query u s (without_password u s (without_username u s url))))
  bare url k =
      let u1 = without_username u s url in
      let u2 = without_password u s u1 in
      let u3 = without_query u s u2 in
      (
        without_fragment-username u3 k
            ∙ without_query-username u2 k
            ∙ without_password-username u1 k
            ∙ username_gone url k,
        without_fragment-password u3 k ∙ without_query-password u2 k ∙ password_gone u1 k,
        without_fragment-query u3 k ∙ query_gone u2 k,
        fragment_gone u3 k,
      )

  -- What is printed of the PVE URL is a placeholder, or the text of a URL without a user name, a password, a
  -- query and a fragment, given that the setters of the crate url clear their parts.
  pub redact_url-IsBare :
      (value t : Text)
      → IsClearing u s
      → redact_url u s (some value) ≡ some t
      → (t ≡ codes "<invalid>") ⊎ ((url : u.Url) × (t ≡ u.to_string url) × IsBare url)
  unfolding redact_url
  redact_url-IsBare value t k h = elim (Option-cases (u.parse value)) [
    | inl e ↦ inl (ground arith)
    | inr (url, e) ↦ inr (
      without_fragment u s (without_query u s (without_password u s (without_username u s url))),
      ground arith,
      bare url k,
    )
  ]

  abbrev pub with_secret : Text → Config → Config
  with_secret secret c = in_pve (record c.pve { token_secret = some secret }) c

  pair_hides :
      (c : Config) (secret secret' : Text) (k : Key)
      → redacted_pairs u s (with_secret secret c) k ≡ redacted_pairs u s (with_secret secret' c) k
  unfolding redacted_pairs
  pair_hides c secret secret' pve_url = refl
  pair_hides c secret secret' pve_token_id = refl
  pair_hides c secret secret' pve_token_secret = refl
  pair_hides c secret secret' pve_tls_insecure = refl
  pair_hides c secret secret' pve_node = refl
  pair_hides c secret secret' pve_storage = refl
  pair_hides c secret secret' pve_template_storage = refl
  pair_hides c secret secret' pve_bridge = refl
  pair_hides c secret secret' defaults_cores = refl
  pair_hides c secret secret' defaults_memory = refl
  pair_hides c secret secret' defaults_swap = refl
  pair_hides c secret secret' defaults_disk = refl
  pair_hides c secret secret' defaults_unprivileged = refl
  pair_hides c secret secret' defaults_onboot = refl
  pair_hides c secret secret' images_default = refl
  pair_hides c secret secret' agent_binary = refl
  pair_hides c secret secret' agent_port = refl
  pair_hides c secret secret' relay_url = refl
  pair_hides c secret secret' relay_key_file = refl
  pair_hides c secret secret' recipes_repository = refl
  pair_hides c secret secret' recipes_ref = refl
  pair_hides c secret secret' recipes_auto_sync = refl
  pair_hides c secret secret' recipes_sync_ttl = refl
  pair_hides c secret secret' recipes_snapshot = refl
  pair_hides c secret secret' recipes_rollback = refl
  pair_hides c secret secret' vmid_key = refl

  -- Neither view tells anything of the token's secret but that it is set: with another secret in the same
  -- configuration, the redacted configuration and the text of every key are the same.
  pub redacted_secret :
      (c : Config) (secret secret' key : Text)
      → (redacted u s (with_secret secret c) ≡ redacted u s (with_secret secret' c))
        × (get_redacted u s (with_secret secret c) key
            ≡ get_redacted u s (with_secret secret' c) key)
  unfolding redacted get_redacted key_of text_eq
  redacted_secret c secret secret' key = (
    refl,
    elim (Option-cases (key_of key)) [
      | inl e ↦ rw e refl
      | inr (k, e) ↦ rw e (ap some (pair_hides c secret secret' k))
    ],
  )
