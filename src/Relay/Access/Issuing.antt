-- ===== src/Relay/Access/Issuing.antt =====
-- Who is issued credentials.
use pbox.Base.{
  ℕ, ◌<◌, ◌≤◌, ◌≡◌, ◌↔◌, refl, ap, ◌⊎◌, inl, inr, true, Option, none, some, List, [], ◌∷◌, Text,
  codes, text_eq_iff, starts_with, any, ltb, Option-cases, Bool-cases, Result, ok, err,
  Result-cases, arith,
}
use pbox.Relay.Token.{Crypto}
use pbox.Relay.Access.{
  Settings, Certificates, Credentials, Resource, PveReply, answered, unreachable, granted, lookup,
  api_token, is_visible, resources_url, decode_reply, issue_checks, issue, issue_credentials,
  respond,
}

-- One of the listed resources is a container or a machine with the VMID.
abbrev pub Shows : ℕ → List Resource → Type 0
Shows vmid [] = ⊥
Shows vmid (r ∷ rs) =
    ((r.vmid ≡ some vmid) × ((r.kind ≡ codes "lxc") ⊎ (r.kind ≡ codes "qemu"))) ⊎ Shows vmid rs

is_visible_sound :
    (vmid : ℕ) (r : Resource)
    → is_visible vmid r ≡ true
    → (r.vmid ≡ some vmid) × ((r.kind ≡ codes "lxc") ⊎ (r.kind ≡ codes "qemu"))
unfolding is_visible
is_visible_sound vmid r h =
    ground (arith, text_eq_iff r.kind (codes "lxc"), text_eq_iff r.kind (codes "qemu"))

is_visible_complete :
    (vmid : ℕ) (r : Resource)
    → r.vmid ≡ some vmid
    → (r.kind ≡ codes "lxc") ⊎ (r.kind ≡ codes "qemu")
    → is_visible vmid r ≡ true
unfolding is_visible
is_visible_complete vmid r e k =
    ground (arith, text_eq_iff r.kind (codes "lxc"), text_eq_iff r.kind (codes "qemu"))

any-Shows : (vmid : ℕ) (rs : List Resource) → any (is_visible vmid) rs ≡ true → Shows vmid rs
any-Shows vmid [] h = cc
any-Shows vmid (r ∷ rs) h = elim (Bool-cases (is_visible vmid r)) [
  | inl seen ↦ inl (is_visible_sound vmid r seen)
  | inr hidden ↦ inr (any-Shows vmid rs (ground arith))
]

Shows-any : (vmid : ℕ) (rs : List Resource) → Shows vmid rs → any (is_visible vmid) rs ≡ true
Shows-any vmid [] s = absurd s
Shows-any vmid (r ∷ rs) (inl (e, k)) = ground (arith, is_visible_complete vmid r e k)
Shows-any vmid (r ∷ rs) (inr s) = ground (arith, Shows-any vmid rs s)

module _ (c : Crypto) (p : Certificates) (pve : Text → Text → PveReply) where
  -- Why credentials are issued: the box is enrolled, the caller sent an API token, a slot is free, and
  -- PVE, asked with that token, answered with success and listed the VM that the box is bound to.
  abbrev pub Entitled : Settings → Text → Text → Text → Option Text → ℕ → ℕ → Credentials → Type 0
  Entitled settings master authority id authorization free now cr =
      (vmid : ℕ) × (token : Text) × (code : ℕ) × (listed : List Resource) × (lookup id
          settings.boxes
        ≡ some vmid)
      × (authorization ≡ some token)
      × (starts_with (codes "PVEAPIToken=") token ≡ true)
      × (0 < free)
      × (pve (resources_url settings.pve_url) token ≡ answered code (some listed))
      × (200 ≤ code)
      × (code ≤ 299)
      × Shows vmid listed
      × (issue_credentials c p master authority id now ≡ ok cr)

  decode_sound :
      (r : PveReply) (listed : List Resource)
      → decode_reply r ≡ ok listed
      → (code : ℕ) × (r ≡ answered code (some listed)) × (200 ≤ code) × (code ≤ 299)
  unfolding decode_reply
  decode_sound unreachable listed h = absurd (ground arith)
  decode_sound (answered code none) listed h = absurd (ground arith)
  decode_sound (answered code (some rs)) listed h = (code, ground arith, ground arith, ground arith)

  decode_complete :
      (code : ℕ) (listed : List Resource)
      → 200 ≤ code
      → code ≤ 299
      → decode_reply (answered code (some listed)) ≡ ok listed
  unfolding decode_reply
  decode_complete code listed low high = ground arith

  token_sound :
      (a : Option Text) (token : Text)
      → api_token a ≡ some token
      → (a ≡ some token) × (starts_with (codes "PVEAPIToken=") token ≡ true)
  token_sound none token h = cc
  token_sound (some value) token h = ground arith

  checks_sound :
      (settings : Settings) (master authority id : Text) (authorization : Option Text)
      (free now : ℕ) (cr : Credentials)
      → issue_checks c p pve settings master authority id authorization free now ≡ ok cr
      → Entitled settings master authority id authorization free now cr
  unfolding issue_checks
  checks_sound settings master authority id authorization free now cr h =
      elim (Option-cases (lookup id settings.boxes)) [
        | inl e ↦ absurd (ground arith)
        | inr (vmid, e) ↦ elim (Option-cases (api_token authorization)) [
          | inl e' ↦ absurd (ground arith)
          | inr (token, e') ↦
              elim (Result-cases (decode_reply (pve (resources_url settings.pve_url) token))) [
                | inr (code, e'') ↦ absurd (ground arith)
                | inl (listed, e'') ↦
                    let heard =
                      decode_sound (pve (resources_url settings.pve_url) token) listed e'' in
                    let sent = token_sound authorization token e' in
                    (
                      vmid,
                      token,
                      heard.0,
                      listed,
                      e,
                      sent.0,
                      sent.1,
                      ground arith,
                      heard.1,
                      heard.2,
                      heard.3,
                      any-Shows vmid listed (ground arith),
                      ground arith,
                    )
              ]
        ]
      ]

  checks_complete :
      (settings : Settings) (master authority id : Text) (authorization : Option Text)
      (free now : ℕ) (cr : Credentials)
      → Entitled settings master authority id authorization free now cr
      → issue_checks c p pve settings master authority id authorization free now ≡ ok cr
  unfolding issue_checks
  checks_complete settings master authority id authorization free now cr
        (vmid, token, code, listed, e, sent, prefix, slot, reply, low, high, shown, made) =
      let visible = Shows-any vmid listed shown in
      let decoded = decode_complete code listed low high in
      let vacant : ltb 0 free ≡ true = ground arith in
      rw (e, sent, prefix, vacant, reply, decoded, visible, made) refl

  granted_sound : (r : Result ℕ Credentials) (cr : Credentials) → respond r ≡ granted cr → r ≡ ok cr
  granted_sound (ok x) cr h = ground arith
  granted_sound (err x) cr h = absurd (ground arith)

  -- Credentials are issued exactly where the settings bind the box to a VMID, the caller sent a PVE API
  -- token, a slot is free, PVE answered the request with that token with success and a list that has a
  -- container or a machine of that VMID, and the credentials for the box and the time can be made; they
  -- are those.
  pub issue_iff :
      (settings : Settings) (master authority id : Text) (authorization : Option Text)
      (free now : ℕ) (cr : Credentials)
      → (issue c p pve settings master authority id authorization free now ≡ granted cr)
        ↔ Entitled settings master authority id authorization free now cr
  unfolding issue
  issue_iff settings master authority id authorization free now cr = (
    (λ h. checks_sound settings master authority id authorization free now cr (
        granted_sound (issue_checks c p pve settings master authority id authorization free now) cr
          h)),
    (λ entitled.
        ap respond
          (checks_complete settings master authority id authorization free now cr entitled)),
  )
