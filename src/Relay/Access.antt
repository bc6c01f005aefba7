-- ===== src/Relay/Access.antt =====
-- crates/pbox-relay/src/access.rs: credentials for one enrolled box, issued to who can see its VM in
-- PVE. A text is its bytes, and the time is the argument `now`, in seconds. The crates hmac and hex
-- are `c : Crypto`, url is `u : UrlCrate`, and the certificates of pbox-crypto are `p : Certificates`.
-- A request to PVE is the reply that comes back.
pub mod Expiry
pub mod Issuing
pub mod Binding
mod Tests
use pbox.Base.{
  ℕ, ◌+◌, ◌<◌, ◌≤◌, ◌≡◌, Bool, true, false, not, ◌&&◌, ◌||◌, Option, none, some, List, [], ◌∷◌,
  ◌++◌, Text, codes, text_eq, starts_with, is_empty, split, ltb, leb, ◌==◌, if◌then◌else◌, length,
  any, Result, ok, err, ◌>>=◌, ◌>>◌, guard, fail_if, ok_or, ℤ, pos, leℤ, saturating_add, parse_i64,
  show_i64,
}
use pbox.Relay.Route.{UrlCrate, is_some, valid_box_id, beyond_origin}
use pbox.Relay.Token
use pbox.Relay.Token.{Crypto, scoped_token}

-- The bindings, in the order of the map's keys.
pub record Settings : Type 0 where
  pub pve_url : Text
  pub boxes : List (Text × ℕ)

pub data AccessError : Type 0 where
  bad_url untrusted_origin bad_binding short_key short_authority same_key no_certificate :
      AccessError

abbrev lookup : Text → List (Text × ℕ) → Option ℕ
lookup key [] = none
lookup key ((id, vmid) ∷ boxes) = if text_eq id key then some vmid else lookup key boxes

-- `VMIDs.insert` fails on a VMID that is in the set.
pub check_boxes : List ℕ → List (Text × ℕ) → Result AccessError (Unit {0})
check_boxes vmids [] = ok tt
check_boxes vmids ((id, vmid) ∷ boxes) = do
  guard (valid_box_id id && ltb 0 vmid && not (any (λ v. v == vmid) vmids)) bad_binding
  check_boxes (vmid ∷ vmids) boxes

module _ (u : UrlCrate) where
  unfoldable pub trusted_origin : u.Url → Bool
  trusted_origin url =
      text_eq (u.scheme url) (codes "https")
      && is_some (u.host_str url)
      && is_empty (u.username url)
      && not (is_some (u.password url))
      && not (is_some (u.query url))
      && not (is_some (u.fragment url))
      && (is_empty (u.path url) || text_eq (u.path url) (codes "/"))

  pub validate : Settings → Result AccessError (Unit {0})
  validate s = do
    url ← ok_or (u.parse s.pve_url) bad_url
    guard (trusted_origin url) untrusted_origin
    check_boxes [] s.boxes

-- Legacy clients can hold the relay key, so it must not sign new identities.
pub validate_authority : Text → Text → Result AccessError (Unit {0})
validate_authority master authority = do
  guard (leb 32 (length authority)) short_authority
  guard (not (text_eq authority master)) same_key
  ok tt

-- The issuer's parts that the handler uses: it starts with 32 slots.
pub record Issuer : Type 0 where
  pub settings : Settings
  pub master : Text
  pub authority : Text
  pub slots : ℕ

module _ (u : UrlCrate) where
  pub router : Settings → Text → Text → Result AccessError Issuer
  unfolding validate
  router settings master authority = do
    validate u settings
    guard (leb 32 (length master)) short_key
    validate_authority master authority
    ok (record { settings = settings; master = master; authority = authority; slots = 32 })

pub record Credentials : Type 0 where
  pub ca_pem : Text
  pub certificate_pem : Text
  pub private_key_pem : Text
  pub relay_token : Text
  pub expires_at : ℕ

-- A certificate and its private key, as PEM texts.
pub record Material : Type 0 where
  pub certificate_pem : Text
  pub private_key_pem : Text

-- `generate_context_ca(derive_context_seed(…))` and `issue_certificate` of pbox-crypto.
pub record Certificates : Type 0 where
  pub generate_ca : Text → Text → Option Material
  pub issue_client : Material → Text → Option Material

abbrev pub client_role : Text
client_role = codes "client-expiring"

abbrev pub expiring_id : Text → ℤ → Text
expiring_id id expiry = id ++ (codes "/" ++ show_i64 expiry)

module _ (c : Crypto) where
  abbrev pub relay_token_of : Text → Text → ℕ → Text
  relay_token_of master id expires_at =
      codes "v2."
      ++ (show_i64 (pos expires_at)
          ++ (codes "." ++ scoped_token c master client_role (expiring_id id (pos expires_at))))

module _ (c : Crypto) (p : Certificates) where
  ca : Text → Text → Option Material
  ca master id = p.generate_ca (codes "pbox-relay-authority-v2/" ++ id) master

  pub issue_credentials : Text → Text → Text → ℕ → Result AccessError Credentials
  unfolding ca
  issue_credentials master authority id now = do
    authority ← ok_or (ca authority id) no_certificate
    identity ← ok_or (p.issue_client authority (codes "pbox.cwd.dev/pve-visible")) no_certificate
    ok (record {
      ca_pem = authority.certificate_pem;
      certificate_pem = identity.certificate_pem;
      private_key_pem = identity.private_key_pem;
      relay_token = relay_token_of c master id (now + 300);
      expires_at = now + 300;
    })

in_window : ℤ → ℤ → Bool
in_window expiry now = not (leℤ expiry now) && leℤ expiry (saturating_add now 300)

module _ (c : Crypto) where
  check_signature : Text → Text → ℤ → Text → Text → Bool
  check_signature master id now expiry_text signature = elim (parse_i64 expiry_text) [
    | none ↦ false
    | some expiry ↦
        if in_window expiry now
        then Token.authorised c master client_role (expiring_id id expiry) signature
        else false
  ]

  check_parts : Text → Text → ℤ → List Text → Bool
  check_parts master id now (version ∷ expiry ∷ signature ∷ []) =
      if text_eq version (codes "v2") then check_signature master id now expiry signature else false
  check_parts master id now _ = false

  pub authorised : Text → Text → Text → ℤ → Bool
  authorised master id token now = check_parts master id now (split b'.' token)

pub record Resource : Type 0 where
  pub vmid : Option ℕ
  pub kind : Text

-- What comes back from PVE: a status and, where the body decodes, its resources; or no response.
pub data PveReply : Type 0 where
  answered : ℕ → Option (List Resource) → PveReply
  unreachable : PveReply

pub data Response : Type 0 where
  granted : Credentials → Response
  status : ℕ → Response

-- `trim_end_matches('/')`: a slash is kept only in front of something that is kept.
abbrev keep_unless_slash : ℕ → Text → Text
keep_unless_slash ch [] = if ch == b'/' then [] else ch ∷ []
keep_unless_slash ch (d ∷ t) = ch ∷ d ∷ t

trim_end_slashes : Text → Text
trim_end_slashes [] = []
trim_end_slashes (ch ∷ t) = keep_unless_slash ch (trim_end_slashes t)

pub is_visible : ℕ → Resource → Bool
is_visible vmid r =
    elim r.vmid [ none ↦ false | some v ↦ v == vmid ]
    && (text_eq r.kind (codes "lxc") || text_eq r.kind (codes "qemu"))

-- `headers.get("authorization").filter(…)`.
abbrev api_token : Option Text → Option Text
api_token none = none
api_token (some value) = if starts_with (codes "PVEAPIToken=") value then some value else none

pub resources_url : Text → Text
resources_url pve_url = trim_end_slashes pve_url ++ codes "/api2/json/cluster/resources?type=vm"

-- The resources of a reply, or the status that answers it.
pub decode_reply : PveReply → Result ℕ (List Resource)
decode_reply unreachable = err 502
decode_reply (answered code body) =
    if leb 200 code && leb code 299
    then ok_or body 502
    else if code == 401 || code == 403
    then err 403
    else err 502

abbrev respond : Result ℕ Credentials → Response
respond (ok credentials) = granted credentials
respond (err code) = status code

abbrev or_500 : Result AccessError Credentials → Result ℕ Credentials
or_500 (ok credentials) = ok credentials
or_500 (err e) = err 500

-- The handler, with the number of free slots, PVE as a function of the URL and the credential, and
-- the time at which the credentials are made.
module _ (c : Crypto) (p : Certificates) (pve : Text → Text → PveReply) where
  issue_checks : Settings → Text → Text → Text → Option Text → ℕ → ℕ → Result ℕ Credentials
  issue_checks settings master authority id authorization free now = do
    vmid ← ok_or (lookup id settings.boxes) 403
    auth ← ok_or (api_token authorization) 401
    guard (ltb 0 free) 503
    resources ← decode_reply (pve (resources_url settings.pve_url) auth)
    guard (any (is_visible vmid) resources) 403
    or_500 (issue_credentials c p master authority id now)

  pub issue : Settings → Text → Text → Text → Option Text → ℕ → ℕ → Response
  unfolding issue_checks
  issue settings master authority id authorization free now =
      respond (issue_checks settings master authority id authorization free now)
