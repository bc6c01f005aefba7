-- ===== src/Relay/Access/Tests.antt =====
-- Credentials issued for one box over a concrete code, and the settings that bind it.
use pbox.Base.{
  ◌≡◌, ◌≢◌, ◌↔◌, ◌≤◌, ◌<◌, refl, true, not, some, none, List, [], ◌∷◌, ◌++◌, Text, codes, length,
  text_eq, all, starts_with, Without, ◌==◌, ok, ℤ, ◌⊎◌, pos, show_i64, show, show_digits, arith,
}
use pbox.Relay.Route.{UrlCrate, valid_box_id}
use pbox.Relay.Token.Pairing.{pairing, pairing-IsHex}
use pbox.Relay.Token.{scoped_token, message, Collides}
use pbox.Relay.Access.{
  Settings, Issuer, router, validate_authority, Certificates, Credentials, Resource, PveReply,
  answered, granted, check_boxes, validate, trusted_origin, issue_credentials, issue_checks, issue,
  authorised, is_visible, decode_reply, lookup, client_role, expiring_id,
}
use pbox.Relay.Access.Expiry.{signature_of, authorised_one_box, issued_window}
use pbox.Relay.Access.Binding.{router-IsSafe}
use pbox.Relay.Access.Issuing.{Entitled, issue_iff}

-- A certificate that names its authority.
abbrev papers : Certificates
papers = record {
  generate_ca =
      λ context master. some (record { certificate_pem = context; private_key_pem = master });
  issue_client = λ authority name.
      some (record { certificate_pem = authority.certificate_pem; private_key_pem = name });
}

abbrev master : Text
master = codes "key"

abbrev authority : Text
authority = codes "root"

abbrev box_id : Text
box_id = codes "pbx_12345678"

abbrev credentials : Credentials
credentials = record {
  ca_pem = codes "pbox-relay-authority-v2/" ++ box_id;
  certificate_pem = codes "pbox-relay-authority-v2/" ++ box_id;
  private_key_pem = codes "pbox.cwd.dev/pve-visible";
  relay_token = codes "v2.1300." ++ signature_of pairing master box_id 1300;
  expires_at = 1300;
}

issued : issue_credentials pairing papers master authority box_id 1000 ≡ ok credentials
unfolding issue_credentials show_i64 show show_digits
issued = refl

dotless : (t : Text) → all (λ d. not (d == b'.')) t ≡ true → Without b'.' t
dotless [] h = tt
dotless (d ∷ t) h = ((λ e. ground arith), dotless t (ground arith))

slashless : (t : Text) → all (λ d. not (d == b'/')) t ≡ true → Without b'/' t
slashless [] h = tt
slashless (d ∷ t) h = ((λ e. ground arith), slashless t (ground arith))

signature_dotless : all (λ d. not (d == b'.')) (signature_of pairing master box_id 1300) ≡ true
unfolding scoped_token show_i64 show show_digits
signature_dotless = refl

issued_window_example :
    (authorised pairing master box_id credentials.relay_token (pos 1200) ≡ true)
    ↔ ((1000 ≤ 1200) × (1200 < 1300))
issued_window_example =
    issued_window pairing master papers authority box_id 1000 1200 credentials pairing-IsHex
      (dotless (signature_of pairing master box_id 1300) signature_dotless) (omega arith)
      (omega arith) issued

accepted : authorised pairing master box_id credentials.relay_token (pos 1200) ≡ true
accepted = issued_window_example.1 (omega arith, omega arith)

authorised_one_box_example :
    (box_id ≡ box_id)
    ⊎ ((expiry : ℤ) × (expiry' : ℤ) × Collides pairing master
          (message client_role (expiring_id box_id expiry))
          master
          (message client_role (expiring_id box_id expiry')))
authorised_one_box_example =
    authorised_one_box pairing master box_id box_id credentials.relay_token (pos 1200) (pos 1200)
      (slashless box_id refl) (slashless box_id refl) accepted accepted

abbrev settings : Settings
settings = record {
  pve_url = codes "https://pve/";
  boxes = (box_id, 9001) ∷ (codes "pbx_abcdefgh", 9002) ∷ [];
}

abbrev listed : List Resource
listed =
    record { vmid = some 9002; kind = codes "lxc" }
    ∷ record { vmid = some 9001; kind = codes "qemu" }
    ∷ []

abbrev caller : Text
caller = codes "PVEAPIToken=me@pve!t=s"

abbrev pve : Text → Text → PveReply
pve url token = answered 200 (some listed)

granted_run :
    issue pairing papers pve settings master authority box_id (some caller) 3 1000
    ≡ granted credentials
unfolding issue issue_checks starts_with decode_reply is_visible text_eq issue_credentials show_i64
    show show_digits
granted_run = refl

issue_iff_example :
    Entitled pairing papers pve settings master authority box_id (some caller) 3 1000 credentials
issue_iff_example =
    (issue_iff pairing papers pve settings master authority box_id (some caller) 3 1000
        credentials).0
      granted_run

-- Every text is the URL of an https origin.
abbrev origins : UrlCrate
origins = record {
  Url = Text;
  parse = λ t. some t;
  scheme = λ t. codes "https";
  host_str = λ t. some t;
  username = λ t. [];
  password = λ t. none;
  query = λ t. none;
  fragment = λ t. none;
  path = λ t. [];
  set_scheme = λ s t. some t;
  set_path = λ p t. t ++ p;
  to_string = λ t. t;
}

found : lookup box_id settings.boxes ≡ some 9001
unfolding text_eq
found = refl

abbrev relay_key : Text
relay_key = codes "0123456789abcdef0123456789abcdef"

abbrev authority_key : Text
authority_key = codes "fedcba9876543210fedcba9876543210"

abbrev issuer : Issuer
issuer = record { settings = settings; master = relay_key; authority = authority_key; slots = 32 }

issuer_starts : router origins settings relay_key authority_key ≡ ok issuer
unfolding router validate validate_authority trusted_origin check_boxes valid_box_id starts_with
    text_eq
issuer_starts = refl

router-IsSafe_example :
    (authority_key ≢ relay_key)
    × (32 ≤ length relay_key)
    × (32 ≤ length authority_key)
    × (box_id ≡ box_id)
    × (valid_box_id box_id ≡ true)
    × (0 < 9001)
router-IsSafe_example =
    router-IsSafe origins settings relay_key authority_key issuer box_id box_id 9001 issuer_starts
      found found
