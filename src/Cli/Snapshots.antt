-- ===== src/Cli/Snapshots.antt =====
-- crates/pbox-cli/src/snapshots.rs: the names of saved environments, their descriptions in the notes of
-- a container, the search among them, and the networks of a container that is made from one. JSON is a
-- parameter, and so are the replies of PVE.
pub mod Saved
pub mod Finding
pub mod Networks
mod Tests
use pbox.Base.{
  ℕ, ◌+◌, ◌-◌, ◌≡◌, Bool, true, false, not, ◌&&◌, ◌||◌, ◌==◌, ltb, leb, if◌then◌else◌, Option, none,
  some, List, [], ◌∷◌, ◌++◌, map, Text, codes, text_eq, text_lt, starts_with, strip_prefix,
  is_empty, is_digit, is_alphanumeric, all, any, length, split, split_once, join, Result, ok, err,
  ◌>>=◌, ◌>>◌, fail_if, ok_or,
}
use pbox.Metadata.{PboxRecipeProvenance}

pub record SavedEnvironment : Type 0 where
  pub ready : Bool
  pub id : Text
  pub name : Text
  pub node : Text
  pub vmid : ℕ
  pub source : Text
  pub image : Option Text
  pub created : Text
  pub bootstrap_id : Text
  pub recipes : List PboxRecipeProvenance
  pub capabilities : List Text

pub data SnapshotError : Type 0 where
  bad_name duplicate_metadata unreadable wrong_location not_found ambiguous bad_network :
      SnapshotError
  request_failed : SnapshotError

unfoldable pub is_snapshot_name : Text → Bool
is_snapshot_name name =
    not (is_empty name)
    && (leb (length name) 63
        && (all (λ b. is_alphanumeric b || (b == b'-' || b == b'_')) name
            && not (starts_with (codes "psn_") name)))

unfoldable pub validate_name : Text → Result SnapshotError (Unit {0})
validate_name name = fail_if (not (is_snapshot_name name)) bad_name

abbrev pub snapshot_marker : Text
snapshot_marker = codes "pbox-snapshot-v1 "

abbrev pub introduction : Text
introduction = codes "Independent pbox saved environment."

-- `str::lines`: the parts between line feeds, each without a carriage return at its end, and the last
-- as it is, where it is not empty.
abbrev without_return : Text → Text
without_return [] = []
without_return (c ∷ []) = if c == 13 then [] else c ∷ []
without_return (c ∷ d ∷ line) = c ∷ without_return (d ∷ line)

abbrev pub trimmed_lines : List Text → List Text
trimmed_lines [] = []
trimmed_lines (line ∷ []) = if is_empty line then [] else line ∷ []
trimmed_lines (line ∷ next ∷ rest) = without_return line ∷ trimmed_lines (next ∷ rest)

unfoldable pub lines : Text → List Text
lines text = trimmed_lines (split 10 text)

abbrev pub keep_marked : Option Text → List Text → List Text
keep_marked none rest = rest
keep_marked (some payload) rest = payload ∷ rest

unfoldable pub marked : List Text → List Text
marked [] = []
marked (line ∷ rest) = keep_marked (strip_prefix snapshot_marker line) (marked rest)

unfoldable pub saved_description : (SavedEnvironment → Text) → SavedEnvironment → Text
saved_description to_string saved = introduction ++ (10 ∷ (snapshot_marker ++ to_string saved))

module _ (from_str : Text → Option SavedEnvironment) where
  abbrev pub read_marked : List Text → Result SnapshotError (Option SavedEnvironment)
  read_marked [] = ok none
  read_marked (line ∷ []) = do saved ← ok_or (from_str line) unreadable; ok (some saved)
  read_marked (line ∷ next ∷ rest) = err duplicate_metadata

  unfoldable pub parse_saved : Text → Result SnapshotError (Option SavedEnvironment)
  parse_saved description = read_marked (marked (lines description))

-- A resource of the cluster, and what its configuration says.
pub record ClusterResource : Type 0 where
  pub resource_type : Text
  pub node : Option Text
  pub vmid : Option ℕ

pub record LxcConfig : Type 0 where
  pub description : Option Text
  pub template : Bool

-- The order of the inventory: by name, and then by ID.
unfoldable pub saved_lt : SavedEnvironment → SavedEnvironment → Bool
saved_lt a b = text_lt a.name b.name || (text_eq a.name b.name && text_lt a.id b.id)

abbrev pub insert_saved : SavedEnvironment → List SavedEnvironment → List SavedEnvironment
insert_saved saved [] = saved ∷ []
insert_saved saved (other ∷ rest) =
    let after = insert_saved saved rest in
    if saved_lt other saved then other ∷ after else saved ∷ other ∷ rest

abbrev pub sort_saved : List SavedEnvironment → List SavedEnvironment
sort_saved [] = []
sort_saved (saved ∷ rest) = insert_saved saved (sort_saved rest)

abbrev located : ClusterResource → Option (Text × ℕ)
located resource = elim resource.node [
  | none ↦ none
  | some node ↦ elim resource.vmid [ none ↦ none | some vmid ↦ some (node, vmid) ]
]

abbrev pub container : ClusterResource → Option (Text × ℕ)
container resource = if text_eq resource.resource_type (codes "lxc") then located resource else none

abbrev or_empty : Option Text → Text
or_empty none = []
or_empty (some text) = text

abbrev pub matches : Text → SavedEnvironment → Bool
matches reference saved = text_eq saved.id reference || text_eq saved.name reference

abbrev pub matching : Text → List SavedEnvironment → List SavedEnvironment
matching reference [] = []
matching reference (saved ∷ rest) =
    let others = matching reference rest in
    if matches reference saved then saved ∷ others else others

abbrev pub only : List SavedEnvironment → Result SnapshotError SavedEnvironment
only [] = err not_found
only (saved ∷ []) = ok saved
only (saved ∷ other ∷ rest) = err ambiguous

module _ (from_str : Text → Option SavedEnvironment)
    (get_lxc_config : Text → ℕ → Result SnapshotError LxcConfig) where
  -- A saved environment must be where its metadata says.
  abbrev pub checked_location :
      Text → ℕ → Bool → Option SavedEnvironment → Result SnapshotError (List SavedEnvironment)
  checked_location node vmid template none = ok []
  checked_location node vmid template (some saved) = do
    fail_if (not (saved.vmid == vmid && text_eq saved.node node)) wrong_location
    ok (record saved { ready = template } ∷ [])

  abbrev pub saved_in : Option (Text × ℕ) → Result SnapshotError (List SavedEnvironment)
  saved_in none = ok []
  saved_in (some (node, vmid)) = do
    config ← get_lxc_config node vmid
    saved ← parse_saved from_str (or_empty config.description)
    checked_location node vmid config.template saved

  unfoldable pub collect : List ClusterResource → Result SnapshotError (List SavedEnvironment)
  collect [] = ok []
  collect (resource ∷ resources) = do
    found ← saved_in (container resource)
    rest ← collect resources
    ok (found ++ rest)

  unfoldable pub inventory : List ClusterResource → Result SnapshotError (List SavedEnvironment)
  inventory resources = do saved ← collect resources; ok (sort_saved saved)

  unfoldable pub find_saved : List ClusterResource → Text → Result SnapshotError SavedEnvironment
  find_saved resources reference = do saved ← inventory resources; only (matching reference saved)

-- What becomes of a field of a network interface, `name=value`.
abbrev pub changed_field : Text → Option (Text × Text) → Option Text
changed_field field none = none
changed_field field (some (name, value)) =
    if text_eq name (codes "hwaddr") || (text_eq name (codes "gw") || text_eq name (codes "gw6"))
    then none
    else if text_eq name (codes "ip") && not (text_eq value (codes "manual"))
    then some (codes "ip=dhcp")
    else if text_eq name (codes "ip6") && not (text_eq value (codes "manual"))
    then some (codes "ip6=auto")
    else some field

unfoldable pub fresh_field : Text → Option Text
fresh_field field = changed_field field (split_once b'=' field)

abbrev pub keep_some : Option Text → List Text → List Text
keep_some none rest = rest
keep_some (some field) rest = field ∷ rest

unfoldable pub fresh_fields : List Text → List Text
fresh_fields [] = []
fresh_fields (field ∷ fields) = keep_some (fresh_field field) (fresh_fields fields)

unfoldable pub fresh_interface : Text → Text
fresh_interface value = join (b',' ∷ []) (fresh_fields (split b',' value))

abbrev numbered : Option Text → Bool
numbered none = false
numbered (some n) = not (is_empty n) && all is_digit n

unfoldable pub is_interface : Text → Bool
is_interface key = numbered (strip_prefix (codes "net") key)

-- The other entries of the configuration, in the order of their keys; a value that is no string is
-- `none`.
unfoldable pub fresh_secondary_networks :
    List (Text × Option Text) → Result SnapshotError (List (Text × Text))
fresh_secondary_networks [] = ok []
fresh_secondary_networks ((key, value) ∷ extra) =
    let rest = fresh_secondary_networks extra in
    if is_interface key
    then (do value ← ok_or value bad_network; rest ← rest; ok ((key, fresh_interface value) ∷ rest))
    else rest
