-- ===== src/Cli/Snapshots/Tests.antt =====
-- Names, descriptions and networks of snapshots.
use pbox.Base.{
  any, arith, ℕ, ◌≡◌, refl, true, none, some, List, [], ◌∷◌, ◌++◌, Text, codes, text_eq,
  starts_with, strip_prefix, split, split_once, Result, ok, err, All,
}
use pbox.Cli.Snapshots.{
  ClusterResource, LxcConfig, container, collect, inventory, find_saved, SavedEnvironment,
  SnapshotError, bad_name, duplicate_metadata, is_snapshot_name, validate_name, lines, marked,
  saved_description, parse_saved, is_interface, fresh_field, fresh_fields, fresh_interface,
  fresh_secondary_networks,
}
use pbox.Cli.Snapshots.Finding.{IsOnly, is_at, find_saved-IsOnly}
use pbox.Cli.Snapshots.Saved.{parse_saved-saved_description}
use pbox.Cli.Snapshots.Networks.{is_fresh, fresh_interface-fresh}

abbrev saved : SavedEnvironment
saved = record {
  ready = true;
  id = codes "psn_1";
  name = codes "base";
  node = codes "pve";
  vmid = 100;
  source = codes "pbx_12345678";
  image = none;
  created = codes "now";
  bootstrap_id = codes "pbx_abcdefgh";
  recipes = [];
  capabilities = [];
}

reserved : validate_name (codes "psn_1") ≡ err bad_name
unfolding validate_name is_snapshot_name starts_with strip_prefix
reserved = refl

written_twice :
    parse_saved
      (λ t. some saved)
      (codes "pbox-snapshot-v1 {}" ++ (10 ∷ codes "pbox-snapshot-v1 {}"))
    ≡ err duplicate_metadata
unfolding parse_saved lines split marked strip_prefix
written_twice = refl

second_interface :
    fresh_secondary_networks (
      (codes "net1", some (codes "name=eth1,bridge=vmbr0,hwaddr=AA:BB,ip=10.0.0.5/24,gw=10.0.0.1"))
      ∷ [])
    ≡ ok ((codes "net1", codes "name=eth1,bridge=vmbr0,ip=dhcp") ∷ [])
unfolding fresh_secondary_networks is_interface strip_prefix fresh_interface fresh_fields
    fresh_field split split_once text_eq
second_interface = refl

parse_saved-saved_description_example :
    parse_saved (λ t. some saved) (saved_description (λ s. codes "{}") saved) ≡ ok (some saved)
parse_saved-saved_description_example =
    parse_saved-saved_description (λ s. codes "{}") (λ t. some saved) saved
      ((λ e. absurd (omega arith)), ((λ e. absurd (omega arith)), tt)) refl

fresh_interface-fresh_example :
    All (λ f. is_fresh f ≡ true) (split b',' (fresh_interface (codes "name=eth1,hwaddr=AA:BB")))
    × (fresh_interface (fresh_interface (codes "name=eth1,hwaddr=AA:BB"))
        ≡ fresh_interface (codes "name=eth1,hwaddr=AA:BB"))
fresh_interface-fresh_example = fresh_interface-fresh (codes "name=eth1,hwaddr=AA:BB")

abbrev place : ClusterResource
place = record { resource_type = codes "lxc"; node = some (codes "pve"); vmid = some 100 }

abbrev notes : Text → ℕ → Result SnapshotError LxcConfig
notes node vmid = ok (record { description = some (codes "pbox-snapshot-v1 {}"); template = true })

base_found : find_saved (λ t. some saved) notes (place ∷ []) (codes "base") ≡ ok saved
unfolding find_saved inventory collect parse_saved lines split marked strip_prefix text_eq
base_found = refl

find_saved-IsOnly_example :
    (all : List SavedEnvironment) × (inventory (λ t. some saved) notes (place ∷ []) ≡ ok all)
    × IsOnly (codes "base") all saved
    × (any (λ r. is_at saved (container r)) (place ∷ []) ≡ true)
find_saved-IsOnly_example =
    find_saved-IsOnly (λ t. some saved) notes (place ∷ []) (codes "base") saved base_found
