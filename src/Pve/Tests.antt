-- ===== src/Pve/Tests.antt =====
-- A query, a path, a task and two interfaces.
use pbox.Base.{
  ◌≡◌, refl, true, none, some, List, [], ◌∷◌, ◌++◌, codes, text_eq, split, Without, arith, show,
  show_digits, parse_digits, starts_with, strip_prefix, ok,
}
use pbox.Pve.{
  is_reserved, bad_segment, validate_path_segment, lxc_status_path, is_plain, hex_digit,
  encode_byte, encode_query_component, is_successful, LxcInterface, parse_octet, octets, parse_ipv4,
  is_unusable, usable_address, candidate, key_le, smaller, smallest, select_lxc_ipv4,
}
use pbox.Pve.Segments.{IsSegment, with_slashes, without_breaks, lxc_status_path-IsSegment}
use pbox.Pve.Selection.Usable.{IsUsable, IsBest, select_lxc_ipv4-IsBest}

encoded : encode_query_component (codes "a b&c") ≡ codes "a%20b%26c"
unfolding encode_query_component encode_byte is_plain hex_digit
encoded = refl

path_run :
    lxc_status_path (codes "pve1") 9001 (codes "start")
    ≡ ok (codes "/nodes/pve1/lxc/9001/status/start")
unfolding lxc_status_path validate_path_segment bad_segment is_reserved text_eq show show_digits
path_run = refl

lxc_status_path-IsSegment_example :
    IsSegment (codes "pve1")
    × IsSegment (codes "start")
    × Without b'?' (codes "/nodes/pve1/lxc/9001/status/start")
    × Without b'#' (codes "/nodes/pve1/lxc/9001/status/start")
    × (split b'/' (with_slashes (without_breaks (codes "/nodes/pve1/lxc/9001/status/start")))
        ≡ []
          ∷ codes "nodes"
          ∷ codes "pve1"
          ∷ codes "lxc"
          ∷ show 9001
          ∷ codes "status"
          ∷ codes "start"
          ∷ [])
lxc_status_path-IsSegment_example =
    lxc_status_path-IsSegment (codes "pve1") 9001 (codes "start")
      (codes "/nodes/pve1/lxc/9001/status/start") (omega arith) (omega arith) path_run

-- A tab hides a step up: the check lets it pass, and a URL parser drops it.
tab_passes : validate_path_segment (b'.' ∷ 9 ∷ b'.' ∷ []) (codes "node") ≡ ok tt
unfolding validate_path_segment bad_segment is_reserved text_eq
tab_passes = refl

tab_dropped : without_breaks (b'.' ∷ 9 ∷ b'.' ∷ []) ≡ codes ".."
tab_dropped = refl

warned : is_successful (codes "stopped") (some (codes "WARNINGS: 1")) ≡ true
unfolding is_successful text_eq starts_with strip_prefix
warned = refl

abbrev interfaces : List LxcInterface
interfaces =
    record {
      name = some (codes "lo");
      active = none;
      exists_ = none;
      inet = some (codes "127.0.0.1/8");
    }
    ∷ record {
      name = some (codes "docker0");
      active = none;
      exists_ = none;
      inet = some (codes "10.0.0.1/16");
    }
    ∷ record {
      name = some (codes "eth0");
      active = some 1;
      exists_ = none;
      inet = some (codes "192.168.1.7/24");
    }
    ∷ []

picked : select_lxc_ipv4 interfaces ≡ some (192, 168, 1, 7)
unfolding select_lxc_ipv4 smallest candidate usable_address split parse_ipv4 octets parse_octet
    parse_digits is_unusable smaller key_le text_eq
picked = refl

select_lxc_ipv4-IsBest_example :
    (i : LxcInterface) × (front : List LxcInterface) × (back : List LxcInterface) × (interfaces
      ≡ front ++ i ∷ back)
    × IsUsable i (192, 168, 1, 7)
    × IsBest i (192, 168, 1, 7) interfaces
select_lxc_ipv4-IsBest_example = select_lxc_ipv4-IsBest interfaces (192, 168, 1, 7) picked
