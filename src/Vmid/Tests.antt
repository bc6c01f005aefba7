-- ===== src/Vmid/Tests.antt =====
-- Runs of vmid.rs on concrete patterns, the source's own tests among them.
use pbox.Base.{
  ℕ, ◌≡◌, refl, [], ◌∷◌, some, codes, Result, ok, err, checked, parse_unsigned, show, arith,
}
use pbox.Vmid.{
  VmidPattern, VmidError, parse, split_pattern, range_of, display, is_used, allocate_lowest,
  IsValid, invalid_pattern, overflow, exhausted, bad_start, bad_parts, bad_prefix, find_wildcard,
}
use pbox.Vmid.Display.{display-parse}
use pbox.Vmid.Allocation.{Ends, allocate_lowest-Ends}

abbrev nine_thousands : VmidPattern
nine_thousands = record { prefix = 9; wildcard_digits = 3; first = 9000; last = 9999 }

abbrev teens : VmidPattern
teens = record { prefix = 1; wildcard_digits = 1; first = 10; last = 19 }

parse_nine : parse (codes "9xxx") ≡ ok nine_thousands
unfolding parse split_pattern range_of bad_start bad_parts bad_prefix find_wildcard checked
    parse_unsigned
parse_nine = refl

parse_bad_tail : parse (codes "9xx9") ≡ err invalid_pattern
unfolding parse split_pattern bad_start bad_parts find_wildcard
parse_bad_tail = refl

parse_leading_zero : parse (codes "09xx") ≡ err invalid_pattern
unfolding parse split_pattern bad_start
parse_leading_zero = refl

parse_too_large : parse (codes "9xxxxxxxxxxxxxxxxxxxx") ≡ err overflow
unfolding parse split_pattern range_of bad_start bad_parts bad_prefix find_wildcard checked
    parse_unsigned
parse_too_large = refl

allocate_gap : allocate_lowest teens (12 ∷ 10 ∷ 11 ∷ []) ≡ some (ok 13)
unfolding allocate_lowest is_used
allocate_gap = refl

allocate_full :
    allocate_lowest teens (10 ∷ 11 ∷ 12 ∷ 13 ∷ 14 ∷ 15 ∷ 16 ∷ 17 ∷ 18 ∷ 19 ∷ [])
    ≡ some (err (exhausted (codes "1x")))
unfolding allocate_lowest is_used display show
allocate_full = refl

teens-IsValid : IsValid teens
teens-IsValid = record {
  positive = omega arith;
  wild = omega arith;
  starts = refl;
  ends = refl;
  in_u64 = omega arith;
  in_u32 = omega arith;
}

display-parse_example : display nine_thousands ≡ codes "9xxx"
display-parse_example = display-parse (codes "9xxx") nine_thousands parse_nine

allocate_lowest-Ends_example :
    (r : Result VmidError ℕ) × (allocate_lowest teens (12 ∷ 10 ∷ 11 ∷ []) ≡ some r)
    × Ends teens (12 ∷ 10 ∷ 11 ∷ []) 10 r
allocate_lowest-Ends_example = allocate_lowest-Ends teens (12 ∷ 10 ∷ 11 ∷ []) (omega arith)
