-- ===== src/Id/Tests.antt =====
-- Runs of id.rs on concrete texts, the source's own tests among them.
use pbox.Base.{
  ◌≡◌, refl, ◌++◌, ◌%◌, codes, replicate, true, false, ok, err, starts_with, All, arith,
}
use pbox.Id.{
  invalid_prefix, invalid_length, invalid_character, prefix, in_alphabet, check_characters, parse,
}
use pbox.Id.Laws.{Passes, parse_wide_character}

parse_ok : parse (codes "pbx_t3yzd9y3") ≡ ok (record { value = codes "pbx_t3yzd9y3" })
unfolding parse starts_with check_characters in_alphabet
parse_ok = refl

parse_bad_prefix : parse (codes "box_t3yzd9y3") ≡ err invalid_prefix
unfolding parse starts_with
parse_bad_prefix = refl

parse_short : parse (codes "pbx_t3yzd9y") ≡ err invalid_length
unfolding parse starts_with
parse_short = refl

parse_long : parse (codes "pbx_t3yzd9y3!") ≡ err invalid_length
unfolding parse starts_with
parse_long = refl

parse_upper : parse (codes "pbx_T3yzd9y3") ≡ err (invalid_character b'T')
unfolding parse starts_with check_characters in_alphabet
parse_upper = refl

low_byte : in_alphabet (0x130 % 256) ≡ true
unfolding in_alphabet
low_byte = refl

passes : All Passes (codes "t3yzd9y3")
unfolding in_alphabet
passes = (refl, (refl, (refl, (refl, (refl, (refl, (refl, (refl, tt))))))))

-- U+0130, whose low byte is the digit zero.
parse_wide_character_example :
    (in_alphabet 0x130 ≡ false)
    × (parse (prefix ++ replicate 8 0x130) ≡ ok (record { value = prefix ++ replicate 8 0x130 }))
parse_wide_character_example = parse_wide_character 0x130 (omega arith) low_byte
