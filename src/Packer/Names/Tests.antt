-- ===== src/Packer/Names/Tests.antt =====
-- Runs on names, and the applications of the theorems about them.
use tarpack.Packer.Names.{
  after_prefix, is_space, skip_spaces, is_decimal, scan_digits, scan_number, scan_signed,
  scan_ulong, scan_word, pack_number, best_of, best_number, next_pack_number, decimal, padded,
  pack_name,
}
use tarpack.Packer.Names.Numbers.{archive_name, pack_number-archive_name}
use tarpack.Packer.Names.Fresh.{next_pack_number-fresh, next_pack_number-seven}
use tarpack.Prelude.{
  ◌≡◌, ◌≢◌, refl, List, some, none, [], ◌∷◌, arith, str_eq, Bytes, codes, get_elem?,
}

abbrev two_packs : List Bytes
two_packs = codes "pack-000007.tar.zst" ∷ codes "pack-000007.json" ∷ []

number_of_text : pack_number (codes "pack-000007.tar.zst") ≡ some 7
unfolding pack_number after_prefix scan_ulong skip_spaces is_space scan_signed scan_number
    scan_digits is_decimal scan_word str_eq
number_of_text = refl

no_number : pack_number (codes "pack-000007.tar.zst.part") ≡ none
unfolding pack_number after_prefix scan_ulong skip_spaces is_space scan_signed scan_number
    scan_digits is_decimal scan_word str_eq
no_number = refl

printed : pack_name 42 ≡ codes "pack-000042"
unfolding pack_name padded decimal
printed = refl

after_seven : next_pack_number (some two_packs) ≡ 8
unfolding pack_number after_prefix scan_ulong skip_spaces is_space scan_signed scan_number
    scan_digits is_decimal scan_word str_eq best_of best_number next_pack_number
after_seven = refl

pack_number-archive_name_example : pack_number (archive_name 42) ≡ some 42
pack_number-archive_name_example = pack_number-archive_name 42 (omega arith)

next_pack_number-fresh_example : get_elem? two_packs 0 ≢ some (archive_name 9)
next_pack_number-fresh_example =
    next_pack_number-fresh two_packs 0 9 (omega (arith, after_seven)) (omega (arith, after_seven))
      (omega arith)

next_pack_number-seven_example :
    next_pack_number (some (archive_name 1000000 ∷ two_packs)) ≡ next_pack_number (some two_packs)
next_pack_number-seven_example =
    next_pack_number-seven 1000000 two_packs (omega arith) (omega arith)
