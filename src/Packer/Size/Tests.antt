-- ===== src/Packer/Size/Tests.antt =====
-- Runs and instances for src/packer.c's size functions; the runs are those of
-- tests/unit/test_binpack.c.
use tarpack.Prelude.{◌≡◌, refl, none, some, codes, ◌*◌, inl, ◌++◌, arith}
use tarpack.Packer.Size.Parse.{Accepted, parse_size_sound, parse_size_complete}
use tarpack.Packer.Size.Digits.{value}
use tarpack.Packer.Size.Suffix.{gibi}
use tarpack.Packer.Size.{parse_size, estimate_entry_cost}

sizes :
    (parse_size (codes "1024") ≡ some 1024)
    × (parse_size (codes "10k") ≡ some 10240)
    × (parse_size (codes "50G") ≡ some 53687091200)
    × (parse_size (codes "0") ≡ some 0)
unfolding parse_size
sizes = (refl, refl, refl, refl)

refusals :
    (parse_size (codes "") ≡ none)
    × (parse_size (codes "K") ≡ none)
    × (parse_size (codes "-5") ≡ none)
    × (parse_size (codes "10T") ≡ none)
    × (parse_size (codes "9223372036854775808") ≡ none)
unfolding parse_size
refusals = (refl, refl, refl, refl, refl)

costs : (estimate_entry_cost 0 ≡ 2048) × (estimate_entry_cost 513 ≡ 3072)
unfolding estimate_entry_cost
costs = (refl, refl)

ten_k : parse_size (codes "10k") ≡ some 10240
unfolding parse_size
ten_k = refl

parse_size_sound_example : Accepted (codes "10k") 10240
parse_size_sound_example = parse_size_sound (codes "10k") 10240 ten_k

parse_size_complete_example :
    parse_size (codes "50" ++ codes "G") ≡ some (value 0 (codes "50") * 1073741824)
unfolding value
parse_size_complete_example =
    parse_size_complete (codes "50") (codes "G") 1073741824 (cc) (omega arith)
      (gibi b'G' (inl refl)) (omega arith)
