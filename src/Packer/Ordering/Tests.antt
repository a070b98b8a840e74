-- ===== src/Packer/Ordering/Tests.antt =====
-- Runs of the sort, and the application of its theorem.
use tarpack.Packer.Ordering.Subset.{subset-pick}
use tarpack.Packer.Ordering.{ordered, offsets_of, subset, bin_offsets, pick, bin_sizes, fill}
use tarpack.Prelude.{ℕ, ◌≡◌, refl, some, List, [], ◌∷◌, map, arith}
use tarpack.Packer.Ordering.Slices.{InRange}

-- Object 10 is in bin 1, 20 in bin 0, and so on.
abbrev assigned : List (ℕ × ℕ)
assigned = (10, 1) ∷ (20, 0) ∷ (30, 2) ∷ (40, 1) ∷ (50, 0) ∷ []

sorted : ordered 3 assigned ≡ some 20 ∷ some 50 ∷ some 10 ∷ some 40 ∷ some 30 ∷ []
unfolding ordered offsets_of bin_offsets bin_sizes fill
sorted = refl

offsets : offsets_of 3 assigned ≡ 0 ∷ 2 ∷ 4 ∷ []
unfolding offsets_of bin_offsets bin_sizes
offsets = refl

last_slice : subset 3 assigned 2 ≡ some 30 ∷ []
unfolding subset ordered offsets_of bin_offsets bin_sizes fill
last_slice = refl

assigned-InRange : InRange 3 assigned
assigned-InRange = (omega arith, (omega arith, (omega arith, (omega arith, (omega arith, tt)))))

subset-pick_example : subset 3 assigned 1 ≡ map some (pick 1 assigned)
subset-pick_example = subset-pick 3 assigned 1 assigned-InRange (omega arith)
