-- ===== src/Packer/Bins/Ffd/Tests.antt =====
-- Runs and instances for the first-fit decreasing assignment.
use tarpack.Packer.Bins.Ffd.Insertion.{ffd_sort_indices-IsSorted}
use tarpack.Prelude.{true, ◌∷◌, false, ◌≡◌, refl, arith}
use tarpack.Packer.Bins.{BinItem, ℕ, List, ◌∷◌, [], IsPacking}
use tarpack.Packer.Bins.Ffd.{
  Memory, assign_ffd, some, ffd_sort_indices, bin_rem_push, first_room, pushed, place, loop,
  range_from, result, cost_at, cmp_le, cmp_lt,
}
use mathlib.Core.List.{Perm}
use tarpack.Packer.Bins.Ffd.Sort.{IsSorted}
use tarpack.Packer.Bins.Ffd.Capacity.{assign_ffd-IsPacking}

abbrev item : ℕ → BinItem
item c = record { id = 0; cost = c }

abbrev plenty : Memory
plenty = record { has_order = true; has_tmp = λ s. true; grows = λ c. true }

abbrev low : Memory
low = record { has_order = true; has_tmp = λ s. false; grows = λ c. true }

abbrev costs : List BinItem
costs = item 30 ∷ item 60 ∷ item 200 ∷ item 50 ∷ item 40 ∷ []

-- With and without memory for `tmp`.
ffd_run :
    (assign_ffd plenty costs 100 (0 ∷ 0 ∷ 0 ∷ 0 ∷ 0 ∷ []) ≡ some (3, 2 ∷ 1 ∷ 0 ∷ 2 ∷ 1 ∷ []))
    × (assign_ffd low costs 100 (0 ∷ 0 ∷ 0 ∷ 0 ∷ 0 ∷ []) ≡ some (3, 2 ∷ 1 ∷ 0 ∷ 2 ∷ 1 ∷ []))
unfolding assign_ffd ffd_sort_indices bin_rem_push first_room pushed place loop range_from result
    cost_at cmp_le cmp_lt
ffd_run = (refl, refl)

assign_ffd-IsPacking_example :
    (n : ℕ) × (bins : List ℕ) × (assign_ffd low costs 100 (0 ∷ 0 ∷ 0 ∷ 0 ∷ 0 ∷ []) ≡ some (n, bins))
    × IsPacking 100 n costs bins
assign_ffd-IsPacking_example =
    assign_ffd-IsPacking low costs 100 (0 ∷ 0 ∷ 0 ∷ 0 ∷ 0 ∷ []) (omega arith) refl (λ c. refl) refl
      (omega arith)

ffd_sort_indices-IsSorted_example :
    Perm (ffd_sort_indices low costs (0 ∷ 1 ∷ 2 ∷ [])) (0 ∷ 1 ∷ 2 ∷ [])
    × IsSorted costs (ffd_sort_indices low costs (0 ∷ 1 ∷ 2 ∷ []))
ffd_sort_indices-IsSorted_example = ffd_sort_indices-IsSorted costs low (0 ∷ 1 ∷ 2 ∷ [])
