-- ===== src/Packer/Bins/NextFit/Tests.antt =====
-- Runs and instances for the next-fit assignment.
use tarpack.Packer.Bins.NextFit.Overflow.{assign_next_fit_overflow}
use tarpack.Prelude.{ℕ, ◌+◌, ◌*◌, ◌≤◌, ◌≡◌, refl, some, List, [], ◌∷◌, arith, ◌^◌, ◌<◌}
use tarpack.Packer.Bins.{BinItem, IsPacking, Runs, total, load}
use tarpack.Packer.Bins.NextFit.{assign_next_fit, exceeds, add_int64}
use tarpack.Packer.Bins.NextFit.Capacity.{assign_next_fit-IsPacking}
use tarpack.Packer.Bins.NextFit.Count.{assign_next_fit_count}

abbrev item : ℕ → BinItem
item c = record { id = 0; cost = c }

abbrev costs : List BinItem
costs = item 30 ∷ item 60 ∷ item 200 ∷ item 50 ∷ item 40 ∷ item 20 ∷ []

next_fit_run : assign_next_fit costs 100 ≡ some (4, 0 ∷ 0 ∷ 1 ∷ 2 ∷ 2 ∷ 3 ∷ [])
unfolding assign_next_fit exceeds add_int64
next_fit_run = refl

assign_next_fit_overflow_example :
    (assign_next_fit (item (2 ^ 62) ∷ item (2 ^ 62) ∷ []) (2 ^ 62) ≡ some (1, 0 ∷ 0 ∷ []))
    × (2 ^ 62 < load 0 (item (2 ^ 62) ∷ item (2 ^ 62) ∷ []) (0 ∷ 0 ∷ []))
assign_next_fit_overflow_example =
    assign_next_fit_overflow (item (2 ^ 62)) (item (2 ^ 62)) (2 ^ 62) (omega arith) (omega arith)
      (omega arith) (omega arith)

assign_next_fit-IsPacking_example :
    (n : ℕ) × (bins : List ℕ) × (assign_next_fit costs 100 ≡ some (n, bins))
    × IsPacking 100 n costs bins
    × Runs 0 bins
assign_next_fit-IsPacking_example = assign_next_fit-IsPacking costs 100 (omega arith) (omega arith)

assign_next_fit_count_example : 4 * 100 ≤ 2 * total costs + 100
assign_next_fit_count_example =
    assign_next_fit_count costs 100 4 (0 ∷ 0 ∷ 1 ∷ 2 ∷ 2 ∷ 3 ∷ []) next_fit_run
