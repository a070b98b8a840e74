-- ===== src/Packer/Size/Cost.antt =====
-- Bounds of `tp_estimate_entry_cost`.
use tarpack.Prelude.{ℕ, ◌+◌, ◌%◌, ◌≤◌, ◌<◌, ◌≡◌, arith}
use tarpack.Packer.Size.{estimate_entry_cost, int64_max}

-- The estimate is a whole number of 512-byte blocks, it leaves at least the header, the data and
-- the pax allowance, it wastes less than one block, and it does not fall when the size grows.
pub estimate_entry_cost_bounds :
    (size larger : ℕ)
    → size ≤ larger
    → (estimate_entry_cost size % 512 ≡ 0)
      × (size + 2048 ≤ estimate_entry_cost size)
      × (estimate_entry_cost size < size + 2560)
      × (estimate_entry_cost size ≤ estimate_entry_cost larger)
unfolding estimate_entry_cost
estimate_entry_cost_bounds size larger h = (omega arith, omega arith, omega arith, omega arith)

-- The signed sums do not overflow for sizes of at most 2^63 - 2561.
pub estimate_entry_cost-le-int64_max :
    (size : ℕ) → size + 2560 ≤ int64_max → estimate_entry_cost size ≤ int64_max
unfolding estimate_entry_cost
estimate_entry_cost-le-int64_max size h = omega arith
