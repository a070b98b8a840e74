-- ===== src/Packer/Bins.antt =====
-- The bin assignment of src/packer.c: the items, and what an assignment of items to bins amounts to.
pub mod Laws
pub mod NextFit
pub mod Ffd
use tarpack.Prelude.{ℕ, ◌+◌, List, [], ◌∷◌, ◌==◌, if◌then◌else◌, length, ◌≡◌, ◌≤◌, ◌⊎◌, ◌<◌}

-- `struct tp_bin_item`; a cost comes from `tp_estimate_entry_cost` and is not negative.
pub record BinItem : Type 0 where
  pub id : ℕ
  pub cost : ℕ

-- The items that stand in bin `b`.
unfoldable pub members : ℕ → List ℕ → ℕ
members b [] = 0
members b (c ∷ bins) = (if c == b then 1 else 0) + members b bins

-- The sum of the costs in bin `b`; the lists are the parallel arrays `items` and `bin_out`.
unfoldable pub load : ℕ → List BinItem → List ℕ → ℕ
load b (i ∷ items) (c ∷ bins) = (if c == b then i.cost else 0) + load b items bins
load b _ _ = 0

unfoldable pub total : List BinItem → ℕ
total [] = 0
total (i ∷ items) = i.cost + total items

-- What both algorithms promise of `n` bins for `items` under `target`: every item has a bin, every
-- bin has an item, and a bin is over the target only if it is a single item.
pub record IsPacking (target n : ℕ) (items : List BinItem) (bins : List ℕ) : Type 0 where
  pub each_item : length bins ≡ length items
  pub in_range : (b : ℕ) → n ≤ b → members b bins ≡ 0
  pub no_empty : (b : ℕ) → b < n → 1 ≤ members b bins
  pub capacity : (b : ℕ) → b < n → (load b items bins ≤ target) ⊎ (members b bins ≡ 1)

-- Each bin is a run of neighbours: an item goes to the newest bin or opens the next one. `next` is
-- the number of bins that are open.
abbrev pub Runs : ℕ → List ℕ → Type 0
Runs next [] = Unit
Runs next (b ∷ bins) = ((b + 1 ≡ next) ⊎ (b ≡ next)) × Runs (b + 1) bins
