-- ===== src/Packer/Bins/Ffd.antt =====
-- `tp_bin_assign_ffd` of src/packer.c with its sort of the indices (`ffd_cmp_ctx_cost_desc`,
-- `ffd_sort_indices`) and its array of open bins (`bin_rem_push`).
pub mod Sort
pub mod Insertion
pub mod Placements
pub mod Fits
pub mod Totals
pub mod Positions
pub mod Capacity
mod Tests
use tarpack.Prelude.{
  Bool, Option, false, true, none, some, if◌then◌else◌, ◌∷◌, not, ltb, ◌/◌, ◌==◌, ◌+◌, ◌-◌, leb,
  ◌*◌, ◌++◌, zero, List, [], length, set, take, drop, get_or,
}
use mathlib.Core.List.{reverse}
use tarpack.Packer.Bins.{BinItem}
use Prim.Native.Nat.{Ordering, ℕ, suc}

abbrev pub no_item : BinItem
no_item = record { id = 0; cost = 0 }

-- `items[i].cost`
unfoldable pub cost_at : List BinItem → ℕ → ℕ
cost_at items i = (get_or items i no_item).cost

-- `ffd_cmp_ctx_cost_desc`: lt, eq and gt stand for -1, 0 and 1.
unfoldable pub ffd_cmp : List BinItem → ℕ → ℕ → Ordering
unfolding cost_at
ffd_cmp items ia ib =
    if not (cost_at items ia == cost_at items ib)
    then (if ltb (cost_at items ib) (cost_at items ia) then Ordering.lt else Ordering.gt)
    else if not (ia == ib)
    then (if ltb ia ib then Ordering.lt else Ordering.gt)
    else Ordering.eq

-- `ffd_cmp_ctx_cost_desc(&a, &b, items) <= 0`
unfoldable pub cmp_le : List BinItem → ℕ → ℕ → Bool
unfolding ffd_cmp
cmp_le items a b = elim (ffd_cmp items a b) [ Ordering.gt ↦ false | _ ↦ true ]

-- `ffd_cmp_ctx_cost_desc(&a, &b, items) < 0`
unfoldable pub cmp_lt : List BinItem → ℕ → ℕ → Bool
unfolding ffd_cmp
cmp_lt items a b = elim (ffd_cmp items a b) [ Ordering.lt ↦ true | _ ↦ false ]

-- The three merging loops: what they write to `tmp`.
unfoldable pub merge : List BinItem → List ℕ → List ℕ → List ℕ
merge items [] r = r
merge items (x ∷ l) [] = x ∷ l
merge items (x ∷ l) (y ∷ r) = elim (cmp_le items x y) [
  | true ↦ x ∷ merge items l (y ∷ r)
  | false ↦ y ∷ merge items (x ∷ l) r
]

-- The inner loop of the fallback: `key` moves left past larger elements. The sorted part of the
-- array is held from right to left.
unfoldable pub shift : List BinItem → ℕ → List ℕ → List ℕ
shift items key [] = key ∷ []
shift items key (p ∷ ps) = if cmp_lt items key p then p ∷ shift items key ps else key ∷ p ∷ ps

-- The outer loop of the fallback.
unfoldable pub insertion_sort : List BinItem → List ℕ → List ℕ → List ℕ
insertion_sort items sorted [] = reverse sorted
insertion_sort items sorted (key ∷ rest) = insertion_sort items (shift items key sorted) rest

-- Which allocations succeed. The calls of `ffd_sort_indices` work on different slices, so a
-- function of the slice stands for every pattern of failures of its `malloc`; `grows` is the
-- `realloc` of `bin_rem_push` at the new capacity.
pub record Memory : Type 0 where
  pub has_order : Bool
  pub has_tmp : List ℕ → Bool
  pub grows : ℕ → Bool

-- `ffd_sort_indices`, with fuel for the depth of the recursion.
unfoldable pub sort_fuel : ℕ → Memory → List BinItem → List ℕ → List ℕ
unfolding merge shift insertion_sort
sort_fuel zero m items order = order
sort_fuel (suc f) m items order =
    let mid = length order / 2 in
    let left = sort_fuel f m items (take mid order) in
    let right = sort_fuel f m items (drop mid order) in
    let whole = left ++ right in
    if ltb (length order) 2
    then order
    else if m.has_tmp whole
    then merge items left right
    else insertion_sort items [] whole

unfoldable pub ffd_sort_indices : Memory → List BinItem → List ℕ → List ℕ
unfolding sort_fuel
ffd_sort_indices m items order = sort_fuel (length order) m items order

-- `struct bin_rem_array`; `count` is the length of `rem`.
pub record BinRemArray : Type 0 where
  pub rem : List ℕ
  pub capacity : ℕ

abbrev pub no_bins : BinRemArray
no_bins = record { rem = []; capacity = 0 }

unfoldable pub bin_rem_push : Memory → BinRemArray → ℕ → Option BinRemArray
bin_rem_push m a r =
    if length a.rem == a.capacity
    then (let new_cap = if a.capacity == 0 then 8 else a.capacity * 2 in
        if m.grows new_cap
        then some (record { rem = a.rem ++ r ∷ []; capacity = new_cap })
        else none)
    else some (record a { rem = a.rem ++ r ∷ [] })

-- The search for the first bin with room; `b` is the index of the list's head.
unfoldable pub first_room : ℕ → ℕ → List ℕ → Option ℕ
first_room cost b [] = none
first_room cost b (r ∷ rem) =
    let rest = first_room cost (b + 1) rem in if leb cost r then some b else rest

unfoldable pub pushed : Option BinRemArray → Option (BinRemArray × ℕ)
pushed none = none
pushed (some a) = some (a, length a.rem - 1)

-- One round of the placing loop: the open bins behind it, and what is written to `bin_out[idx]`.
unfoldable pub place : Memory → ℕ → BinRemArray → ℕ → Option (BinRemArray × ℕ)
place m target a cost =
    if ltb target cost then pushed (bin_rem_push m a 0) else elim (first_room cost 0 a.rem) [
      | none ↦ pushed (bin_rem_push m a (target - cost))
      | some b ↦ some (record a { rem = set a.rem b (get_or a.rem b 0 - cost) }, b)
    ]

-- The placing loop over `order`; `bin_out` is the caller's array, written at the items' positions.
unfoldable pub loop :
    Memory → ℕ → List BinItem → List ℕ → BinRemArray → List ℕ → Option (BinRemArray × List ℕ)
loop m target items [] a bin_out = some (a, bin_out)
loop m target items (idx ∷ order) a bin_out = elim (place m target a (cost_at items idx)) [
  | none ↦ none
  | some (a', b) ↦ loop m target items order a' (set bin_out idx b)
]

-- 0, 1, …, n - 1, from `i` on.
unfoldable pub range_from : ℕ → ℕ → List ℕ
range_from i zero = []
range_from i (suc n) = i ∷ range_from (i + 1) n

unfoldable pub result : Option (BinRemArray × List ℕ) → Option (ℕ × List ℕ)
result none = none
result (some (a, bin_out)) = some (length a.rem, bin_out)

-- `none` is the return value -1; otherwise the number of bins and the array `bin_out`.
unfoldable pub assign_ffd : Memory → List BinItem → ℕ → List ℕ → Option (ℕ × List ℕ)
assign_ffd m items target bin_out =
    if target == 0
    then none
    else if length items == 0
    then some (0, bin_out)
    else if m.has_order
    then result (
        loop m target items (ffd_sort_indices m items (range_from 0 (length items))) no_bins
          bin_out)
    else none
