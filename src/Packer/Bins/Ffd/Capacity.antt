-- ===== src/Packer/Bins/Ffd/Capacity.antt =====
-- The first-fit decreasing assignment is a packing of the items at their own positions.
use tarpack.Prelude.{
  ℕ, suc, ◌<◌, ◌≡◌, refl, ◌∙◌, some, List, [], ◌∷◌, arith, ◌==◌, if◌then◌else◌, length, get_or, All,
  true, set, Option,
}
use mathlib.Core.List.{Perm}
use tarpack.Packer.Bins.{BinItem, members, IsPacking}
use tarpack.Packer.Bins.Laws.{HasCost}
use tarpack.Packer.Bins.Ffd.{
  Memory, BinRemArray, no_item, no_bins, cost_at, place, loop, range_from, result, ffd_sort_indices,
  assign_ffd,
}
use tarpack.Packer.Bins.Ffd.Insertion.{ffd_sort_indices-IsSorted}
use tarpack.Packer.Bins.Ffd.Placements.{placements}
use tarpack.Packer.Bins.Ffd.Fits.{placements-IsPacking, placements_total}
use tarpack.Packer.Bins.Ffd.Totals.{visited, write_all, length-write_all}
use tarpack.Packer.Bins.Ffd.Fits.{placements-cons}
use tarpack.Packer.Bins.Ffd.Positions.{
  length-visited, visited-HasCost, order_bound, members_written, load_written,
}

loop_step :
    (m : Memory) (target : ℕ) (items : List BinItem) (idx : ℕ) (order : List ℕ) (a a' : BinRemArray)
    (out : List ℕ) (b : ℕ)
    → place m target a (cost_at items idx) ≡ some (a', b)
    → loop m target items (idx ∷ order) a out ≡ loop m target items order a' (set out idx b)
unfolding loop
loop_step m target items idx order a a' out b placed = rw (placed, loop)

-- The loop writes what it chooses.
loop-placements :
    (m : Memory) (target : ℕ) (items : List BinItem) (order : List ℕ) (a z : BinRemArray)
    (out bs : List ℕ)
    → placements m target (visited items order) a ≡ some (z, bs)
    → loop m target items order a out ≡ some (z, write_all out order bs)
unfolding loop visited write_all
loop-placements m target items [] a z out bs h = unfold placements write_all in ground arith
loop-placements m target items (idx ∷ order) a z out bs h =
    let (a', chosen, bs', placed, rest, e) =
      placements-cons m target (get_or items idx no_item) (visited items order) a z bs h in
    let ih = loop-placements m target items order a' z (set out idx chosen) bs' rest in
    rw e (loop_step m target items idx order a a' out chosen (unfold cost_at in placed) ∙ ih)

module _ (m : Memory) (items : List BinItem) (target : ℕ) (bin_out : List ℕ) where
  abbrev order_of : List ℕ
  order_of = ffd_sort_indices m items (range_from 0 (length items))

  sorted_perm : Perm order_of (range_from 0 (length items))
  sorted_perm = (ffd_sort_indices-IsSorted items m (range_from 0 (length items))).0

  IsPacking-written :
      (n : ℕ) (bs : List ℕ)
      → length bin_out ≡ length items
      → IsPacking target n (visited items order_of) bs
      → IsPacking target n items (write_all bin_out order_of bs)
  IsPacking-written n bs written v =
      let same = v.each_item ∙ length-visited items order_of in
      let members_eq = members_written items order_of bs bin_out sorted_perm written same in
      let load_eq = load_written items order_of bs bin_out sorted_perm written same in
      record {
        each_item = length-write_all bin_out order_of bs ∙ written;
        in_range = λ b h. members_eq b ∙ v.in_range b h;
        no_empty = λ b h. rw (members_eq b) (v.no_empty b h);
        capacity = λ b h. rw (members_eq b) (rw (load_eq b) (v.capacity b h));
      }

  assign_loop :
      0 < target
      → m.has_order ≡ true
      → assign_ffd m items target bin_out ≡ (
          if length items == 0
          then some (0, bin_out)
          else result (loop m target items order_of no_bins bin_out))
  assign_loop pos has = unfold assign_ffd in ground arith

nonempty_result :
    (o : Option (ℕ × List ℕ)) (n : ℕ) (r : Option (BinRemArray × List ℕ)) (z : BinRemArray × List ℕ)
    → r ≡ some z
    → (if suc n == 0 then o else result r) ≡ some (length (z.0).rem, z.1)
unfolding result
nonempty_result o n r z e = ground arith

-- With memory, a positive target, an array `bin_out` as long as `items`, and items that each cost
-- something, `tp_bin_assign_ffd` returns, and the bins that it leaves in `bin_out` are a packing;
-- whether the sort gets its scratch memory does not matter.
pub assign_ffd-IsPacking :
    (m : Memory) (items : List BinItem) (target : ℕ) (bin_out : List ℕ)
    → 0 < target
    → m.has_order ≡ true
    → ((c : ℕ) → m.grows c ≡ true)
    → length bin_out ≡ length items
    → All HasCost items
    → (n : ℕ) × (bins : List ℕ) × (assign_ffd m items target bin_out ≡ some (n, bins))
      × IsPacking target n items bins
assign_ffd-IsPacking m [] target [] pos has grows written cost = (
  0,
  [],
  assign_loop m [] target [] pos has,
  record {
    each_item = refl;
    in_range = λ b h. unfold members in refl;
    no_empty = λ b h. absurd (omega arith);
    capacity = λ b h. absurd (omega arith);
  },
)
assign_ffd-IsPacking m [] target (x ∷ bin_out) pos has grows written cost = absurd (omega arith)
assign_ffd-IsPacking m (i ∷ is) target bin_out pos has grows written cost =
    let items = i ∷ is in
    let order = order_of m items target bin_out in
    let perm = sorted_perm m items target bin_out in
    let (z, bs, chosen) = placements_total m target grows (visited items order) no_bins in
    let costs = visited-HasCost items order cost (order_bound items order perm) in
    let done = loop-placements m target items order no_bins z bin_out bs chosen in
    (
      length z.rem,
      write_all bin_out order bs,
      assign_loop m items target bin_out pos has ∙ nonempty_result _ (length is) _ _ done,
      IsPacking-written m items target bin_out (length z.rem) bs written
          (placements-IsPacking m target (visited items order) z bs costs chosen),
    )
