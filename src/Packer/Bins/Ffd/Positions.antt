-- ===== src/Packer/Bins/Ffd/Positions.antt =====
-- Loads and members at the items' own positions are those of the visit.
use tarpack.Prelude.{
  ℕ, suc, ◌+◌, ◌<◌, ◌≡◌, refl, ap, ◌∙◌, List, [], ◌∷◌, arith, ◌==◌, if◌then◌else◌, length, get_or,
  All, All-get_or, sym,
}
use mathlib.Core.List.{Perm, Mem, Nodup, mem-cons_self, mem-cons_of_mem}
use mathlib.Core.List.Perm
use native.Mathlib.Nat.{zero-add}
use tarpack.Packer.Bins.{BinItem, members, load}
use tarpack.Packer.Bins.Laws.{HasCost}
use tarpack.Packer.Bins.Ffd.{no_item, cost_at, range_from}
use tarpack.Packer.Bins.Ffd.Totals.{
  visited, write_all, length-write_all, sum_over, sum_over-perm, weigh, share, weigh-sum_over,
  mem-range_from, Nodup-range_from, sum_range-members, sum_range-load,
}

members-weigh :
    (b : ℕ) (order bs : List ℕ)
    → length bs ≡ length order
    → members b bs ≡ weigh (λ _. 1) b order bs
unfolding members weigh
members-weigh b [] [] e = refl
members-weigh b [] (c ∷ bs) e = absurd (omega arith)
members-weigh b (i ∷ order) [] e = refl
members-weigh b (i ∷ order) (c ∷ bs) e =
    ap (λ t. (if c == b then 1 else 0) + t) (members-weigh b order bs (omega arith))

load-weigh :
    (b : ℕ) (items : List BinItem) (order bs : List ℕ)
    → load b (visited items order) bs ≡ weigh (cost_at items) b order bs
unfolding load weigh visited cost_at
load-weigh b items [] bs = refl
load-weigh b items (i ∷ order) [] = refl
load-weigh b items (i ∷ order) (c ∷ bs) =
    ap (λ t. (if c == b then (get_or items i no_item).cost else 0) + t)
      (load-weigh b items order bs)

pub length-visited :
    (items : List BinItem) (order : List ℕ) → length (visited items order) ≡ length order
unfolding visited
length-visited items [] = refl
length-visited items (i ∷ order) = ap suc (length-visited items order)

pub visited-HasCost :
    (items : List BinItem) (order : List ℕ)
    → All HasCost items
    → ((i : ℕ) → Mem i order → i < length items)
    → All HasCost (visited items order)
unfolding visited
visited-HasCost items [] has bound = tt
visited-HasCost items (i ∷ order) has bound = (
  All-get_or HasCost items i no_item has (bound i mem-cons_self),
  visited-HasCost items order has (λ j m. bound j (mem-cons_of_mem i m)),
)

pub order_bound :
    (items : List BinItem) (order : List ℕ)
    → Perm order (range_from 0 (length items))
    → (i : ℕ) → Mem i order
    → i < length items
order_bound items order p i m =
    omega (arith, (mem-range_from 0 (length items) i ((Perm.mem_iff p).0 m)).1)

module _ (items : List BinItem) (order bs out : List ℕ)
    (p : Perm order (range_from 0 (length items))) (written : length out ≡ length items)
    (same : length bs ≡ length order) where
  order-Nodup : Nodup order
  order-Nodup = Perm.nodup (Perm.symm p) (Nodup-range_from 0 (length items))

  to_positions :
      (g : ℕ → ℕ) (b : ℕ)
      → weigh g b order bs
        ≡ sum_over
            (share g b (write_all out order bs))
            (range_from 0 (length (write_all out order bs)))
  to_positions g b =
      let len : length (write_all out order bs) ≡ length items =
        length-write_all out order bs ∙ written in
      weigh-sum_over g b out order bs order-Nodup
        (λ i m. rw written (order_bound items order p i m)) same
      ∙ (rw len (sum_over-perm _ p))

  pub members_written : (b : ℕ) → members b (write_all out order bs) ≡ members b bs
  members_written b =
      let w = write_all out order bs in
      sym (sum_range-members b (share (λ _. 1) b w) 0 w (λ j lt. rw zero-add))
      ∙ (sym (to_positions (λ _. 1) b) ∙ sym (members-weigh b order bs same))

  pub load_written :
      (b : ℕ) → load b items (write_all out order bs) ≡ load b (visited items order) bs
  load_written b =
      let w = write_all out order bs in
      let len : length w ≡ length items = length-write_all out order bs ∙ written in
      sym (
        sum_range-load b (share (cost_at items) b w) 0 items w len
          (λ j lt. unfold cost_at in rw zero-add))
      ∙ (sym (to_positions (cost_at items) b) ∙ sym (load-weigh b items order bs))
