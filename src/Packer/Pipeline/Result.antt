-- ===== src/Packer/Pipeline/Result.antt =====
-- The theorems on the plan of a run.
use tarpack.Packer.Bins.{total, BinItem}
use tarpack.Packer.Pipeline.Classes.{All-select}
use tarpack.Packer.Pipeline.Packs.{assign-IsPacking, IsLimit}
use tarpack.Prelude.{
  ℕ, ◌<◌, ◌≡◌, refl, sym, ◌∙◌, subst, Bool, true, not, some, List, arith, length, take, drop,
  length-take, length-drop, some-same, ◌+◌, ◌*◌, ◌^◌, inl, inr, All,
}
use tarpack.Packer.Pipeline.{
  PackedObject, PackPlan, Algo, Memory, pack_plan, join_classes, select, items_from,
}
use tarpack.Packer.Pipeline.Plan.{
  IsPack, objects_of, parted, joined_plan, length-select, joined_objects, joined_InRange,
  joined-IsPack,
}
use tarpack.Packer.Ordering.Slices.{InRange}

module _ (algo : Algo) (m : Memory) (is_store : PackedObject → Bool) (target : ℕ)
    (objects : List PackedObject) (bin_out : List ℕ) where
  abbrev AreRuns : ℕ → PackPlan → Type 0
  AreRuns limit p =
      (objects_of p ≡ parted is_store objects)
      × InRange p.bin_count p.assigned
      × ((b : ℕ) → b < p.bin_count → IsPack limit is_store p b)

  -- The costs of the two classes.
  abbrev normal_items : List BinItem
  normal_items = items_from 0 (select (λ o. not (is_store o)) objects)

  abbrev store_items : List BinItem
  store_items =
      items_from (length (select (λ o. not (is_store o)) objects)) (select is_store objects)

  plan_lem :
      (limit : ℕ)
      → 0 < target
      → IsLimit target limit normal_items
      → IsLimit target limit store_items
      → m.has_order ≡ true
      → ((c : ℕ) → m.grows c ≡ true)
      → length bin_out ≡ length objects
      → (p : PackPlan) × (pack_plan algo m is_store target objects bin_out ≡ some p)
        × AreRuns limit p
  unfolding pack_plan join_classes
  plan_lem limit pos low high has grows written =
      let normal = select (λ o. not (is_store o)) objects in
      let store = select is_store objects in
      let split = length normal in
      let both = length-select is_store objects in
      let (n, bins, e, packing) =
        assign-IsPacking algo m 0 target limit normal (take split bin_out) pos low has grows
          (omega (arith, length-take split bin_out, both)) in
      let (n', bins', e', packing') =
        assign-IsPacking algo m split target limit store (drop split bin_out) pos high has grows
          (omega (arith, length-drop split bin_out, both)) in
      (
        joined_plan limit n n' split is_store normal store bins bins' packing packing',
        rw (e, e') refl,
        (
          joined_objects limit n n' split is_store normal store bins bins' packing packing',
          joined_InRange limit n n' split is_store normal store bins bins' packing packing',
          λ b h.
              joined-IsPack limit n n' split is_store normal store bins bins' packing packing' b h
                (All-select (λ o. not (is_store o)) objects) (All-select is_store objects),
        ),
      )

  -- With memory for the order and the bins, and with an array of the right length, binning returns
  -- for every target above 0. The plan then holds exactly the objects of the normal class and then
  -- those of the store class, each class in its order, and every object has a bin that is written.
  pub pack_plan_total :
      0 < target
      → m.has_order ≡ true
      → ((c : ℕ) → m.grows c ≡ true)
      → length bin_out ≡ length objects
      → (p : PackPlan) × (pack_plan algo m is_store target objects bin_out ≡ some p)
        × (objects_of p ≡ parted is_store objects)
        × InRange p.bin_count p.assigned
  pack_plan_total pos has grows written =
      let limit = target + (total normal_items + total store_items) in
      let (p, e, (same, range, packs)) =
        plan_lem limit pos (inr (omega arith, omega arith)) (inr (omega arith, omega arith)) has
          grows written in
      (p, e, same, range)

  -- With memory for the order and the bins, an array of the right length, a target above 0 and of at
  -- most half of INT64_MAX, and sizes whose estimate is an int64_t, each pack of the plan is written with exactly the objects of its bin in their order. It is not empty,
  -- it holds objects of one class only, at the level of that class, and its estimate is over the
  -- target only if it is a single object.
  pub pack_plan-packs :
      0 < target
      → 2 * target < 2 ^ 63
      → All (λ o. o.size + 2560 < 2 ^ 63) objects
      → m.has_order ≡ true
      → ((c : ℕ) → m.grows c ≡ true)
      → length bin_out ≡ length objects
      → (p : PackPlan) → pack_plan algo m is_store target objects bin_out ≡ some p
      → (b : ℕ) → b < p.bin_count
      → IsPack target is_store p b
  pack_plan-packs pos exact sizes has grows written p e =
      let (q, f, (same, range, packs)) =
        plan_lem target pos (inl (exact, refl)) (inl (exact, refl)) has grows written in
      subst (λ k. (b : ℕ) → b < k.bin_count → IsPack target is_store k b) (some-same (sym f ∙ e))
        packs
