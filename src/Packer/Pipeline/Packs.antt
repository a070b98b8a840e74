-- ===== src/Packer/Pipeline/Packs.antt =====
-- What the packs of a plan hold.
use tarpack.Packer.Bins.NextFit.Places.{assign_next_fit_total}
use tarpack.Packer.Size.Cost.{estimate_entry_cost_bounds}
use tarpack.Packer.Bins.NextFit.Capacity.{assign_next_fit-IsPacking, IsExact}
use tarpack.Packer.Bins.Ffd.Capacity.{assign_ffd-IsPacking}
use tarpack.Packer.Ordering.{pick}
use tarpack.Packer.Pipeline.Classes.{cost_of, length-pick-zip, cost_of-pick, All-pick}
use tarpack.Prelude.{
  ℕ, suc, ◌+◌, ◌≤◌, ◌<◌, ◌≡◌, refl, sym, ap, ◌∙◌, ◌≢◌, ◌⊎◌, inl, inr, Bool, true, some, List, [],
  ◌∷◌, arith, length, All,
}
use tarpack.Packer.Bins.{IsPacking, BinItem, total}
use tarpack.Packer.Bins.Laws.{HasCost}
use tarpack.Packer.Pipeline.{PackedObject, Algo, items_from, assign, Memory, zip, assign_next_fit}

length-items_from : (i : ℕ) (os : List PackedObject) → length (items_from i os) ≡ length os
unfolding items_from
length-items_from i [] = refl
length-items_from i (o ∷ os) = ap suc (length-items_from (i + 1) os)

items_from-HasCost : (i : ℕ) (os : List PackedObject) → All HasCost (items_from i os)
unfolding items_from
items_from-HasCost i [] = tt
items_from-HasCost i (o ∷ os) =
    let (blocks, covers, wastes, grows) = estimate_entry_cost_bounds o.size o.size (omega arith) in
    (omega (arith, covers), items_from-HasCost (i + 1) os)

-- A limit for the packs: the target, where the sums of next-fit are exact, or any that is not below the
-- target and the sum of all costs.
abbrev pub IsLimit : ℕ → ℕ → List BinItem → Type 0
IsLimit target limit items =
    (IsExact target × (limit ≡ target)) ⊎ ((target ≤ limit) × (total items ≤ limit))

IsPacking-mono :
    (target limit n : ℕ) (items : List BinItem) (bins : List ℕ)
    → target ≤ limit
    → IsPacking target n items bins
    → IsPacking limit n items bins
IsPacking-mono target limit n items bins h p = record {
  each_item = p.each_item;
  in_range = p.in_range;
  no_empty = p.no_empty;
  capacity = λ b k. elim (p.capacity b k) [ inl c ↦ inl (omega (arith, c)) | inr c ↦ inr c ];
}

limit_bound :
    (target limit : ℕ) (items : List BinItem) → IsLimit target limit items → target ≤ limit
limit_bound target limit items (inl (exact, same)) = omega (arith, same)
limit_bound target limit items (inr (above, large)) = above

next_fit-IsPacking :
    (items : List BinItem) (target limit : ℕ)
    → 0 < target
    → IsLimit target limit items
    → (n : ℕ) × (bins : List ℕ) × (assign_next_fit items target ≡ some (n, bins))
      × IsPacking limit n items bins
next_fit-IsPacking items target limit pos (inl (exact, same)) =
    let (n, bins, e, packing, runs) = assign_next_fit-IsPacking items target pos exact in
    (n, bins, e, IsPacking-mono target limit n items bins (omega (arith, same)) packing)
next_fit-IsPacking items target limit pos (inr (above, large)) =
    assign_next_fit_total items target limit pos large

-- Either algorithm returns a packing under a limit.
pub assign-IsPacking :
    (algo : Algo) (m : Memory) (i target limit : ℕ) (os : List PackedObject) (bin_out : List ℕ)
    → 0 < target
    → IsLimit target limit (items_from i os)
    → m.has_order ≡ true
    → ((c : ℕ) → m.grows c ≡ true)
    → length bin_out ≡ length os
    → (n : ℕ) × (bins : List ℕ) × (assign algo m (items_from i os) target bin_out ≡ some (n, bins))
      × IsPacking limit n (items_from i os) bins
unfolding assign
assign-IsPacking Algo.ffd m i target limit os bin_out pos within has grows written =
    let items = items_from i os in
    let (n, bins, e, packing) =
      assign_ffd-IsPacking m items target bin_out pos has grows
        (written ∙ sym (length-items_from i os)) (items_from-HasCost i os) in
    let above = limit_bound target limit items within in
    (n, bins, e, IsPacking-mono target limit n items bins above packing)
assign-IsPacking Algo.next_fit m i target limit os bin_out pos within has grows written =
    next_fit-IsPacking (items_from i os) target limit pos within

-- A pack of one class: it is not empty, and it is over the target only if it is a single object.
abbrev pub IsClassPack : ℕ → (PackedObject → Bool) → List PackedObject → Type 0
IsClassPack target test os =
    os ≢ [] × ((cost_of os ≤ target) ⊎ (length os ≡ 1)) × All (λ o. test o ≡ true) os

length_nil : {A : Type 0} → (xs : List A) → length xs ≡ 0 → xs ≡ []
length_nil [] h = refl
length_nil (x ∷ xs) h = absurd (omega arith)

module _ (target i n : ℕ) (test : PackedObject → Bool) (os : List PackedObject) (bins : List ℕ)
    (packing : IsPacking target n (items_from i os) bins) where
  pub sizes : length bins ≡ length os
  sizes = packing.each_item ∙ length-items_from i os

  pub class_pack :
      (b : ℕ) → b < n → All (λ o. test o ≡ true) os → IsClassPack target test (pick b (zip os bins))
  class_pack b h all = (
    λ e. absurd (omega (arith, ap length e, length-pick-zip b os bins sizes, packing.no_empty b h)),
    elim (packing.capacity b h) [
      | inl c ↦ inl (omega (arith, c, cost_of-pick b i os bins sizes))
      | inr c ↦ inr (omega (arith, c, length-pick-zip b os bins sizes))
    ],
    All-pick (λ o. test o ≡ true) b os bins all,
  )

  pub pick_past : (b : ℕ) → n ≤ b → pick b (zip os bins) ≡ []
  pick_past b h =
      length_nil (pick b (zip os bins)) (length-pick-zip b os bins sizes ∙ packing.in_range b h)
