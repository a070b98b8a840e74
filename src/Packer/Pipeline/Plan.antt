-- ===== src/Packer/Pipeline/Plan.antt =====
-- The plan of a whole run: it exists, and its packs are packs of one class each.
use tarpack.Packer.Ordering.Subset.{subset-pick}
use tarpack.Packer.Ordering.Layout.{pick-append}
use tarpack.Packer.Ordering.{pick}
use tarpack.Packer.Pipeline.Classes.{InRange-zip, pick-shift_below, pick-shift}
use tarpack.Prelude.{
  ℕ, ◌+◌, ◌≤◌, ◌<◌, ◌≡◌, refl, ap, ap₂, ◌∙◌, inl, inr, Bool, not, List, [], ◌∷◌, ◌++◌, map, arith,
  Bool-cases, length, append_nil, ◌-◌, sym, subst, ◌⊎◌, true, some, ltb, ltb→lt, All, length-map,
  map-append,
}
use tarpack.Packer.Bins.{IsPacking}
use tarpack.Packer.Pipeline.{
  PackedObject, PackPlan, select, zip, items_from, pack_at, store_zstd_level,
}
use tarpack.Packer.Pipeline.Packs.{IsClassPack, pick_past, sizes, class_pack}
use tarpack.Packer.Ordering.Slices.{InRange}

abbrev pub objects_of : PackPlan → List PackedObject
objects_of p = map (λ a. a.0) p.assigned

-- The two classes, one behind the other, each in its order.
abbrev pub parted : (PackedObject → Bool) → List PackedObject → List PackedObject
parted is_store objects = select (λ o. not (is_store o)) objects ++ select is_store objects

pub length-select :
    (test : PackedObject → Bool) (os : List PackedObject)
    → length (select (λ o. not (test o)) os) + length (select test os) ≡ length os
unfolding select
length-select test [] = omega arith
length-select test (o ∷ os) = elim (Bool-cases (test o)) [
  | inl e ↦ rw e (omega (arith, length-select test os))
  | inr e ↦ rw e (omega (arith, length-select test os))
]

map-zip :
    (os : List PackedObject) (bins : List ℕ)
    → length bins ≡ length os
    → map (λ a. a.0) (zip os bins) ≡ os
unfolding zip
map-zip [] [] e = refl
map-zip [] (c ∷ bins) e = absurd (omega arith)
map-zip (o ∷ os) [] e = absurd (omega arith)
map-zip (o ∷ os) (c ∷ bins) e = ap (◌∷◌ o) (map-zip os bins (omega arith))

zip-shift-InRange :
    (n n' : ℕ) (os : List PackedObject) (bins : List ℕ)
    → InRange n' (zip os bins)
    → InRange (n + n') (zip os (map (λ b. b + n) bins))
unfolding zip
zip-shift-InRange n n' [] [] h = tt
zip-shift-InRange n n' [] (c ∷ bins) h = tt
zip-shift-InRange n n' (o ∷ os) [] h = tt
zip-shift-InRange n n' (o ∷ os) (c ∷ bins) (hc, h) = (omega arith, zip-shift-InRange n n' os bins h)

InRange-append :
    (n : ℕ) (ps qs : List (PackedObject × ℕ)) → InRange n ps → InRange n qs → InRange n (ps ++ qs)
InRange-append n [] qs h k = k
InRange-append n (p ∷ ps) qs (hp, h) k = (hp, InRange-append n ps qs h k)

InRange-mono : (n m : ℕ) (ps : List (PackedObject × ℕ)) → n ≤ m → InRange n ps → InRange m ps
InRange-mono n m [] le h = tt
InRange-mono n m (p ∷ ps) le (hp, h) = (omega arith, InRange-mono n m ps le h)

-- Pack `b` of a plan: the objects of bin `b` in their order, all of the normal class and compressed
-- at the default level, or all of the store class at its own level.
abbrev pub IsPack : ℕ → (PackedObject → Bool) → PackPlan → ℕ → Type 0
IsPack target is_store p b =
    ((pack_at p b ≡ (0, map some (pick b p.assigned)))
      × IsClassPack target (λ o. not (is_store o)) (pick b p.assigned))
    ⊎ ((pack_at p b ≡ (store_zstd_level, map some (pick b p.assigned)))
        × IsClassPack target is_store (pick b p.assigned))

-- The plan made of a packing of each class.
module _ (target n n' split : ℕ) (is_store : PackedObject → Bool) (normal store : List PackedObject)
    (bins bins' : List ℕ) (packing : IsPacking target n (items_from 0 normal) bins)
    (packing' : IsPacking target n' (items_from split store) bins') where
  abbrev pub joined_plan : PackPlan
  joined_plan = record {
    bin_count_normal = n;
    bin_count = n + n';
    assigned = zip normal bins ++ zip store (map (λ b. b + n) bins');
  }

  pub joined_objects : objects_of joined_plan ≡ normal ++ store
  joined_objects =
      map-append (λ a. a.0) (zip normal bins) (zip store (map (λ b. b + n) bins'))
      ∙ ap₂ (◌++◌) (map-zip normal bins (sizes target 0 n is_store normal bins packing)) (
          map-zip store (map (λ b. b + n) bins')
            (length-map (λ b. b + n) bins' ∙ sizes target split n' is_store store bins' packing'))

  pub joined_InRange : InRange (n + n') joined_plan.assigned
  joined_InRange =
      InRange-append (n + n') (zip normal bins) (zip store (map (λ b. b + n) bins'))
        (InRange-mono n (n + n') (zip normal bins) (omega arith)
          (InRange-zip n normal bins packing.in_range))
        (zip-shift-InRange n n' store bins' (InRange-zip n' store bins' packing'.in_range))

  pick_normal : (b : ℕ) → b < n → pick b joined_plan.assigned ≡ pick b (zip normal bins)
  pick_normal b h =
      pick-append b (zip normal bins) (zip store (map (λ b. b + n) bins'))
      ∙ ap (λ l. pick b (zip normal bins) ++ l) (pick-shift_below n b store bins' h)
      ∙ append_nil (pick b (zip normal bins))

  pick_store : (b : ℕ) → pick (b + n) joined_plan.assigned ≡ pick b (zip store bins')
  pick_store b =
      pick-append (b + n) (zip normal bins) (zip store (map (λ b. b + n) bins'))
      ∙ ap₂ (◌++◌) (pick_past target 0 n is_store normal bins packing (b + n) (omega arith))
          (pick-shift n b store bins')

  pub joined-IsPack :
      (b : ℕ)
      → b < n + n'
      → All (λ o. not (is_store o) ≡ true) normal
      → All (λ o. is_store o ≡ true) store
      → IsPack target is_store joined_plan b
  unfolding pack_at
  joined-IsPack b h hn hs = elim (Bool-cases (ltb b n)) [
    | inl e ↦ inl (
      rw e (ap (λ s. (0, s)) (subset-pick (n + n') joined_plan.assigned b joined_InRange h)),
      subst (IsClassPack target (λ o. not (is_store o))) (sym (pick_normal b (ltb→lt b n e)))
          (class_pack target 0 n (λ o. not (is_store o)) normal bins packing b (ltb→lt b n e) hn),
    )
    | inr e ↦ inr (
      rw e (
          ap (λ s. (store_zstd_level, s))
            (subset-pick (n + n') joined_plan.assigned b joined_InRange h)),
      subst (IsClassPack target is_store)
          (sym (
            ap (λ k. pick k joined_plan.assigned) {x = b} {y = (b - n) + n} (ground arith)
            ∙ pick_store (b - n)))
          (class_pack target split n' is_store store bins' packing' (b - n) (ground arith) hs),
    )
  ]
