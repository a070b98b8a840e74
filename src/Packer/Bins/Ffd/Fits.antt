-- ===== src/Packer/Bins/Ffd/Fits.antt =====
-- The bins that the placing loop chooses are a packing.
use tarpack.Prelude.{
  ℕ, ◌≤◌, ◌<◌, ◌≡◌, ◌⊎◌, inl, inr, some, List, ◌∷◌, arith, length, get_or, All, ◌-◌, ◌*◌, refl,
  true, [], Option-cases,
}
use tarpack.Packer.Bins.{BinItem, members, load, IsPacking}
use tarpack.Packer.Bins.Laws.{members_of_load, HasCost}
use tarpack.Packer.Bins.Ffd.{Memory, BinRemArray, no_bins, bin_rem_push, pushed, place}
use tarpack.Packer.Bins.Ffd.Placements.{placements, Placed, place_cases}

-- What holds of bin `b` and the loop over `items` from the open bins `a` to the open bins `z`.
record Fits (target : ℕ) (a z : BinRemArray) (items : List BinItem) (bs : List ℕ) (b : ℕ)
    : Type 0 where
  grows : length a.rem ≤ length z.rem
  each_item : length bs ≡ length items
  past : length z.rem ≤ b → members b bs ≡ 0
  room : b < length a.rem → load b items bs ≤ get_or a.rem b 0
  fresh :
      length a.rem ≤ b
      → b < length z.rem
      → (1 ≤ members b bs) × ((load b items bs ≤ target) ⊎ (members b bs ≡ 1))

-- One more item in front.
Fits-cons :
    (target : ℕ) (a a' z : BinRemArray) (i : BinItem) (items : List BinItem) (chosen : ℕ)
    (bs : List ℕ) (b : ℕ)
    → Placed target a i.cost b a' chosen
    → All HasCost items
    → Fits target a' z items bs b
    → Fits target a z (i ∷ items) (chosen ∷ bs) b
unfolding members load
Fits-cons target a a' z i items chosen bs b (inl p) has ih =
    ground (arith, members_of_load b items bs)
Fits-cons target a a' z i items chosen bs b (inr p) has ih = ground arith

module _ (m : Memory) (target : ℕ) where
  -- The rounds of a loop that returned.
  pub placements-cons :
      (i : BinItem) (items : List BinItem) (a z : BinRemArray) (bs : List ℕ)
      → placements m target (i ∷ items) a ≡ some (z, bs)
      → (a' : BinRemArray) × (chosen : ℕ) × (bs' : List ℕ) × (place m target a i.cost
          ≡ some (a', chosen))
        × (placements m target items a' ≡ some (z, bs'))
        × (bs ≡ chosen ∷ bs')
  unfolding placements
  placements-cons i items a z bs h = elim (Option-cases (place m target a i.cost)) [
    | inl e ↦ absurd (ground arith)
    | inr ((a', chosen), e) ↦ elim (Option-cases (placements m target items a')) [
      | inl e' ↦ absurd (ground arith)
      | inr ((z', bs'), e') ↦ (a', chosen, bs', e, ground arith, ground arith)
    ]
  ]

  placements-Fits :
      (items : List BinItem) (a z : BinRemArray) (bs : List ℕ) (b : ℕ)
      → All HasCost items
      → placements m target items a ≡ some (z, bs)
      → Fits target a z items bs b
  placements-Fits [] a z bs b has h = unfold placements members load in ground arith
  placements-Fits (i ∷ items) a z bs b has h =
      let (a', chosen, bs', placed, rest, e) = placements-cons i items a z bs h in
      let ih = placements-Fits items a' z bs' b has.1 rest in
      rw e (
        Fits-cons target a a' z i items chosen bs' b
          (place_cases m a a' chosen target i.cost b placed) has.1 ih)

  -- From no bins, the choice is a packing.
  pub placements-IsPacking :
      (items : List BinItem) (z : BinRemArray) (bs : List ℕ)
      → All HasCost items
      → placements m target items no_bins ≡ some (z, bs)
      → IsPacking target (length z.rem) items bs
  placements-IsPacking items z bs has h =
      let fits = λ (b : ℕ). placements-Fits items no_bins z bs b has h in
      record {
        each_item = (fits 0).each_item;
        in_range = λ b. (fits b).past;
        no_empty = λ b p. ((fits b).fresh (omega arith) p).0;
        capacity = λ b p. ((fits b).fresh (omega arith) p).1;
      }

  module _ (grows : (c : ℕ) → m.grows c ≡ true) where
    push_total : (a : BinRemArray) (r : ℕ) → (a' : BinRemArray) × (bin_rem_push m a r ≡ some a')
    push_total a r = elim (Option-cases (bin_rem_push m a r)) [
      | inl e ↦ absurd (unfold bin_rem_push in ground (arith, grows (a.capacity * 2), grows 8))
      | inr found ↦ found
    ]

    place_total :
        (a : BinRemArray) (cost : ℕ) → (r : BinRemArray × ℕ) × (place m target a cost ≡ some r)
    place_total a cost = elim (Option-cases (place m target a cost)) [
      | inl e ↦ absurd (
          unfold place pushed in
          ground (arith, (push_total a 0).1, (push_total a (target - cost)).1))
      | inr found ↦ found
    ]

    -- With memory for the bins the loop returns.
    pub placements_total :
        (items : List BinItem) (a : BinRemArray)
        → (z : BinRemArray) × (bs : List ℕ) × (placements m target items a ≡ some (z, bs))
    unfolding placements
    placements_total [] a = (a, [], refl)
    placements_total (i ∷ items) a =
        let ((a', chosen), e) = place_total a i.cost in
        let (z, bs, rest) = placements_total items a' in
        (z, chosen ∷ bs, rw (e, placements) (rw rest))
