-- ===== src/Packer/Bins/Laws.antt =====
-- Facts of loads and members that hold of every assignment.
use tarpack.Prelude.{ℕ, ◌≡◌, refl, List, [], ◌∷◌, arith, ◌<◌, length, All}
use tarpack.Packer.Bins.{BinItem, members, load}

-- A bin with no member carries nothing.
pub load_of_members :
    (b : ℕ) (items : List BinItem) (bins : List ℕ) → members b bins ≡ 0 → load b items bins ≡ 0
unfolding members load
load_of_members b [] bins h = refl
load_of_members b (i ∷ items) [] h = refl
load_of_members b (i ∷ items) (c ∷ bins) h = ground (arith, load_of_members b items bins)

abbrev pub HasCost : BinItem → Type 0
HasCost i = 0 < i.cost

-- A bin that carries nothing has no member, if every item costs something.
pub members_of_load :
    (b : ℕ) (items : List BinItem) (bins : List ℕ)
    → All HasCost items
    → length bins ≡ length items
    → load b items bins ≡ 0
    → members b bins ≡ 0
unfolding members load
members_of_load b [] [] p e h = refl
members_of_load b [] (c ∷ bins) p e h = absurd (omega arith)
members_of_load b (i ∷ items) [] p e h = refl
members_of_load b (i ∷ items) (c ∷ bins) p e h =
    ground (arith, members_of_load b items bins p.1 (omega arith))
