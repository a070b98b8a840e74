-- ===== src/Packer/Bins/NextFit/Overflow.antt =====
-- What the next-fit assignment does where its sum overflows.
use tarpack.Prelude.{ℕ, ◌+◌, ◌%◌, ◌^◌, ◌≤◌, ◌<◌, ◌≡◌, refl, false, some, [], ◌∷◌, arith, ltb, ◌==◌}
use tarpack.Packer.Bins.{BinItem, load}
use tarpack.Packer.Bins.NextFit.{assign_next_fit, add_int64, exceeds, place, loop}

-- A sum from 2 ^ 63 on is negative, and is not over any target.
exceeds_wrapped :
    (target a b : ℕ)
    → a < 2 ^ 63
    → b < 2 ^ 63
    → 2 ^ 63 ≤ a + b
    → exceeds target (add_int64 a b) ≡ false
unfolding exceeds add_int64
exceeds_wrapped target a b ha hb h =
    let same : (a + b) % 2 ^ 64 ≡ a + b = omega arith in rw same (ground arith)

-- Where the sum wraps around, two items within the target, which is an int64_t, whose costs reach 2 ^ 63
-- together share a pack, and the pack is over the target.
pub assign_next_fit_overflow :
    (a b : BinItem) (target : ℕ)
    → a.cost ≤ target
    → b.cost ≤ target
    → target < 2 ^ 63
    → 2 ^ 63 ≤ a.cost + b.cost
    → (assign_next_fit (a ∷ b ∷ []) target ≡ some (1, 0 ∷ 0 ∷ []))
      × (target < load 0 (a ∷ b ∷ []) (0 ∷ 0 ∷ []))
unfolding assign_next_fit place loop load
assign_next_fit_overflow a b target ha hb small big =
    let wraps = exceeds_wrapped target a.cost b.cost (omega arith) (omega arith) big in
    let positive : (target == 0) ≡ false = ground arith in
    let first : ltb target a.cost ≡ false = ground arith in
    let second : ltb target b.cost ≡ false = ground arith in
    (rw (positive, first, second, wraps) refl, omega arith)
