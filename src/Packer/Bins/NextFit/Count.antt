-- ===== src/Packer/Bins/NextFit/Count.antt =====
-- How many bins the next-fit assignment opens.
use tarpack.Prelude.{[], ◌∷◌, inl, inr, ap, ℕ, ◌*◌, if◌then◌else◌, ◌+◌, ◌≤◌, ◌≡◌, arith}
use tarpack.Packer.Bins.{BinItem, total, List, ◌∷◌}
use tarpack.Packer.Bins.NextFit.{State, init, place, loop, assign_next_fit, some}
use tarpack.Packer.Bins.NextFit.Places.{place-Opened}

-- What an opened bin may still take from the account: a closed bin and its successor exceed the
-- target together.
abbrev credit : ℕ → State → ℕ
credit target s = if s.have_current then s.current_used else target

place_account :
    (target : ℕ) (s : State) (cost : ℕ)
    → (place target s cost).0.bin_count * target + credit target (place target s cost).0
      ≤ s.bin_count * target + 2 * cost + credit target s
place_account target s cost =
    let t = (place target s cost).0 in
    let one_more = λ (e : t.bin_count ≡ s.bin_count + 1). ap (λ (n : ℕ). n * target) e in
    elim (place-Opened target s cost) [
      | inl p ↦ ground (arith, one_more p.1)
      | inr (inl p) ↦ ground (arith, one_more p.1)
      | inr (inr p) ↦ ground (arith, ap (λ (n : ℕ). n * target) p.1)
    ]

loop_count :
    (target : ℕ) (s : State) (items : List BinItem)
    → (loop target s items).0.bin_count * target
      ≤ s.bin_count * target + 2 * total items + credit target s
unfolding loop total
loop_count target s [] = omega arith
loop_count target s (i ∷ items) =
    let t = (place target s i.cost).0 in
    let ih = loop_count target t items in grind (arith, place_account target s i.cost, ih)

-- Next-fit opens at most 2 * total / target + 1 packs.
pub assign_next_fit_count :
    (items : List BinItem) (target n : ℕ) (bins : List ℕ)
    → assign_next_fit items target ≡ some (n, bins)
    → n * target ≤ 2 * total items + target
unfolding assign_next_fit
assign_next_fit_count items target n bins h = ground (arith, loop_count target init items)
