-- ===== src/Packer/Bins/NextFit/Places.antt =====
-- Which bins the next-fit assignment opens and fills, however large the sums get.
use tarpack.Prelude.{
  ℕ, suc, ◌+◌, ◌-◌, ◌≤◌, ◌<◌, ◌≡◌, refl, ap, ◌⊎◌, inl, inr, true, false, some, List, [], ◌∷◌, arith,
  Bool-cases, length,
}
use tarpack.Packer.Bins.{BinItem, members, Runs, load, total, IsPacking}
use tarpack.Packer.Bins.NextFit.{State, place, loop, add_int64, exceeds, assign_next_fit, init}

-- A current bin is one that is open.
abbrev pub IsOpen : State → Type 0
IsOpen s = s.have_current ≡ true → 0 < s.bin_count

-- Where one round put its item, and what the variables are then.
abbrev pub Opened : ℕ → State → ℕ → State × ℕ → Type 0
Opened target s cost (t, b) =
    (target < cost) × (t.bin_count ≡ s.bin_count + 1) × (t.have_current ≡ false) × (b ≡ s.bin_count)
    ⊎ ((cost ≤ target)
          × (t.bin_count ≡ s.bin_count + 1)
          × (t.have_current ≡ true)
          × (t.current_used ≡ cost)
          × ((s.have_current ≡ false) ⊎ (target < s.current_used + cost))
          × (b ≡ s.bin_count)
        ⊎ (s.have_current ≡ true)
          × (t.bin_count ≡ s.bin_count)
          × (t.have_current ≡ true)
          × (t.current_used ≤ s.current_used + cost)
          × (b ≡ s.bin_count - 1))

add_int64-le : (a b : ℕ) → add_int64 a b ≤ a + b
unfolding add_int64
add_int64-le a b = omega arith

exceeds-lt : (target u : ℕ) → exceeds target u ≡ true → target < u
unfolding exceeds
exceeds-lt target u h = ground (arith, h)

pub place-Opened : (target : ℕ) (s : State) (cost : ℕ) → Opened target s cost (place target s cost)
unfolding place
place-Opened target s cost =
    let u = add_int64 s.current_used cost in
    let le = add_int64-le s.current_used cost in
    elim (Bool-cases (exceeds target u)) [
      | inl e ↦ let lt = exceeds-lt target u e in rw e (ground (arith, le, lt))
      | inr e ↦ rw e (ground (arith, le))
    ]

-- What holds of bin `b` and the result of the loop from `s`.
pub record Fills (target : ℕ) (s : State) (items : List BinItem) (b : ℕ) : Type 0 where
  pub grows : s.bin_count ≤ (loop target s items).0.bin_count
  pub past : (loop target s items).0.bin_count ≤ b → members b (loop target s items).1 ≡ 0
  pub fresh :
      s.bin_count ≤ b
      → b < (loop target s items).0.bin_count
      → 1 ≤ members b (loop target s items).1

pub loop-Fills :
    (target : ℕ) (s : State) (items : List BinItem) (b : ℕ) → IsOpen s → Fills target s items b
unfolding loop members
loop-Fills target s [] b v = ground arith
loop-Fills target s (i ∷ items) b v =
    let t = (place target s i.cost).0 in
    elim (place-Opened target s i.cost) [
      | inl p ↦ let ih = loop-Fills target t items b (ground arith) in ground arith
      | inr (inl p) ↦ let ih = loop-Fills target t items b (ground arith) in ground arith
      | inr (inr p) ↦ let ih = loop-Fills target t items b (ground arith) in ground arith
    ]

next_bin :
    (target : ℕ) (s : State) (cost : ℕ)
    → IsOpen s
    → (((place target s cost).1 + 1 ≡ s.bin_count) ⊎ ((place target s cost).1 ≡ s.bin_count))
      × ((place target s cost).1 + 1 ≡ (place target s cost).0.bin_count)
next_bin target s cost v = elim (place-Opened target s cost) [
  | inl p ↦ ground arith
  | inr (inl p) ↦ ground arith
  | inr (inr p) ↦ ground arith
]

pub loop-Runs :
    (target : ℕ) (s : State) (items : List BinItem)
    → IsOpen s
    → Runs s.bin_count (loop target s items).1
unfolding loop
loop-Runs target s [] v = tt
loop-Runs target s (i ∷ items) v =
    let t = (place target s i.cost).0 in
    let (first, next) = next_bin target s i.cost v in
    let rest = loop-Runs target t items (λ e. omega (arith, next)) in (first, rw (← next) at rest)

pub length-loop :
    (target : ℕ) (s : State) (items : List BinItem) → length (loop target s items).1 ≡ length items
unfolding loop
length-loop target s [] = refl
length-loop target s (i ∷ items) = ap suc (length-loop target (place target s i.cost).0 items)

load-le-total : (b : ℕ) (items : List BinItem) (bins : List ℕ) → load b items bins ≤ total items
unfolding load total
load-le-total b [] bins = omega arith
load-le-total b (i ∷ items) [] = omega arith
load-le-total b (i ∷ items) (c ∷ bins) = ground (arith, load-le-total b items bins)

-- For a positive target the next-fit assignment returns, and what it returns is a packing under every
-- limit that the sum of all costs keeps.
pub assign_next_fit_total :
    (items : List BinItem) (target limit : ℕ)
    → 0 < target
    → total items ≤ limit
    → (n : ℕ) × (bins : List ℕ) × (assign_next_fit items target ≡ some (n, bins))
      × IsPacking limit n items bins
assign_next_fit_total items target limit h large =
    let fills = λ (b : ℕ). loop-Fills target init items b cc in
    let (s, bins) = loop target init items in
    (
      s.bin_count,
      bins,
      unfold assign_next_fit in ground arith,
      record {
        each_item = length-loop target init items;
        in_range = λ b. (fills b).past;
        no_empty = λ b p. (fills b).fresh (omega arith) p;
        capacity = λ b p. inl (omega (arith, large, load-le-total b items bins));
      },
    )
