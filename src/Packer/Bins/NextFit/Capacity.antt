-- ===== src/Packer/Bins/NextFit/Capacity.antt =====
-- No pack of the next-fit assignment is over a target of at most half of INT64_MAX, but for a pack of
-- one oversized object.
use tarpack.Packer.Bins.NextFit.Places.{length-loop, loop-Runs}
use tarpack.Prelude.{
  ℕ, ◌+◌, ◌-◌, ◌≤◌, ◌<◌, ◌≡◌, ◌⊎◌, inl, inr, true, false, some, List, [], ◌∷◌, arith, ◌*◌, ◌%◌, ◌^◌,
  ltb, Bool-cases,
}
use tarpack.Packer.Bins.{BinItem, members, load, Runs, IsPacking}
use tarpack.Packer.Bins.Laws.{load_of_members}
use tarpack.Packer.Bins.NextFit.{State, init, place, loop, assign_next_fit, add_int64, exceeds}

-- What holds of bin `b` and the result `r` of the loop from `s`.
-- (`left` is about a bin that an oversized item closed.)
record Fits (target : ℕ) (s : State) (items : List BinItem) (b : ℕ) : Type 0 where
  grows : s.bin_count ≤ (loop target s items).0.bin_count
  past : (loop target s items).0.bin_count ≤ b → members b (loop target s items).1 ≡ 0
  closed : b + 1 < s.bin_count → members b (loop target s items).1 ≡ 0
  left : b + 1 ≡ s.bin_count → s.have_current ≡ false → members b (loop target s items).1 ≡ 0
  current :
      b + 1 ≡ s.bin_count
      → s.have_current ≡ true
      → s.current_used + load b items (loop target s items).1 ≤ target
  fresh :
      s.bin_count ≤ b
      → b < (loop target s items).0.bin_count
      → (1 ≤ members b (loop target s items).1)
        × ((load b items (loop target s items).1 ≤ target)
            ⊎ (members b (loop target s items).1 ≡ 1))

-- The sum of two costs up to the target is an int64_t.
abbrev pub IsExact : ℕ → Type 0
IsExact target = 2 * target < 2 ^ 63

exceeds_exact :
    (target a b : ℕ)
    → IsExact target
    → a ≤ target
    → b ≤ target
    → (add_int64 a b ≡ a + b) × (exceeds target (add_int64 a b) ≡ ltb target (a + b))
unfolding add_int64 exceeds
exceeds_exact target a b small ha hb =
    let same : (a + b) % 2 ^ 64 ≡ a + b = omega arith in (same, rw same (ground arith))

abbrev pub IsValid : ℕ → State → Type 0
IsValid target s = (s.current_used ≤ target) × (s.have_current ≡ true → 0 < s.bin_count)

-- What one round did.
abbrev pub Placed : ℕ → State → ℕ → State × ℕ → Type 0
Placed target s cost (t, b) =
    (target < cost)
      × (t.bin_count ≡ s.bin_count + 1)
      × (t.have_current ≡ false)
      × (t.current_used ≡ 0)
      × (b ≡ s.bin_count)
    ⊎ ((cost ≤ target)
          × (t.bin_count ≡ s.bin_count + 1)
          × (t.have_current ≡ true)
          × (t.current_used ≡ cost)
          × ((s.have_current ≡ false) ⊎ (target < s.current_used + cost))
          × (b ≡ s.bin_count)
        ⊎ (s.have_current ≡ true)
          × (t.bin_count ≡ s.bin_count)
          × (t.have_current ≡ true)
          × (t.current_used ≡ s.current_used + cost)
          × (t.current_used ≤ target)
          × (b ≡ s.bin_count - 1))

place_cases :
    (target : ℕ) (s : State) (cost : ℕ)
    → IsExact target
    → IsValid target s
    → Placed target s cost (place target s cost)
unfolding place
place_cases target s cost small v = elim (Bool-cases (ltb target cost)) [
  | inl e ↦ rw e (ground (arith, e))
  | inr e ↦
      let (sum, test) = exceeds_exact target s.current_used cost small v.0 (ground (arith, e)) in
      rw (e, test, sum) (ground (arith, e))
]

place-IsValid :
    (target : ℕ) (s : State) (cost : ℕ)
    → IsExact target
    → IsValid target s
    → IsValid target (place target s cost).0
place-IsValid target s cost small v = elim (place_cases target s cost small v) [
  | inl p ↦ ground arith
  | inr (inl p) ↦ ground arith
  | inr (inr p) ↦ ground arith
]

loop-Fits :
    (target : ℕ) (s : State) (items : List BinItem) (b : ℕ)
    → IsExact target
    → IsValid target s
    → Fits target s items b
unfolding loop members load
loop-Fits target s [] b small v = ground arith
loop-Fits target s (i ∷ items) b small v =
    let t = (place target s i.cost).0 in
    let empty = load_of_members b items (loop target t items).1 in
    elim (place_cases target s i.cost small v) [
      | inl p ↦
          let ih = loop-Fits target t items b small (omega arith, ground arith) in ground arith
      | inr (inl p) ↦
          let ih = loop-Fits target t items b small (omega arith, ground arith) in ground arith
      | inr (inr p) ↦
          let ih = loop-Fits target t items b small (omega arith, ground arith) in ground arith
    ]

-- For a positive target of at most half of INT64_MAX the next-fit assignment returns, and what it
-- returns is a packing whose bins are runs of neighbours in the order of the items.
pub assign_next_fit-IsPacking :
    (items : List BinItem) (target : ℕ)
    → 0 < target
    → 2 * target < 2 ^ 63
    → (n : ℕ) × (bins : List ℕ) × (assign_next_fit items target ≡ some (n, bins))
      × IsPacking target n items bins
      × Runs 0 bins
assign_next_fit-IsPacking items target h small =
    let fits = λ (b : ℕ). loop-Fits target init items b small (omega arith, cc) in
    let (s, bins) = loop target init items in
    (
      s.bin_count,
      bins,
      unfold assign_next_fit in ground arith,
      record {
        each_item = length-loop target init items;
        in_range = λ b. (fits b).past;
        no_empty = λ b p. ((fits b).fresh (omega arith) p).0;
        capacity = λ b p. ((fits b).fresh (omega arith) p).1;
      },
      loop-Runs target init items cc,
    )
