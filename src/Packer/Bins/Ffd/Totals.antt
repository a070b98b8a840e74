-- ===== src/Packer/Bins/Ffd/Totals.antt =====
-- From the bins in the order of the visit to the array `bin_out` in the order of the items.
use tarpack.Prelude.{
  ℕ, ◌+◌, ◌≡◌, refl, ap, ◌∙◌, List, [], ◌∷◌, arith, length, set, get_or, length-set, zero, suc, ◌≤◌,
  ◌<◌, ap₂, subst, ◌==◌, if◌then◌else◌, get_or-set_self, get_or-set_ne,
}
use mathlib.Core.List.{Perm, Permᴰ, Mem, Nodup, Nodup-cons, mem-cons_self, mem-cons_of_mem}
use mathlib.Core.List.{Nodup-nil}
use native.Mathlib.Nat.{ℕ_set, add-zero}
use mathlib.Core.HLevel.{×_prop}
use native.Mathlib.Bridge.{le_prop}
use mathlib.Core.Logic.Or
use mathlib.Core.List.{not-mem-nil, mem-cons, Nodup, Nodup-cons, mem-cons_self, mem-cons_of_mem}
use mathlib.Core.Logic.{∥∥₁_elim}
use tarpack.Packer.Bins.{BinItem, members, load}
use tarpack.Packer.Bins.Ffd.{no_item, range_from}

-- The items in the order of the visit.
unfoldable pub visited : List BinItem → List ℕ → List BinItem
visited items [] = []
visited items (idx ∷ order) = get_or items idx no_item ∷ visited items order

-- The writes `bin_out[order[k]] = bs[k]`.
unfoldable pub write_all : List ℕ → List ℕ → List ℕ → List ℕ
write_all out (idx ∷ order) (b ∷ bs) = write_all (set out idx b) order bs
write_all out _ _ = out

unfoldable pub sum_over : (ℕ → ℕ) → List ℕ → ℕ
sum_over f [] = 0
sum_over f (i ∷ l) = f i + sum_over f l

sum_over-Permᴰ : (f : ℕ → ℕ) {l r : List ℕ} → Permᴰ l r → sum_over f l ≡ sum_over f r
unfolding sum_over
sum_over-Permᴰ f Permᴰ.nil = refl
sum_over-Permᴰ f (Permᴰ.cons e p) = omega (arith, ap f e, sum_over-Permᴰ f p)
sum_over-Permᴰ f (Permᴰ.swap e e') = omega (arith, ap f e, ap f e')
sum_over-Permᴰ f (Permᴰ.trans p q) = sum_over-Permᴰ f p ∙ sum_over-Permᴰ f q

pub sum_over-perm : (f : ℕ → ℕ) {l r : List ℕ} → Perm l r → sum_over f l ≡ sum_over f r
sum_over-perm f p = ∥∥₁_elim p (ℕ_set _ _) (sum_over-Permᴰ f)

pub length-write_all : (out order bs : List ℕ) → length (write_all out order bs) ≡ length out
unfolding write_all
length-write_all out [] bs = refl
length-write_all out (idx ∷ order) [] = refl
length-write_all out (idx ∷ order) (b ∷ bs) =
    length-write_all (set out idx b) order bs ∙ length-set out idx b

-- A position that no later write meets keeps its value.
write_all_other :
    (out order bs : List ℕ) (i : ℕ)
    → ¬ Mem i order
    → get_or (write_all out order bs) i 0 ≡ get_or out i 0
unfolding write_all
write_all_other out [] bs i h = refl
write_all_other out (idx ∷ order) [] i h = refl
write_all_other out (idx ∷ order) (b ∷ bs) i h =
    write_all_other (set out idx b) order bs i (λ m. h (mem-cons_of_mem idx m))
    ∙ get_or-set_ne out idx i b 0 (λ e. h (subst (λ j. Mem j (idx ∷ order)) e mem-cons_self))

-- The weights `g` of the visited indices that were sent to bin `b`.
unfoldable pub weigh : (ℕ → ℕ) → ℕ → List ℕ → List ℕ → ℕ
weigh g b (idx ∷ order) (c ∷ bs) = (if c == b then g idx else 0) + weigh g b order bs
weigh g b _ _ = 0

-- The weight of index `i` if the array `w` sends it to bin `b`.
abbrev pub share : (ℕ → ℕ) → ℕ → List ℕ → ℕ → ℕ
share g b w i = if get_or w i 0 == b then g i else 0

pub weigh-sum_over :
    (g : ℕ → ℕ) (b : ℕ) (out order bs : List ℕ)
    → Nodup order
    → ((i : ℕ) → Mem i order → i < length out)
    → length bs ≡ length order
    → weigh g b order bs ≡ sum_over (share g b (write_all out order bs)) order
unfolding weigh sum_over write_all
weigh-sum_over g b out [] bs nodup bound e = refl
weigh-sum_over g b out (idx ∷ order) [] nodup bound e = absurd (omega arith)
weigh-sum_over g b out (idx ∷ order) (c ∷ bs) nodup bound e =
    let (fresh, rest) = Nodup-cons.0 nodup in
    let w = write_all (set out idx c) order bs in
    let at_idx : get_or w idx 0 ≡ c =
      write_all_other (set out idx c) order bs idx fresh
      ∙ get_or-set_self out idx c 0 (bound idx mem-cons_self) in
    let ih =
      weigh-sum_over g b (set out idx c) order bs rest
        (λ i m. rw (length-set out idx c) (bound i (mem-cons_of_mem idx m))) (omega arith) in
    rw at_idx (ap (λ t. (if c == b then g idx else 0) + t) ih)

pub mem-range_from : (k n i : ℕ) → Mem i (range_from k n) → (k ≤ i) × (i < k + n)
unfolding range_from
mem-range_from k zero i m = absurd (not-mem-nil m)
mem-range_from k (suc n) i m =
    Or.elim (×_prop le_prop le_prop) (mem-cons.0 m) (λ e. (omega arith, omega arith))
      (λ h. let (lo, hi) = mem-range_from (k + 1) n i h in (omega arith, omega arith))

pub Nodup-range_from : (k n : ℕ) → Nodup (range_from k n)
unfolding range_from
Nodup-range_from k zero = Nodup-nil
Nodup-range_from k (suc n) =
    Nodup-cons.1 (
      (λ m. let (lo, hi) = mem-range_from (k + 1) n k m in omega arith),
      Nodup-range_from (k + 1) n,
    )

-- Over all positions the shares are what the array carries.
pub sum_range-members :
    (b : ℕ) (F : ℕ → ℕ) (k : ℕ) (bins : List ℕ)
    → ((j : ℕ) → j < length bins → F (k + j) ≡ (if get_or bins j 0 == b then 1 else 0))
    → sum_over F (range_from k (length bins)) ≡ members b bins
unfolding sum_over range_from members
sum_range-members b F k [] h = refl
sum_range-members b F k (c ∷ bins) h =
    let head : F k ≡ (if c == b then 1 else 0) =
      subst (λ t. F t ≡ (if c == b then 1 else 0)) (add-zero k) (h 0 (omega arith)) in
    ap₂ ◌+◌ head (
      sum_range-members b F (k + 1) bins
        (λ j lt. let e : k + 1 + j ≡ k + suc j = omega arith in rw e (h (suc j) (omega arith))))

pub sum_range-load :
    (b : ℕ) (F : ℕ → ℕ) (k : ℕ) (items : List BinItem) (bins : List ℕ)
    → length bins ≡ length items
    → ((j : ℕ)
        → j < length bins
        → F (k + j) ≡ (if get_or bins j 0 == b then (get_or items j no_item).cost else 0))
    → sum_over F (range_from k (length bins)) ≡ load b items bins
unfolding sum_over range_from load
sum_range-load b F k [] [] e h = refl
sum_range-load b F k (i ∷ items) [] e h = refl
sum_range-load b F k [] (c ∷ bins) e h = absurd (omega arith)
sum_range-load b F k (i ∷ items) (c ∷ bins) e h =
    let head : F k ≡ (if c == b then i.cost else 0) =
      subst (λ t. F t ≡ (if c == b then i.cost else 0)) (add-zero k) (h 0 (omega arith)) in
    ap₂ ◌+◌ head (
      sum_range-load b F (k + 1) items bins (omega arith)
        (λ j lt. let e' : k + 1 + j ≡ k + suc j = omega arith in rw e' (h (suc j) (omega arith))))
