-- ===== src/Packer/Bins/Ffd/Sort.antt =====
-- `ffd_sort_indices` sorts: by falling cost, equal costs by rising index, whatever memory it gets.
use tarpack.Prelude.{ℕ, ◌≡◌, inl, inr, true, false, List, [], ◌∷◌, ◌++◌, arith, Bool-cases}
use mathlib.Core.List.{
  Perm, Pairwise, Pairwise-cons, Mem, mem-append, perm_middle, append-nil, forall_mem-cons,
}
use mathlib.Core.List.Perm
use mathlib.Core.Logic.Or
use mathlib.Core.Bool.{Bool-set}
use tarpack.Packer.Bins.{BinItem}
use tarpack.Packer.Bins.Ffd.{cmp_le, cmp_lt, merge}

-- The order of the sort.
abbrev pub Before : List BinItem → ℕ → ℕ → Type 0
Before items a b = cmp_le items a b ≡ true

module _ (items : List BinItem) where
  pub Before-trans : (a b c : ℕ) → Before items a b → Before items b c → Before items a c
  unfolding cmp_le
  Before-trans a b c h k = ground arith

  pub Before-total : (a b : ℕ) → cmp_le items a b ≡ false → Before items b a
  unfolding cmp_le
  Before-total a b h = ground arith

  pub Before-of_lt : (a b : ℕ) → cmp_lt items a b ≡ true → Before items a b
  unfolding cmp_le cmp_lt
  Before-of_lt a b h = ground arith

  pub Before-of_not_lt : (a b : ℕ) → cmp_lt items a b ≡ false → Before items b a
  unfolding cmp_le cmp_lt
  Before-of_not_lt a b h = ground arith

  pub Before-antisymm : (a b : ℕ) → Before items a b → Before items b a → a ≡ b
  unfolding cmp_le
  Before-antisymm a b h k = ground arith

  abbrev pub IsSorted : List ℕ → Type 0
  IsSorted = Pairwise (Before items)

  -- Held from right to left.
  abbrev pub IsFalling : List ℕ → Type 0
  IsFalling = Pairwise (λ a b. Before items b a)

  abbrev IsFirst : ℕ → List ℕ → Type 0
  IsFirst a l = (x : ℕ) → Mem x l → Before items a x

  pub Before-prop : (a b : ℕ) → IsProp (Before items a b)
  Before-prop a b = Bool-set _ _

  IsFirst-cons : (a b : ℕ) (l : List ℕ) → Before items a b → IsFirst a l → IsFirst a (b ∷ l)
  IsFirst-cons a b l p h = (forall_mem-cons (Before-prop a)).1 (p, h)

  IsFirst-append : (a : ℕ) (l r : List ℕ) → IsFirst a l → IsFirst a r → IsFirst a (l ++ r)
  IsFirst-append a l r hl hr x m = Or.elim (Before-prop a x) (mem-append.0 m) (hl x) (hr x)

  IsFirst-perm : (a : ℕ) {l r : List ℕ} → Perm l r → IsFirst a r → IsFirst a l
  IsFirst-perm a p h x m = h x ((Perm.mem_iff p).0 m)

  -- What stands before the head of a sorted list stands before all of it.
  IsFirst-head : (a b : ℕ) (l : List ℕ) → Before items a b → IsSorted (b ∷ l) → IsFirst a (b ∷ l)
  IsFirst-head a b l p s =
      IsFirst-cons a b l p (λ x m. Before-trans a b x p ((Pairwise-cons.0 s).0 x m))

  merge_first :
      (x y : ℕ) (l r : List ℕ)
      → Before items x y
      → merge items (x ∷ l) (y ∷ r) ≡ x ∷ merge items l (y ∷ r)
  unfolding merge
  merge_first x y l r p = ground arith

  merge_second :
      (x y : ℕ) (l r : List ℕ)
      → cmp_le items x y ≡ false
      → merge items (x ∷ l) (y ∷ r) ≡ y ∷ merge items (x ∷ l) r
  unfolding merge
  merge_second x y l r p = ground arith

  pub merge-perm : (l r : List ℕ) → Perm (merge items l r) (l ++ r)
  unfolding merge
  merge-perm [] r = Perm.rfl
  merge-perm (x ∷ l) [] = rw (append-nil l) Perm.rfl
  merge-perm (x ∷ l) (y ∷ r) = elim (Bool-cases (cmp_le items x y)) [
    | inl p ↦ rw (merge_first x y l r p) (Perm.cons x (merge-perm l (y ∷ r)))
    | inr p ↦
        rw (merge_second x y l r p)
          (Perm.trans (Perm.cons y (merge-perm (x ∷ l) r)) (Perm.symm (perm_middle (x ∷ l) r)))
  ]

  pub merge-IsSorted : (l r : List ℕ) → IsSorted l → IsSorted r → IsSorted (merge items l r)
  unfolding merge
  merge-IsSorted [] r sl sr = sr
  merge-IsSorted (x ∷ l) [] sl sr = sl
  merge-IsSorted (x ∷ l) (y ∷ r) sl sr =
      let (first_l, tail_l) = Pairwise-cons.0 sl in
      let (first_r, tail_r) = Pairwise-cons.0 sr in
      elim (Bool-cases (cmp_le items x y)) [
        | inl p ↦ rw (merge_first x y l r p) (
            Pairwise.cons
              (IsFirst-perm x (merge-perm l (y ∷ r))
                (IsFirst-append x l (y ∷ r) first_l (IsFirst-head x y r p sr)))
              (merge-IsSorted l (y ∷ r) tail_l sr))
        | inr p ↦ rw (merge_second x y l r p) (
            Pairwise.cons
              (IsFirst-perm y (merge-perm (x ∷ l) r)
                (IsFirst-append y (x ∷ l) r (IsFirst-head y x l (Before-total x y p) sl) first_r))
              (merge-IsSorted (x ∷ l) r sl tail_r))
      ]
