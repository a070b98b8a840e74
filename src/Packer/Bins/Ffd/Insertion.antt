-- ===== src/Packer/Bins/Ffd/Insertion.antt =====
-- The fallback of `ffd_sort_indices` for a failed `malloc`, and the sort as a whole.
use tarpack.Prelude.{
  ℕ, ◌≡◌, inl, inr, false, List, [], ◌∷◌, ◌++◌, arith, Bool-cases, zero, suc, ◌/◌, ◌≤◌, ◌<◌, ltb,
  ltb→lt, length, take, drop, take-append-drop, length-take, length-drop,
}
use mathlib.Core.List.{
  Perm, Pairwise, Pairwise-cons, Pairwise-singleton, Pairwise-reverse, Mem, perm_middle, append-nil,
  reverse_perm,
}
use mathlib.Core.List.Perm
use mathlib.Core.Logic.Or
use tarpack.Packer.Bins.{BinItem}
use tarpack.Packer.Bins.Ffd.{Memory, cmp_lt, shift, insertion_sort, sort_fuel, ffd_sort_indices}
use mathlib.Core.Logic.Or
use mathlib.Core.List.{mem-cons, Mem}
use tarpack.Packer.Bins.Ffd.Sort.{
  Before, Before-trans, Before-of_lt, Before-of_not_lt, Before-prop, IsSorted, IsFalling,
  merge-perm, merge-IsSorted,
}

half_take :
    (f : ℕ) (order : List ℕ)
    → length order ≤ suc f
    → ltb (length order) 2 ≡ false
    → length (take (length order / 2) order) ≤ f
half_take f order h long = ground (arith, length-take (length order / 2) order)

half_drop :
    (f : ℕ) (order : List ℕ)
    → length order ≤ suc f
    → ltb (length order) 2 ≡ false
    → length (drop (length order / 2) order) ≤ f
half_drop f order h long = ground (arith, length-drop (length order / 2) order)

module _ (items : List BinItem) where
  AllBefore-cons :
      (a b : ℕ) (l : List ℕ)
      → Before items b a
      → ((x : ℕ) → Mem x l → Before items x a)
      → (x : ℕ) → Mem x (b ∷ l)
      → Before items x a
  AllBefore-cons a b l p h x m = Or.elim (Before-prop items x a) (mem-cons.0 m) (λ e. rw e p) (h x)

  shift-perm : (key : ℕ) (ps : List ℕ) → Perm (shift items key ps) (key ∷ ps)
  unfolding shift
  shift-perm key [] = Perm.rfl
  shift-perm key (p ∷ ps) = elim (Bool-cases (cmp_lt items key p)) [
    | inl h ↦ rw h (Perm.trans (Perm.cons p (shift-perm key ps)) (Perm.swap key p ps))
    | inr h ↦ rw h Perm.rfl
  ]

  shift-IsFalling :
      (key : ℕ) (ps : List ℕ) → IsFalling items ps → IsFalling items (shift items key ps)
  unfolding shift
  shift-IsFalling key [] s = Pairwise-singleton _ key
  shift-IsFalling key (p ∷ ps) s =
      let (first, tail) = Pairwise-cons.0 s in
      elim (Bool-cases (cmp_lt items key p)) [
        | inl h ↦ rw h (
            Pairwise.cons
              (λ x m.
                AllBefore-cons p key ps (Before-of_lt items key p h) first x
                  ((Perm.mem_iff (shift-perm key ps)).0 m))
              (shift-IsFalling key ps tail))
        | inr h ↦ rw h (
            Pairwise.cons
              (AllBefore-cons key p ps (Before-of_not_lt items key p h)
                (λ x m. Before-trans items x p key (first x m) (Before-of_not_lt items key p h)))
              s)
      ]

  insertion_sort-perm :
      (sorted rest : List ℕ) → Perm (insertion_sort items sorted rest) (sorted ++ rest)
  unfolding insertion_sort
  insertion_sort-perm sorted [] = rw (append-nil sorted) (reverse_perm sorted)
  insertion_sort-perm sorted (key ∷ rest) =
      Perm.trans (insertion_sort-perm (shift items key sorted) rest) (
        Perm.trans (Perm.append_right rest (shift-perm key sorted))
          (Perm.symm (perm_middle sorted rest)))

  insertion_sort-IsSorted :
      (sorted rest : List ℕ)
      → IsFalling items sorted
      → IsSorted items (insertion_sort items sorted rest)
  unfolding insertion_sort
  insertion_sort-IsSorted sorted [] s = (Pairwise-reverse (Before-prop items)).1 s
  insertion_sort-IsSorted sorted (key ∷ rest) s =
      insertion_sort-IsSorted (shift items key sorted) rest (shift-IsFalling key sorted s)

  sort_fuel-perm : (m : Memory) (f : ℕ) (order : List ℕ) → Perm (sort_fuel f m items order) order
  unfolding sort_fuel
  sort_fuel-perm m zero order = Perm.rfl
  sort_fuel-perm m (suc f) order =
      let mid = length order / 2 in
      let left = sort_fuel f m items (take mid order) in
      let right = sort_fuel f m items (drop mid order) in
      let halves =
        Perm.append (sort_fuel-perm m f (take mid order)) (sort_fuel-perm m f (drop mid order)) in
      let whole : Perm (left ++ right) order = rw (take-append-drop mid order) at halves in
      elim (Bool-cases (ltb (length order) 2)) [
        | inl short ↦ rw short Perm.rfl
        | inr long ↦ rw long (elim (Bool-cases (m.has_tmp (left ++ right))) [
          | inl has ↦ rw has (Perm.trans (merge-perm items left right) whole)
          | inr not_has ↦ rw not_has (Perm.trans (insertion_sort-perm [] (left ++ right)) whole)
        ])
      ]

  few_IsSorted : (indices : List ℕ) → length indices < 2 → IsSorted items indices
  few_IsSorted (first ∷ second ∷ more) few = absurd (omega arith)
  few_IsSorted (first ∷ []) few = Pairwise-singleton (Before items) first
  few_IsSorted [] few = Pairwise.nil

  sort_fuel-IsSorted :
      (m : Memory) (f : ℕ) (order : List ℕ)
      → length order ≤ f
      → IsSorted items (sort_fuel f m items order)
  unfolding sort_fuel
  sort_fuel-IsSorted m zero order h = few_IsSorted order (omega arith)
  sort_fuel-IsSorted m (suc f) order h =
      let mid = length order / 2 in
      let left = sort_fuel f m items (take mid order) in
      let right = sort_fuel f m items (drop mid order) in
      elim (Bool-cases (ltb (length order) 2)) [
        | inl short ↦ rw short (few_IsSorted order (ltb→lt _ _ short))
        | inr long ↦
            let sl = sort_fuel-IsSorted m f (take mid order) (half_take f order h long) in
            let sr = sort_fuel-IsSorted m f (drop mid order) (half_drop f order h long) in
            rw long (elim (Bool-cases (m.has_tmp (left ++ right))) [
              | inl has ↦ rw has (merge-IsSorted items left right sl sr)
              | inr not_has ↦ rw not_has (insertion_sort-IsSorted [] (left ++ right) Pairwise.nil)
            ])
      ]

  -- The sort returns a rearrangement of the indices by falling cost, equal costs by rising index,
  -- whichever of its allocations fail: the recursion always has enough fuel.
  pub ffd_sort_indices-IsSorted :
      (m : Memory) (order : List ℕ)
      → Perm (ffd_sort_indices m items order) order
        × IsSorted items (ffd_sort_indices m items order)
  unfolding ffd_sort_indices
  ffd_sort_indices-IsSorted m order = (
    sort_fuel-perm m (length order) order,
    sort_fuel-IsSorted m (length order) order (omega arith),
  )
