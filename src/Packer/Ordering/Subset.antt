-- ===== src/Packer/Ordering/Subset.antt =====
-- The slices of the sorted array are the bins.
use tarpack.Packer.Ordering.{bin_offsets, pick, offsets_of, ordered, subset, bin_sizes, fill}
use tarpack.Prelude.{
  ℕ, zero, suc, ◌+◌, ◌-◌, ◌<◌, ◌≡◌, refl, sym, ap, ap₂, ◌∙◌, inl, inr, none, some, List, [], ◌∷◌,
  ◌++◌, map, arith, ltb, if◌then◌else◌, ltb→lt, Bool-cases, length, take, drop, get_or, replicate,
  take-length, drop-length, append_nil, append_assoc, length-map, replicate-add,
}
use tarpack.Packer.Ordering.Layout.{layout, widths, width, region, length-layout}
use tarpack.Packer.Ordering.Slices.{
  InRange, sizes_from, pick_nil, get_or-bin_offsets, widths_suc, bin_sizes-sizes_from, widths_total,
}
use tarpack.Packer.Ordering.Fill.{fill-layout, layout_split}

length-bin_offsets : (r : ℕ) (sizes : List ℕ) → length (bin_offsets r sizes) ≡ length sizes
unfolding bin_offsets
length-bin_offsets r [] = refl
length-bin_offsets r (s ∷ sizes) = ap suc (length-bin_offsets (r + s) sizes)

module _ {A : Type 0} where
  -- The array before the loop.
  layout_empty : (b k : ℕ) (ps : List (A × ℕ)) → layout b k [] ps ≡ replicate (widths b k ps) none
  unfolding layout widths pick
  layout_empty b zero ps = refl
  layout_empty b (suc k) ps =
      ap (λ l. replicate (width b ps) none ++ l) (layout_empty (b + 1) k ps)
      ∙ sym (replicate-add (width b ps) (widths (b + 1) k ps) none)

  sizes_empty : (b k : ℕ) (ps : List (A × ℕ)) → ps ≡ [] → replicate k 0 ≡ sizes_from b k ps
  unfolding sizes_from
  sizes_empty b zero ps h = refl
  sizes_empty b (suc k) ps h =
      ap₂ (◌∷◌) (sym (ap (width b) h ∙ ap length (pick_nil b))) (sizes_empty (b + 1) k ps h)

  length-sizes_from : (b k : ℕ) (ps : List (A × ℕ)) → length (sizes_from b k ps) ≡ k
  unfolding sizes_from
  length-sizes_from b zero ps = refl
  length-sizes_from b (suc k) ps = ap suc (length-sizes_from (b + 1) k ps)

  offsets_eq :
      (n : ℕ) (ps : List (A × ℕ))
      → InRange n ps
      → offsets_of n ps ≡ bin_offsets 0 (sizes_from 0 n ps)
  unfolding offsets_of
  offsets_eq n ps h =
      ap (bin_offsets 0)
        (ap (λ l. bin_sizes l ps) (sizes_empty 0 n [] refl) ∙ bin_sizes-sizes_from n [] ps h)

  offset_at :
      (n : ℕ) (ps : List (A × ℕ)) (b : ℕ)
      → InRange n ps
      → b < n
      → get_or (offsets_of n ps) b 0 ≡ widths 0 b ps
  offset_at n ps b h hb =
      omega (arith, ap (λ l. get_or l b 0) (offsets_eq n ps h), get_or-bin_offsets 0 0 n b ps hb)

  ordered-layout : (n : ℕ) (ps : List (A × ℕ)) → InRange n ps → ordered n ps ≡ layout 0 n ps []
  unfolding ordered
  ordered-layout n ps h =
      ap (λ l. fill l (offsets_of n ps) ps)
        (ap (λ k. replicate k none) (sym (widths_total n ps h)) ∙ sym (layout_empty 0 n ps))
      ∙ fill-layout n [] ps (offsets_of n ps) h
          (ap length (offsets_eq n ps h)
            ∙ length-bin_offsets 0 (sizes_from 0 n ps)
            ∙ length-sizes_from 0 n ps)
          (λ b hb. omega (arith, offset_at n ps b h hb, ap length (pick_nil {A = A} b)))

  slice_end :
      (n : ℕ) (ps : List (A × ℕ)) (b : ℕ)
      → InRange n ps
      → b < n
      → (if ltb (b + 1) n then get_or (offsets_of n ps) (b + 1) 0 else length ps)
        ≡ widths 0 b ps + width b ps
  slice_end n ps b h hb = elim (Bool-cases (ltb (b + 1) n)) [
    | inl e ↦ rw e (offset_at n ps (b + 1) h (ltb→lt (b + 1) n e) ∙ widths_suc 0 b ps ∙ at_zero)
    | inr e ↦ rw e (
        sym (widths_total n ps h)
        ∙ ap (λ k. widths 0 k ps) (ground arith)
        ∙ widths_suc 0 b ps
        ∙ at_zero)
  ]
    where
      at_zero : widths 0 b ps + width (0 + b) ps ≡ widths 0 b ps + width b ps
      at_zero = ap (λ j. widths 0 b ps + width j ps) (omega arith)

  -- The slice of pack `b` in the sorted array is exactly the list of the objects that are assigned
  -- to bin `b`, in their order, if every object has a bin below `n` and `b` is one.
  pub subset-pick :
      (n : ℕ) (ps : List (A × ℕ)) (b : ℕ)
      → InRange n ps
      → b < n
      → subset n ps b ≡ map some (pick b ps)
  unfolding subset
  subset-pick n ps b h hb =
      let before = layout 0 b ps [] in
      let after = layout (b + 1) (n - (b + 1)) ps [] in
      rw
        (
          offset_at n ps b h hb,
          slice_end n ps b h hb,
          ordered-layout n ps h,
          layout_split n b ps [] hb,
        )
        (ap₂ take {x = widths 0 b ps + width b ps - widths 0 b ps}
            {y = length (map some (pick b ps))} (omega (arith, length-map some (pick b ps)))
            (ap (λ k. drop k (before ++ (region b ps [] ++ after)))
                (omega (arith, length-layout 0 b ps [], ap (widths 0 b) (append_nil ps)))
              ∙ drop-length before (region b ps [] ++ after)
              ∙ append_assoc (map some (pick b ps)) (replicate (width b []) none) after)
          ∙ take-length (map some (pick b ps)) (replicate (width b []) none ++ after))
