-- ===== src/Packer/Ordering/Fill.antt =====
-- The filling loop keeps the layout, and the slices of its result are the bins.
use tarpack.Packer.Ordering.{fill, pick}
use native.Mathlib.Decide.{ℕ_discrete}
use tarpack.Prelude.{
  ℕ, suc, ◌+◌, ◌-◌, ◌<◌, ◌≡◌, sym, ap, ap₂, ◌∙◌, inl, inr, Option, some, List, [], ◌∷◌, ◌++◌, arith,
  length, set, get_or, length-set, append_nil, append_assoc, set-append_right, map-append,
  get_or-set_self, get_or-set_ne, none, map, replicate, length-map, set_here,
}
use tarpack.Packer.Ordering.Layout.{
  layout, widths, width, region, layout-add, length-layout, layout_skip, pick_self, pick-append,
}
use tarpack.Packer.Ordering.Slices.{InRange, pick_nil, width-snoc_self, width-snoc_ne}

module _ {A : Type 0} where
  pub layout_split :
      (n c : ℕ) (pre rest : List (A × ℕ))
      → c < n
      → layout 0 n pre rest
        ≡ layout 0 c pre rest ++ (region c pre rest ++ layout (c + 1) (n - (c + 1)) pre rest)
  unfolding layout
  layout_split n c pre rest h =
      ap (λ k. layout 0 k pre rest) {x = n} {y = c + suc (n - (c + 1))} (omega arith)
      ∙ layout-add 0 c (suc (n - (c + 1))) pre rest
      ∙ ap
          (λ j. layout 0 c pre rest ++ (region j pre rest ++ layout (j + 1) (n - (c + 1)) pre rest))
          (omega arith)

  -- The cell that waits first in the region of bin `c` takes the object.
  set-region :
      (c : ℕ) (x : A) (pre rest : List (A × ℕ)) (more : List (Option A))
      → set (region c pre ((x, c) ∷ rest) ++ more) (width c pre) (some x)
        ≡ region c (pre ++ (x, c) ∷ []) rest ++ more
  set-region c x pre rest more =
      rw
        (
          pick_self c x rest,
          pick-append c pre ((x, c) ∷ []),
          pick_self c x [],
          pick_nil c,
          map-append some (pick c pre) (x ∷ []),
        )
        (let p = map some (pick c pre) in
          let q = replicate (width c rest) none in
          ap (λ l. set l (width c pre) (some x)) (append_assoc p (none ∷ q) more)
          ∙ ap (λ i. set (p ++ (none ∷ (q ++ more))) i (some x))
              (sym (length-map some (pick c pre)))
          ∙ set_here p (q ++ more) none (some x)
          ∙ sym (append_assoc p (some x ∷ q) more)
          ∙ ap (λ l. l ++ more) (sym (append_assoc p (some x ∷ []) q)))

  set-layout :
      (n c : ℕ) (x : A) (pre rest : List (A × ℕ)) (i : ℕ)
      → c < n
      → i ≡ widths 0 c (pre ++ (x, c) ∷ rest) + width c pre
      → set (layout 0 n pre ((x, c) ∷ rest)) i (some x) ≡ layout 0 n (pre ++ (x, c) ∷ []) rest
  set-layout n c x pre rest i h e =
      let before = layout 0 c pre ((x, c) ∷ rest) in
      let after = layout (c + 1) (n - (c + 1)) pre ((x, c) ∷ rest) in
      ap (λ l. set l i (some x)) (layout_split n c pre ((x, c) ∷ rest) h)
      ∙ ap (λ j. set (before ++ (region c pre ((x, c) ∷ rest) ++ after)) j (some x))
          {y = length before + width c pre}
          (omega (arith, e, length-layout 0 c pre ((x, c) ∷ rest)))
      ∙ set-append_right before (region c pre ((x, c) ∷ rest) ++ after) (width c pre) (some x)
      ∙ ap (λ l. before ++ l) (set-region c x pre rest after)
      ∙ ap₂ (λ l r. l ++ (region c (pre ++ (x, c) ∷ []) rest ++ r))
          (sym (layout_skip 0 c c x pre rest (inr (omega arith))))
          (sym (layout_skip (c + 1) (n - (c + 1)) c x pre rest (inl (omega arith))))
      ∙ sym (layout_split n c (pre ++ (x, c) ∷ []) rest h)

  pub fill-layout :
      (n : ℕ) (pre rest : List (A × ℕ)) (cursor : List ℕ)
      → InRange n rest
      → length cursor ≡ n
      → ((b : ℕ) → b < n → get_or cursor b 0 ≡ widths 0 b (pre ++ rest) + width b pre)
      → fill (layout 0 n pre rest) cursor rest ≡ layout 0 n (pre ++ rest) []
  unfolding fill
  fill-layout n pre [] cursor h hl hc = ap (λ l. layout 0 n l []) (sym (append_nil pre))
  fill-layout n pre ((x, c) ∷ rest) cursor (hc, h) hl inv =
      ap (λ l. fill l (set cursor c (get_or cursor c 0 + 1)) rest)
        (set-layout n c x pre rest (get_or cursor c 0) hc (inv c hc))
      ∙ fill-layout n (pre ++ (x, c) ∷ []) rest (set cursor c (get_or cursor c 0 + 1)) h
          (length-set cursor c (get_or cursor c 0 + 1) ∙ hl)
          (λ b hb. elim (ℕ_discrete b c) [
            | yes eb ↦ omega (
              arith,
              ap (λ j. get_or (set cursor c (get_or cursor c 0 + 1)) j 0) eb,
              get_or-set_self cursor c (get_or cursor c 0 + 1) 0 (omega arith),
              inv c hc,
              ap (λ j. widths 0 j ((pre ++ (x, c) ∷ []) ++ rest)) eb,
              ap (λ j. width j (pre ++ (x, c) ∷ [])) eb,
              ap (widths 0 c) (append_assoc pre ((x, c) ∷ []) rest),
              width-snoc_self c x pre,
            )
            | no ne ↦ omega (
              arith,
              get_or-set_ne cursor c b (get_or cursor c 0 + 1) 0 (λ e. ne (sym e)),
              inv b hb,
              ap (widths 0 b) (append_assoc pre ((x, c) ∷ []) rest),
              width-snoc_ne b c x pre (λ e. ne (sym e)),
            )
          ])
      ∙ ap (λ l. layout 0 n l []) (append_assoc pre ((x, c) ∷ []) rest)
