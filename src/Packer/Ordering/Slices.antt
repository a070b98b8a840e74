-- ===== src/Packer/Ordering/Slices.antt =====
-- Each slice of the sorted array holds exactly the objects of its bin, in their order.
use tarpack.Packer.Ordering.{bin_sizes, bin_offsets, pick}
use tarpack.Prelude.{
  ℕ, zero, suc, ◌+◌, ◌-◌, ◌≤◌, ◌<◌, ◌≡◌, ap, ◌∙◌, ◌⊎◌, List, [], ◌∷◌, ◌++◌, arith, length, set,
  get_or, All, length-append, refl, sym, ap₂, ◌≢◌, inl, inr, append_nil, append_assoc,
}
use tarpack.Packer.Ordering.Layout.{
  layout, widths, width, length-layout, layout-add, pick_ne, pick_self, pick-append,
}

module _ {A : Type 0} where
  abbrev pub InRange : ℕ → List (A × ℕ) → Type 0
  InRange n ps = All (λ p. p.1 < n) ps

  pub pick_nil : (b : ℕ) → pick {A = A} b [] ≡ []
  unfolding pick
  pick_nil b = refl

  pub widths-add :
      (b j k : ℕ) (ps : List (A × ℕ)) → widths b (j + k) ps ≡ widths b j ps + widths (b + j) k ps
  widths-add b j k ps = omega (
    arith,
    length-layout b (j + k) [] ps,
    length-layout b j [] ps,
    length-layout (b + j) k [] ps,
    ap length (layout-add b j k [] ps),
    length-append (layout b j [] ps) (layout (b + j) k [] ps),
  )

  widths_out :
      (b k c : ℕ) (x : A) (ps : List (A × ℕ))
      → (c < b) ⊎ (b + k ≤ c)
      → widths b k ((x, c) ∷ ps) ≡ widths b k ps
  unfolding widths
  widths_out b zero c x ps h = refl
  widths_out b (suc k) c x ps h =
      ap₂ (◌+◌)
        (ap length (pick_ne b c x ps (elim h [ inl l ↦ omega arith | inr l ↦ omega arith ])))
        (widths_out (b + 1) k c x ps
          (elim h [ inl l ↦ inl (omega arith) | inr l ↦ inr (omega arith) ]))

  widths_one : (b : ℕ) (ps : List (A × ℕ)) → widths b 1 ps ≡ width b ps
  unfolding widths
  widths_one b ps = omega arith

  pub widths_suc :
      (b j : ℕ) (ps : List (A × ℕ)) → widths b (j + 1) ps ≡ widths b j ps + width (b + j) ps
  widths_suc b j ps = omega (arith, widths-add b j 1 ps, widths_one (b + j) ps)

  -- The bins `c` above, `c` itself and those below it.
  widths_split :
      (n c : ℕ) (ps : List (A × ℕ))
      → c < n
      → widths 0 n ps ≡ widths 0 c ps + (width c ps + widths (c + 1) (n - (c + 1)) ps)
  widths_split n c ps h =
      ap (λ k. widths 0 k ps) (omega arith)
      ∙ widths-add 0 (c + 1) (n - (c + 1)) ps
      ∙ omega (
        arith,
        widths_suc 0 c ps,
        ap (λ j. width j ps) {x = 0 + c} {y = c} (omega arith),
        ap (λ j. widths j (n - (c + 1)) ps) {x = 0 + (c + 1)} {y = c + 1} (omega arith),
      )

  widths_nil : (b n : ℕ) (ps : List (A × ℕ)) → ps ≡ [] → widths b n ps ≡ 0
  unfolding widths
  widths_nil b zero ps h = refl
  widths_nil b (suc n) ps h =
      omega (arith, ap (width b) h, ap length (pick_nil b), widths_nil (b + 1) n ps h)

  pub widths_total : (n : ℕ) (ps : List (A × ℕ)) → InRange n ps → widths 0 n ps ≡ length ps
  widths_total n [] h = widths_nil 0 n [] refl
  widths_total n ((x, c) ∷ ps) (hc, h) = omega (
    arith,
    widths_split n c ((x, c) ∷ ps) hc,
    widths_split n c ps hc,
    widths_total n ps h,
    widths_out 0 c c x ps (inr (omega arith)),
    widths_out (c + 1) (n - (c + 1)) c x ps (inl (omega arith)),
    ap length (pick_self c x ps),
  )

  pub width-snoc_ne :
      (b c : ℕ) (x : A) (pre : List (A × ℕ)) → c ≢ b → width b (pre ++ (x, c) ∷ []) ≡ width b pre
  width-snoc_ne b c x pre h = omega (
    arith,
    ap length (pick-append b pre ((x, c) ∷ [])),
    length-append (pick b pre) (pick b ((x, c) ∷ [])),
    ap length (pick_ne b c x [] h),
    ap length (pick_nil b),
  )

  pub width-snoc_self :
      (b : ℕ) (x : A) (pre : List (A × ℕ)) → width b (pre ++ (x, b) ∷ []) ≡ width b pre + 1
  width-snoc_self b x pre = omega (
    arith,
    ap length (pick-append b pre ((x, b) ∷ [])),
    length-append (pick b pre) (pick b ((x, b) ∷ [])),
    ap length (pick_self b x []),
    ap length (pick_nil b),
  )

  -- The sizes of the `k` bins from `b` on.
  unfoldable pub sizes_from : ℕ → ℕ → List (A × ℕ) → List ℕ
  sizes_from b zero ps = []
  sizes_from b (suc k) ps = width b ps ∷ sizes_from (b + 1) k ps

  sizes_out :
      (b k c : ℕ) (x : A) (pre : List (A × ℕ))
      → c < b
      → sizes_from b k pre ≡ sizes_from b k (pre ++ (x, c) ∷ [])
  unfolding sizes_from
  sizes_out b zero c x pre h = refl
  sizes_out b (suc k) c x pre h =
      ap₂ (◌∷◌) (sym (width-snoc_ne b c x pre (omega arith)))
        (sizes_out (b + 1) k c x pre (omega arith))

  sizes_next :
      (b k j : ℕ) (x : A) (pre : List (A × ℕ))
      → j < k
      → set (sizes_from b k pre) j (get_or (sizes_from b k pre) j 0 + 1)
        ≡ sizes_from b k (pre ++ (x, b + j) ∷ [])
  unfolding sizes_from
  sizes_next b zero j x pre h = elim h [ ]
  sizes_next b (suc k) zero x pre h =
      ap₂ (◌∷◌)
        (sym (width-snoc_self b x pre) ∙ ap (λ c. width b (pre ++ (x, c) ∷ [])) (omega arith))
        (sizes_out (b + 1) k b x pre (omega arith)
          ∙ ap (λ c. sizes_from (b + 1) k (pre ++ (x, c) ∷ [])) (omega arith))
  sizes_next b (suc k) (suc j) x pre h =
      ap₂ (◌∷◌) (sym (width-snoc_ne b (b + suc j) x pre (λ e. omega arith))) (
        sizes_next (b + 1) k j x pre (omega arith)
        ∙ ap (λ c. sizes_from (b + 1) k (pre ++ (x, c) ∷ [])) (omega arith))

  pub bin_sizes-sizes_from :
      (n : ℕ) (pre rest : List (A × ℕ))
      → InRange n rest
      → bin_sizes (sizes_from 0 n pre) rest ≡ sizes_from 0 n (pre ++ rest)
  unfolding bin_sizes
  bin_sizes-sizes_from n pre [] h = ap (sizes_from 0 n) (sym (append_nil pre))
  bin_sizes-sizes_from n pre ((x, c) ∷ rest) (hc, h) =
      ap (λ sizes. bin_sizes sizes rest)
        (sizes_next 0 n c x pre hc
          ∙ ap (λ j. sizes_from 0 n (pre ++ (x, j) ∷ [])) {x = 0 + c} (omega arith))
      ∙ bin_sizes-sizes_from n (pre ++ (x, c) ∷ []) rest h
      ∙ ap (sizes_from 0 n) (append_assoc pre ((x, c) ∷ []) rest)

  pub get_or-bin_offsets :
      (r b k j : ℕ) (ps : List (A × ℕ))
      → j < k
      → get_or (bin_offsets r (sizes_from b k ps)) j 0 ≡ r + widths b j ps
  unfolding bin_offsets sizes_from widths
  get_or-bin_offsets r b zero j ps h = elim h [ ]
  get_or-bin_offsets r b (suc k) zero ps h = omega arith
  get_or-bin_offsets r b (suc k) (suc j) ps h =
      omega (arith, get_or-bin_offsets (r + width b ps) (b + 1) k j ps (omega arith))
