-- ===== src/Packer/Ordering/Layout.antt =====
-- The array while it is filled: bin after bin, the objects that are placed and the cells that wait.
use tarpack.Prelude.{
  ℕ, zero, suc, ◌+◌, ◌≤◌, ◌<◌, ◌≡◌, refl, ◌≢◌, ◌⊎◌, inl, inr, Option, none, some, List, [], ◌∷◌,
  ◌++◌, map, arith, ◌==◌, Bool-cases, length, replicate, sym, ap, ap₂, ◌∙◌, length-append,
  append_nil, append_assoc, length-replicate, length-map,
}
use tarpack.Packer.Ordering.{pick}

module _ {A : Type 0} where
  abbrev pub width : ℕ → List (A × ℕ) → ℕ
  width b ps = length (pick b ps)

  -- The places of the `k` bins from `b` on.
  unfoldable pub widths : ℕ → ℕ → List (A × ℕ) → ℕ
  widths b zero ps = 0
  widths b (suc k) ps = width b ps + widths (b + 1) k ps

  abbrev pub region : ℕ → List (A × ℕ) → List (A × ℕ) → List (Option A)
  region b pre rest = map some (pick b pre) ++ replicate (width b rest) none

  -- The cells of the `k` bins from `b` on, when `pre` is placed and `rest` is not.
  unfoldable pub layout : ℕ → ℕ → List (A × ℕ) → List (A × ℕ) → List (Option A)
  layout b zero pre rest = []
  layout b (suc k) pre rest = region b pre rest ++ layout (b + 1) k pre rest

  pub pick-append : (b : ℕ) (ps qs : List (A × ℕ)) → pick b (ps ++ qs) ≡ pick b ps ++ pick b qs
  unfolding pick
  pick-append b [] qs = refl
  pick-append b ((x, c) ∷ ps) qs = elim (Bool-cases (c == b)) [
    | inl e ↦ rw (e, pick-append b ps qs)
    | inr e ↦ rw (e, pick-append b ps qs)
  ]

  pub pick_self : (b : ℕ) (x : A) (ps : List (A × ℕ)) → pick b ((x, b) ∷ ps) ≡ x ∷ pick b ps
  unfolding pick
  pick_self b x ps = ground arith

  pub pick_ne : (b c : ℕ) (x : A) (ps : List (A × ℕ)) → c ≢ b → pick b ((x, c) ∷ ps) ≡ pick b ps
  unfolding pick
  pick_ne b c x ps h = ground arith

  pub layout-add :
      (b j k : ℕ) (pre rest : List (A × ℕ))
      → layout b (j + k) pre rest ≡ layout b j pre rest ++ layout (b + j) k pre rest
  unfolding layout
  layout-add b zero k pre rest =
      ap₂ (λ i l. layout i l pre rest) {x = b} (omega arith) (omega arith)
  layout-add b (suc j) k pre rest =
      ap (λ l. layout b l pre rest) {y = suc (j + k)} (omega arith)
      ∙ ap (λ l. region b pre rest ++ l)
          (layout-add (b + 1) j k pre rest
            ∙ ap (λ i. layout (b + 1) j pre rest ++ layout i k pre rest) (omega arith))
      ∙ sym (
          append_assoc (region b pre rest) (layout (b + 1) j pre rest)
            (layout (b + suc j) k pre rest))

  region_skip :
      (b c : ℕ) (x : A) (pre rest : List (A × ℕ))
      → c ≢ b
      → region b (pre ++ (x, c) ∷ []) rest ≡ region b pre ((x, c) ∷ rest)
  unfolding pick
  region_skip b c x pre rest h = rw (
    pick-append b pre ((x, c) ∷ []),
    pick_ne b c x [] h,
    pick_ne b c x rest h,
    append_nil (pick b pre),
  )

  -- Placing an object of bin `c` leaves the cells of the other bins.
  pub layout_skip :
      (b k c : ℕ) (x : A) (pre rest : List (A × ℕ))
      → (c < b) ⊎ (b + k ≤ c)
      → layout b k (pre ++ (x, c) ∷ []) rest ≡ layout b k pre ((x, c) ∷ rest)
  unfolding layout
  layout_skip b zero c x pre rest h = refl
  layout_skip b (suc k) c x pre rest h =
      ap₂ (◌++◌) (region_skip b c x pre rest (elim h [ inl l ↦ omega arith | inr l ↦ omega arith ]))
        (layout_skip (b + 1) k c x pre rest
          (elim h [ inl l ↦ inl (omega arith) | inr l ↦ inr (omega arith) ]))

  length-region :
      (b : ℕ) (pre rest : List (A × ℕ)) → length (region b pre rest) ≡ width b (pre ++ rest)
  length-region b pre rest = omega (
    arith,
    length-append (map some (pick b pre)) (replicate (width b rest) none),
    length-map some (pick b pre),
    length-replicate {A = Option A} (width b rest) none,
    ap length (pick-append b pre rest),
    length-append (pick b pre) (pick b rest),
  )

  pub length-layout :
      (b k : ℕ) (pre rest : List (A × ℕ)) → length (layout b k pre rest) ≡ widths b k (pre ++ rest)
  unfolding layout widths
  length-layout b zero pre rest = refl
  length-layout b (suc k) pre rest =
      length-append (region b pre rest) (layout (b + 1) k pre rest)
      ∙ ap₂ (◌+◌) (length-region b pre rest) (length-layout (b + 1) k pre rest)
