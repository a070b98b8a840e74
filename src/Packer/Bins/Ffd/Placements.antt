-- ===== src/Packer/Bins/Ffd/Placements.antt =====
-- The placing loop of `tp_bin_assign_ffd`, read as a list of the chosen bins in the order of the
-- visit.
use tarpack.Prelude.{
  ℕ, suc, ◌+◌, ◌≤◌, ◌<◌, ◌≡◌, ◌≢◌, ◌⊎◌, inl, inr, Option, none, some, List, [], ◌∷◌, ◌++◌, arith,
  leb, leb→le, Bool-cases, Option-cases, length, get_or, ◌-◌, sym, ap, ◌∙◌, false, ltb, ltb→lt, set,
  length-set, length-snoc, get_or-length, get_or-append_left, get_or-set_self, get_or-set_ne, true,
}
use tarpack.Packer.Bins.{BinItem}
use tarpack.Packer.Bins.Ffd.{Memory, BinRemArray, bin_rem_push, first_room, pushed, place}

-- The bins that the loop chooses for `items`, visited from left to right.
unfoldable pub placements : Memory → ℕ → List BinItem → BinRemArray → Option (BinRemArray × List ℕ)
placements m target [] a = some (a, [])
placements m target (i ∷ items) a = elim (place m target a i.cost) [
  | none ↦ none
  | some (a', b) ↦ elim (placements m target items a') [
    | none ↦ none
    | some (a'', bs) ↦ some (a'', b ∷ bs)
  ]
]

first_room_lem :
    (cost k : ℕ) (rem : List ℕ) (b : ℕ)
    → first_room cost k rem ≡ some b
    → (j : ℕ) × (b ≡ k + j) × (j < length rem) × (cost ≤ get_or rem j 0)
unfolding first_room
first_room_lem cost k [] b h = absurd (cc)
first_room_lem cost k (r ∷ rem) b h = elim (Bool-cases (leb cost r)) [
  | inl fits ↦ (0, ground arith, omega arith, leb→le cost r fits)
  | inr full ↦
      let (j, e, p, q) = first_room_lem cost (k + 1) rem b (ground arith) in
      (suc j, omega arith, omega arith, q)
]

-- What one round does to the room of bin `b`.
abbrev pub Placed : ℕ → BinRemArray → ℕ → ℕ → BinRemArray → ℕ → Type 0
Placed target a cost b a' chosen =
    (length a'.rem ≡ length a.rem + 1)
      × (chosen ≡ length a.rem)
      × ((target < cost) × (get_or a'.rem chosen 0 ≡ 0) ⊎ (get_or a'.rem chosen 0 + cost ≡ target))
      × (b < length a.rem → get_or a'.rem b 0 ≡ get_or a.rem b 0)
    ⊎ (length a'.rem ≡ length a.rem)
      × (chosen < length a.rem)
      × (b ≡ chosen → get_or a'.rem b 0 + cost ≡ get_or a.rem b 0)
      × (b ≢ chosen → get_or a'.rem b 0 ≡ get_or a.rem b 0)

bin_rem_push-rem :
    (m : Memory) (a : BinRemArray) (r : ℕ) (a' : BinRemArray)
    → bin_rem_push m a r ≡ some a'
    → a'.rem ≡ a.rem ++ r ∷ []
unfolding bin_rem_push
bin_rem_push-rem m a r a' h = ground arith

pushed-eq_some :
    (o : Option BinRemArray) (a' : BinRemArray) (chosen : ℕ)
    → pushed o ≡ some (a', chosen)
    → (o ≡ some a') × (chosen ≡ length a'.rem - 1)
unfolding pushed
pushed-eq_some none a' chosen h = absurd (cc)
pushed-eq_some (some x) a' chosen h =
    let e : ◌≡◌ {A = BinRemArray × ℕ} (x, length x.rem - 1) (a', chosen) = cc in
    (ap some (ap (λ p. p.0) e), sym (ap (λ p. p.1) e) ∙ ap (λ p. length (p.0).rem - 1) e)

rest_fits : (target cost r : ℕ) → ltb target cost ≡ false → r ≡ target - cost → r + cost ≡ target
rest_fits target cost r under e = ground arith

module _ (m : Memory) (a a' : BinRemArray) (chosen : ℕ) where
  pushed_lem :
      (r : ℕ)
      → pushed (bin_rem_push m a r) ≡ some (a', chosen)
      → (a'.rem ≡ a.rem ++ r ∷ []) × (chosen ≡ length a.rem)
  pushed_lem r h =
      let (e, last) = pushed-eq_some (bin_rem_push m a r) a' chosen h in
      let same = bin_rem_push-rem m a r a' e in
      (same, last ∙ rw same (omega (arith, length-snoc a.rem r)))

  -- A new bin with room `r`.
  opened :
      (r b : ℕ)
      → pushed (bin_rem_push m a r) ≡ some (a', chosen)
      → (length a'.rem ≡ length a.rem + 1)
        × (chosen ≡ length a.rem)
        × (get_or a'.rem chosen 0 ≡ r)
        × (b < length a.rem → get_or a'.rem b 0 ≡ get_or a.rem b 0)
  opened r b h =
      let (same, last) = pushed_lem r h in
      (
        rw same (omega (arith, length-snoc a.rem r)),
        last,
        rw same (rw last (get_or-length a.rem r 0)),
        λ lt. rw same (get_or-append_left a.rem (r ∷ []) b 0 lt),
      )

  -- The room that a joined bin loses.
  joined :
      (cost b c : ℕ)
      → first_room cost 0 a.rem ≡ some c
      → a'.rem ≡ set a.rem c (get_or a.rem c 0 - cost)
      → chosen ≡ c
      → (length a'.rem ≡ length a.rem)
        × (chosen < length a.rem)
        × (b ≡ chosen → get_or a'.rem b 0 + cost ≡ get_or a.rem b 0)
        × (b ≢ chosen → get_or a'.rem b 0 ≡ get_or a.rem b 0)
  joined cost b c found same is_c =
      let (j, e, lt, fits) = first_room_lem cost 0 a.rem c found in
      let c_is_j : c ≡ j = omega arith in
      let room = get_or a.rem c 0 - cost in
      let fits' : cost ≤ get_or a.rem c 0 = rw c_is_j fits in
      (
        rw same (length-set a.rem c room),
        omega arith,
        λ is_b.
            let at_c = get_or-set_self a.rem c room 0 (omega arith) in
            rw same (rw (is_b ∙ is_c) (omega (arith, at_c, fits'))),
        λ other. rw same (get_or-set_ne a.rem c b room 0 (λ q. other (sym q ∙ sym is_c))),
      )

  place_over :
      (target cost : ℕ)
      → ltb target cost ≡ true
      → place m target a cost ≡ pushed (bin_rem_push m a 0)
  unfolding place
  place_over target cost over = rw over

  place_full :
      (target cost : ℕ)
      → ltb target cost ≡ false
      → first_room cost 0 a.rem ≡ none
      → place m target a cost ≡ pushed (bin_rem_push m a (target - cost))
  unfolding place
  place_full target cost under full = rw under (rw full)

  place_join :
      (target cost c : ℕ)
      → ltb target cost ≡ false
      → first_room cost 0 a.rem ≡ some c
      → place m target a cost ≡ some (record a { rem = set a.rem c (get_or a.rem c 0 - cost) }, c)
  unfolding place
  place_join target cost c under found = rw under (rw found)

  pub place_cases :
      (target cost b : ℕ)
      → place m target a cost ≡ some (a', chosen)
      → Placed target a cost b a' chosen
  place_cases target cost b h = elim (Bool-cases (ltb target cost)) [
    | inl over ↦
        let (len, last, room, keep) = opened 0 b (sym (place_over target cost over) ∙ h) in
        inl (len, last, inl (ltb→lt _ _ over, room), keep)
    | inr under ↦ elim (Option-cases (first_room cost 0 a.rem)) [
      | inl full ↦
          let (len, last, room, keep) =
            opened (target - cost) b (sym (place_full target cost under full) ∙ h) in
          inl (len, last, inr (rest_fits target cost _ under room), keep)
      | inr (c, found) ↦
          let e : ◌≡◌ {A = BinRemArray × ℕ}
              (record a { rem = set a.rem c (get_or a.rem c 0 - cost) }, c) (a', chosen) =
            cc (sym (place_join target cost c under found), h) in
          inr (joined cost b c found (sym (ap (λ p. (p.0).rem) e)) (sym (ap (λ p. p.1) e)))
    ]
  ]
