-- ===== src/Packer/Recovery/Tail.antt =====
-- The repaired file holds the complete lines.
use tarpack.Packer.Recovery.{newline, scan_back, good_of, find_good, repair_index_tail, chunk_size}
use native.Mathlib.Decide.{ℕ_discrete}
use tarpack.Prelude.{
  ℕ, zero, suc, ◌+◌, ◌-◌, ◌≤◌, ◌<◌, ◌≡◌, refl, ap, ◌∙◌, ◌≢◌, ◌⊎◌, inl, inr, none, some, [], ◌∷◌,
  arith, ◌==◌, ==_iff, Bool-cases, take, drop, get_or, Bytes, sym, subst, ltb, if◌then◌else◌,
  ltb→lt, length, take_all,
}

get_or-take : (n i : ℕ) (s : Bytes) → i < n → get_or (take n s) i 0 ≡ get_or s i 0
get_or-take zero i s h = absurd (omega arith)
get_or-take (suc n) i [] h = refl
get_or-take (suc n) zero (c ∷ s) h = refl
get_or-take (suc n) (suc i) (c ∷ s) h = get_or-take n i s (omega arith)

get_or-drop : (n i : ℕ) (s : Bytes) → get_or (drop n s) i 0 ≡ get_or s (n + i) 0
get_or-drop zero i s = ap (λ j. get_or s j 0) (omega arith)
get_or-drop (suc n) i [] = refl
get_or-drop (suc n) i (c ∷ s) =
    get_or-drop n i s ∙ ap (λ j. get_or (c ∷ s) j 0) {x = suc (n + i)} (omega arith)

get_or-slice :
    (start want i : ℕ) (s : Bytes)
    → i < want
    → get_or (take want (drop start s)) i 0 ≡ get_or s (start + i) 0
get_or-slice start want i s h = get_or-take want i (drop start s) h ∙ get_or-drop start i s

-- `good` is behind a newline or at the start, and there is no newline from it up to `pos`.
pub record IsLineEnd (file : Bytes) (pos good : ℕ) : Type 0 where
  pub in_bounds : good ≤ pos
  pub at_line : (good ≡ 0) ⊎ (get_or file (good - 1) 0 ≡ newline)
  pub no_newline : (i : ℕ) → good ≤ i → i < pos → get_or file i 0 ≢ newline

one_more :
    (chunk : Bytes) (low n i : ℕ)
    → low ≤ i
    → i < suc n
    → get_or chunk n 0 ≢ newline
    → ((j : ℕ) → low ≤ j → j < n → get_or chunk j 0 ≢ newline)
    → get_or chunk i 0 ≢ newline
one_more chunk low n i le lt here before = elim (ℕ_discrete i n) [
  | yes e ↦ subst (λ j. get_or chunk j 0 ≢ newline) (sym e) here
  | no ne ↦ before i le (omega arith)
]

scan_back-cases :
    (chunk : Bytes) (n : ℕ)
    → ((scan_back chunk n ≡ none) × ((i : ℕ) → i < n → get_or chunk i 0 ≢ newline))
      ⊎ ((k : ℕ) × (scan_back chunk n ≡ some (k + 1))
          × (k < n)
          × (get_or chunk k 0 ≡ newline)
          × ((i : ℕ) → k < i → i < n → get_or chunk i 0 ≢ newline))
unfolding scan_back
scan_back-cases chunk zero = inl (refl, λ i h. absurd (omega arith))
scan_back-cases chunk (suc n) = elim (Bool-cases (get_or chunk n 0 == newline)) [
  | inl e ↦ rw e (
      inr (
        n,
        refl,
        omega arith,
        (==_iff (get_or chunk n 0) newline).0 e,
        λ i h k. absurd (omega arith),
      ))
  | inr e ↦ rw e (
      let here : get_or chunk n 0 ≢ newline = λ z. absurd (ground (arith, e, z)) in
      elim (scan_back-cases chunk n) [
        | inl (r, none_here) ↦
            inl (r, λ i h. one_more chunk 0 n i (omega arith) h here (λ j l. none_here j))
        | inr (k, r, lt, is_newline, later) ↦
            inr
              (k, r, omega arith, is_newline, λ i h h'. one_more chunk (suc k) n i h h' here later)
      ])
]

-- One round of the outer loop.
round-IsLineEnd :
    (file : Bytes) (pos want start rest : ℕ)
    → want ≤ pos
    → start ≡ pos - want
    → IsLineEnd file start rest
    → IsLineEnd file pos (good_of start (scan_back (take want (drop start file)) want) rest)
unfolding good_of
round-IsLineEnd file pos want start rest le es h =
    elim (scan_back-cases (take want (drop start file)) want) [
      | inl (r, clean) ↦ rw r (record {
        in_bounds = omega (arith, h.in_bounds);
        at_line = h.at_line;
        no_newline = λ i lo hi. elim (Bool-cases (ltb i start)) [
          | inl e ↦ h.no_newline i lo (ltb→lt i start e)
          | inr e ↦ λ z. clean (i - start) (ground arith) (
              get_or-slice start want (i - start) file (ground arith)
              ∙ ap (λ j. get_or file j 0) (ground arith)
              ∙ z)
        ];
      })
      | inr (k, r, lt, is_newline, later) ↦ rw r (record {
        in_bounds = omega arith;
        at_line = inr (
            ap (λ j. get_or file j 0) {y = start + k} (omega arith)
            ∙ sym (get_or-slice start want k file lt)
            ∙ is_newline);
        no_newline = λ i lo hi z. later (i - start) (omega arith) (omega arith) (
            get_or-slice start want (i - start) file (omega arith)
            ∙ ap (λ j. get_or file j 0) (omega arith)
            ∙ z);
      })
    ]

find_good-IsLineEnd :
    (f : ℕ) (file : Bytes) (pos : ℕ) → pos ≤ f → IsLineEnd file pos (find_good f file pos)
unfolding find_good
find_good-IsLineEnd zero file pos h = record {
  in_bounds = omega arith;
  at_line = inl refl;
  no_newline = λ i lo hi. absurd (omega arith);
}
find_good-IsLineEnd (suc f) file pos h = elim (Bool-cases (pos == 0)) [
  | inl e ↦ rw e (record {
    in_bounds = omega arith;
    at_line = inl refl;
    no_newline = λ i lo hi. absurd (ground arith);
  })
  | inr e ↦ rw e (
      let want = if ltb chunk_size pos then chunk_size else pos in
      round-IsLineEnd file pos want (pos - want) (find_good f file (pos - want)) (ground arith) refl
        (find_good-IsLineEnd f file (pos - want) (ground arith)))
]

-- The repair cuts the file behind a newline or down to nothing, and no newline is cut off: what is
-- kept are exactly the complete lines.
pub repair_index_tail-IsLineEnd :
    (file : Bytes)
    → (good : ℕ) × (repair_index_tail file ≡ take good file) × IsLineEnd file (length file) good
unfolding repair_index_tail
repair_index_tail-IsLineEnd file = elim (Bool-cases (length file == 0)) [
  | inl e ↦ rw e (
    length file,
    sym (take_all file),
    record {
      in_bounds = omega arith;
      at_line = inl (ground arith);
      no_newline = λ i lo hi. absurd (omega arith);
    },
  )
  | inr e ↦ rw e (elim (Bool-cases (get_or file (length file - 1) 0 == newline)) [
    | inl n ↦ rw n (
      length file,
      sym (take_all file),
      record {
        in_bounds = omega arith;
        at_line = inr ((==_iff (get_or file (length file - 1) 0) newline).0 n);
        no_newline = λ i lo hi. absurd (omega arith);
      },
    )
    | inr n ↦ rw n (
      find_good (length file) file (length file),
      refl,
      find_good-IsLineEnd (length file) file (length file) (omega arith),
    )
  ])
]
