-- ===== src/Packer/Commit/Lines.antt =====
-- What `repair_index_tail` and `collect_indexed_packs` make of a file of complete lines and a torn
-- one.
use tarpack.Checksum.Lines.{NoNewline, IsLine, joined_lines, lines-append}
use tarpack.Checksum.Append.{get_or-past}
use tarpack.Packer.Recovery.{repair_index_tail, newline}
use tarpack.Packer.Recovery.Tail.{IsLineEnd, repair_index_tail-IsLineEnd}
use tarpack.Packer.Recovery.Sweep.{
  has, add_pack, collect_lines, collect_indexed_packs, pack_of_line,
}
use tarpack.Packer.Recovery.Sweep.Doomed.{has-add}
use tarpack.Prelude.{
  subst, ℕ, ◌-◌, ◌<◌, ◌≡◌, ◌≢◌, ◌⊎◌, inl, inr, refl, sym, ap, ◌∙◌, true, Option, none, some, List,
  [], ◌∷◌, ◌++◌, arith, All, Bytes, length, take, get_or, lines, lines_from, str_eq, str_eq_iff,
  append_nil, Bool-cases, length-append, take-length, All-get_or, get_or-append_left, get_or-length,
  append_assoc,
}

-- Complete lines are nothing, or end with a newline.
joined_lines-end :
    (ls : List Bytes)
    → All IsLine ls
    → (joined_lines ls ≡ []) ⊎ ((s : Bytes) × (joined_lines ls ≡ s ++ newline ∷ []))
unfolding joined_lines
joined_lines-end [] h = inl refl
joined_lines-end (l ∷ ls) ((s, e, clean), h) = elim (joined_lines-end ls h) [
  | inl none_left ↦ inr (s, ap (λ t. l ++ t) none_left ∙ append_nil l ∙ e)
  | inr (t, last) ↦ inr (l ++ t, ap (λ u. l ++ u) last ∙ sym (append_assoc l t (newline ∷ [])))
]

not_before :
    (ls : List Bytes) (tail : Bytes) (good : ℕ)
    → All IsLine ls
    → IsLineEnd (joined_lines ls ++ tail) (length (joined_lines ls ++ tail)) good
    → ¬ (good < length (joined_lines ls))
not_before ls tail good h at lt = elim (joined_lines-end ls h) [
  | inl none_left ↦ omega (arith, ap length none_left)
  | inr (s, last) ↦
      let l = length-append (joined_lines ls) tail in
      let m = ap length last ∙ length-append s (newline ∷ []) in
      at.no_newline (length s) (omega (arith, m)) (omega (arith, l, m)) (
        get_or-append_left (joined_lines ls) tail (length s) 0 (omega (arith, m))
        ∙ ap (λ t. get_or t (length s) 0) last
        ∙ get_or-length s newline 0)
]

not_behind :
    (ls : List Bytes) (tail : Bytes) (good : ℕ)
    → NoNewline tail
    → IsLineEnd (joined_lines ls ++ tail) (length (joined_lines ls ++ tail)) good
    → ¬ (length (joined_lines ls) < good)
not_behind ls tail good clean at lt = elim at.at_line [
  | inl e ↦ omega (arith, e)
  | inr e ↦
      let i = good - 1 - length (joined_lines ls) in
      let l = length-append (joined_lines ls) tail in
      All-get_or (λ c. c ≢ newline) tail i 0 clean (omega (arith, l, at.in_bounds))
        (sym (get_or-past (joined_lines ls) tail (length (joined_lines ls)) i refl)
          ∙ ap (λ j. get_or (joined_lines ls ++ tail) j 0) (omega arith)
          ∙ e)
]

-- The part behind the complete lines has no newline, so the place of the repair is its start.
pub repair_index_tail-torn :
    (ls : List Bytes) (tail : Bytes)
    → All IsLine ls
    → NoNewline tail
    → repair_index_tail (joined_lines ls ++ tail) ≡ joined_lines ls
repair_index_tail-torn ls tail h clean =
    let (good, repair, at) = repair_index_tail-IsLineEnd (joined_lines ls ++ tail) in
    repair
    ∙ ap (λ n. take n (joined_lines ls ++ tail))
        (omega (arith, not_before ls tail good h at, not_behind ls tail good clean at))
    ∙ take-length (joined_lines ls) tail

-- `P` holds of the pack that a line names, if it names one.
abbrev pub Names : (Bytes → Type 0) → Option Bytes → Type 0
Names P none = Unit {0}
Names P (some base) = P base

module _ (P : Bytes → Type 0) where
  pub Names-map :
      (Q : Bytes → Type 0) (o : Option Bytes) → ((b : Bytes) → P b → Q b) → Names P o → Names Q o
  Names-map Q none f h = h
  Names-map Q (some b) f h = f b h

  has-add_pack :
      (names : List Bytes) (o : Option Bytes) (base : Bytes)
      → Names P o
      → has (add_pack names o) base ≡ true
      → (has names base ≡ true) ⊎ P base
  unfolding add_pack
  has-add_pack names none base h e = inl e
  has-add_pack names (some b) base h e = elim (Bool-cases (str_eq b base)) [
    | inl same ↦ inr (subst P ((str_eq_iff b base).0 same) h)
    | inr other ↦ inl (ground (arith, other, has-add names b base))
  ]

  -- Every pack that is collected was there or is named by a line.
  pub has-collect_lines :
      (names ls : List Bytes) (base : Bytes)
      → All (λ l. Names P (pack_of_line l)) ls
      → has (collect_lines names ls) base ≡ true
      → (has names base ≡ true) ⊎ P base
  unfolding collect_lines
  has-collect_lines names [] base h e = inl e
  has-collect_lines names (l ∷ ls) base (hl, h) e =
      elim (has-collect_lines (add_pack names (pack_of_line l)) ls base h e) [
        | inl before ↦ has-add_pack names (pack_of_line l) base hl before
        | inr p ↦ inr p
      ]

-- The lines of a file of complete lines.
pub collect_indexed_packs-joined :
    (ls : List Bytes)
    → All IsLine ls
    → collect_indexed_packs (some (joined_lines ls)) ≡ collect_lines [] ls
unfolding collect_indexed_packs lines lines_from
collect_indexed_packs-joined ls h =
    ap (λ f. collect_lines [] (lines f)) (sym (append_nil (joined_lines ls)))
    ∙ ap (collect_lines []) (lines-append ls [] h ∙ append_nil ls)
