-- ===== src/Scanner/Depth.antt =====
-- The depth of a scan: paths have at most `path_max` bytes, and each level takes some.
use tarpack.Prelude.{
  ℕ, zero, suc, ◌+◌, ◌≤◌, ◌<◌, ◌≡◌, refl, sym, ap, ◌∙◌, subst, inl, inr, Bool, ◌||◌, Option, none,
  some, List, [], ◌∷◌, arith, leb, Bool-cases, Option-cases, some-same, none-ne, length, All,
  length-append, Bytes, codes, str_eq,
}
use tarpack.Scanner.{
  ScanSystem, Stat, FileType, Ctx, join_rel_path, joined_path, drop_dots, handle_dir, handle_type,
  handle_path, handle_entry, scan_names, scan_dir, write_line, Line,
}
use tarpack.Checksum.{path_max}
use tarpack.Index.Load.{ObjectIndex}
use tarpack.Restore.Order.{IsSort, strcmp_le, All-Permᴰ}

-- Names in directories are not empty, and `qsort` sorts.
pub record IsTree (s : ScanSystem) : Type 0 where
  pub names_nonempty :
      (rel : Bytes) (ns : List Bytes) → s.names rel ≡ some ns → All (λ n. 0 < length n) ns
  pub sorts : IsSort strcmp_le s.sort

joined_path-longer :
    (rel name : Bytes) → 0 < length name → length rel < length (joined_path rel name)
joined_path-longer [] name h = h
joined_path-longer (c ∷ rel) name h = omega (arith, length-append (c ∷ rel) (b'/' ∷ name))

drop_dots-All : (P : Bytes → Type 0) (ns : List Bytes) → All P ns → All P (drop_dots ns)
unfolding drop_dots
drop_dots-All P [] h = tt
drop_dots-All P (n ∷ ns) (hn, h) =
    elim (Bool-cases (str_eq n (codes ".") || str_eq n (codes ".."))) [
      | inl e ↦ simp e (drop_dots-All P ns h)
      | inr e ↦ simp e (hn, drop_dots-All P ns h)
    ]

module _ (s : ScanSystem) (idx : ObjectIndex) (hash_mode : Bool) (repo : Option (ℕ × ℕ)) where
  -- Two ways to descend that agree below `rel_dir`.
  abbrev AgreeBelow : Bytes → (Ctx → Bytes → Ctx) → (Ctx → Bytes → Ctx) → Type 0
  AgreeBelow rel_dir d d' =
      (ctx : Ctx) (rel : Bytes)
      → length rel_dir < length rel
      → length rel < path_max
      → d ctx rel ≡ d' ctx rel

  handle_dir-agree :
      (rel_dir : Bytes) (d d' : Ctx → Bytes → Ctx) (ctx : Ctx) (st : Stat) (rel : Bytes)
      → AgreeBelow rel_dir d d'
      → length rel_dir < length rel
      → length rel < path_max
      → handle_dir s idx hash_mode repo d ctx st rel ≡ handle_dir s idx hash_mode repo d' ctx st rel
  unfolding handle_dir
  handle_dir-agree rel_dir d d' ctx st rel h lt lt' =
      rw (h (write_line s idx hash_mode repo ctx (Line.dir rel st)) rel lt lt') refl

  handle_type-agree :
      (rel_dir : Bytes) (d d' : Ctx → Bytes → Ctx) (ctx : Ctx) (st : Stat) (rel : Bytes)
      (type : FileType)
      → AgreeBelow rel_dir d d'
      → length rel_dir < length rel
      → length rel < path_max
      → handle_type s idx hash_mode repo d ctx st rel type
        ≡ handle_type s idx hash_mode repo d' ctx st rel type
  handle_type-agree rel_dir d d' ctx st rel FileType.dir h lt lt' =
      handle_dir-agree rel_dir d d' ctx st rel h lt lt'
  handle_type-agree rel_dir d d' ctx st rel FileType.symlink h lt lt' = refl
  handle_type-agree rel_dir d d' ctx st rel FileType.regular h lt lt' = refl
  handle_type-agree rel_dir d d' ctx st rel FileType.other h lt lt' = refl

  join_rel_path-bounds :
      (rel_dir name rel : Bytes)
      → 0 < length name
      → join_rel_path rel_dir name ≡ some rel
      → (length rel_dir < length rel) × (length rel < path_max)
  unfolding join_rel_path
  join_rel_path-bounds rel_dir name rel pos e =
      elim (Bool-cases (leb path_max (length (joined_path rel_dir name)))) [
        | inl t ↦ absurd (none-ne {a = rel} (rw t refl ∙ e))
        | inr t ↦
            let same : joined_path rel_dir name ≡ rel = some-same (sym (rw t refl) ∙ e) in
            (
              subst (λ p. length rel_dir < length p) same (joined_path-longer rel_dir name pos),
              subst (λ p. length p < path_max) same (ground (arith, t)),
            )
      ]

  handle_path-agree :
      (rel_dir name : Bytes) (d d' : Ctx → Bytes → Ctx) (ctx : Ctx) (st : Option Stat)
      → AgreeBelow rel_dir d d'
      → 0 < length name
      → handle_path s idx hash_mode repo d ctx st (join_rel_path rel_dir name)
        ≡ handle_path s idx hash_mode repo d' ctx st (join_rel_path rel_dir name)
  handle_path-agree rel_dir name d d' ctx none h pos = refl
  handle_path-agree rel_dir name d d' ctx (some st) h pos =
      elim (Option-cases (join_rel_path rel_dir name)) [
        | inl e ↦ rw e refl
        | inr (rel, e) ↦
            let (lt, lt') = join_rel_path-bounds rel_dir name rel pos e in
            rw e (handle_type-agree rel_dir d d' ctx st rel st.type h lt lt')
      ]

  scan_names-agree :
      (rel_dir : Bytes) (d d' : Ctx → Bytes → Ctx) (ctx : Ctx) (ns : List Bytes)
      → AgreeBelow rel_dir d d'
      → All (λ n. 0 < length n) ns
      → scan_names s idx hash_mode repo d ctx rel_dir ns
        ≡ scan_names s idx hash_mode repo d' ctx rel_dir ns
  unfolding scan_names handle_entry
  scan_names-agree rel_dir d d' ctx [] h hn = refl
  scan_names-agree rel_dir d d' ctx (n ∷ ns) h (hn, hns) =
      ap (λ c. scan_names s idx hash_mode repo d c rel_dir ns)
        (handle_path-agree rel_dir n d d' ctx (s.stat_at rel_dir n) h hn)
      ∙ scan_names-agree rel_dir d d' (handle_entry s idx hash_mode repo d' ctx rel_dir n) ns h hns

  scan_dir-agree :
      (f g : ℕ) (ctx : Ctx) (rel : Bytes)
      → IsTree s
      → path_max ≤ f + length rel
      → path_max ≤ g + length rel
      → length rel < path_max
      → scan_dir s idx hash_mode repo f ctx rel ≡ scan_dir s idx hash_mode repo g ctx rel
  unfolding scan_dir
  scan_dir-agree zero g ctx rel tree hf hg lt = absurd (omega arith)
  scan_dir-agree (suc f) zero ctx rel tree hf hg lt = absurd (omega arith)
  scan_dir-agree (suc f) (suc g) ctx rel tree hf hg lt = elim (Option-cases (s.names rel)) [
    | inl e ↦ rw e refl
    | inr (ns, e) ↦ rw e (
        scan_names-agree rel (scan_dir s idx hash_mode repo f) (scan_dir s idx hash_mode repo g) ctx
          (s.sort (drop_dots ns))
          (λ c r longer short. scan_dir-agree f g c r tree (omega arith) (omega arith) short)
          (All-Permᴰ (λ n. 0 < length n) (tree.sorts.permutes (drop_dots ns))
            (drop_dots-All (λ n. 0 < length n) ns (tree.names_nonempty rel ns e))))
  ]

-- A scan goes to its end whatever the tree is: fuel beyond the `path_max` that the scan is called
-- with changes nothing, since every level of a path takes a byte of the path's buffer.
-- (Names in directories are not empty, and `qsort` sorts.)
pub scan_dir-fuel :
    (s : ScanSystem) (idx : ObjectIndex) (hash_mode : Bool) (repo : Option (ℕ × ℕ)) (f : ℕ)
    (ctx : Ctx)
    → IsTree s
    → path_max ≤ f
    → scan_dir s idx hash_mode repo f ctx [] ≡ scan_dir s idx hash_mode repo path_max ctx []
scan_dir-fuel s idx hash_mode repo f ctx tree h =
    scan_dir-agree s idx hash_mode repo f path_max ctx [] tree (omega arith) (omega arith)
      (omega arith)
