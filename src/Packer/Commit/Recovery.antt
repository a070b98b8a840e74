-- ===== src/Packer/Commit/Recovery.antt =====
-- What the recovery makes of a repository that a crash has left.
use tarpack.Checksum.Lines.{joined_lines}
use tarpack.Packer.Commit.{Repo, content, repaired, recover, recovered, exists_in}
use tarpack.Packer.Commit.Crash.{HasFiles, IsConsistent}
use tarpack.Packer.Commit.Lines.{
  Names, has-collect_lines, collect_indexed_packs-joined, repair_index_tail-torn,
}
use tarpack.Packer.Recovery.{repair_index_tail}
use tarpack.Packer.Recovery.Sweep.{
  has, add_pack, collect_lines, collect_indexed_packs, pack_of_line, sweep,
}
use tarpack.Packer.Recovery.Sweep.Doomed.{has-add}
use tarpack.Packer.Recovery.Sweep.Kept.{IsCommitted, sweep-IsCommitted}
use tarpack.Packer.Recovery.Sweep.Survivors.{sweep-indexed}
use tarpack.Checksum.{rewrite_checksums_filtered}
use tarpack.Prelude.{
  ◌≡◌, refl, sym, ap, ◌∙◌, inl, inr, Bool, true, Option, none, some, List, [], ◌∷◌, arith, All,
  Bytes, subst, append_nil, str_eq_refl, lines, lines_from,
}

-- The packs that the complete lines of the index name.
abbrev pub indexed_packs : Repo → List Bytes
indexed_packs r = collect_indexed_packs (repaired r.index)

pub has-later :
    (names : List Bytes) (ls : List Bytes) (b : Bytes)
    → has names b ≡ true
    → has (collect_lines names ls) b ≡ true
unfolding collect_lines add_pack
has-later names [] b h = h
has-later names (l ∷ ls) b h =
    has-later (add_pack names (pack_of_line l)) ls b (still (pack_of_line l))
  where
    still : (o : Option Bytes) → has (add_pack names o) b ≡ true
    still none = h
    still (some c) = has-add names c b ∙ ground (arith, h)

-- What the lines name is collected.
pub All-collected :
    (names ls : List Bytes)
    → All (λ l. Names (λ b. has (collect_lines names ls) b ≡ true) (pack_of_line l)) ls
unfolding collect_lines add_pack
All-collected names [] = tt
All-collected names (l ∷ ls) =
    (named (pack_of_line l), All-collected (add_pack names (pack_of_line l)) ls)
  where
    named : (o : Option Bytes) → Names (λ b. has (collect_lines (add_pack names o) ls) b ≡ true) o
    named none = tt
    named (some b) =
        has-later (add_pack names (some b)) ls b (has-add names b b ∙ ground (arith, str_eq_refl b))

content-repaired : (i : Option Bytes) → content (repaired i) ≡ repair_index_tail (content i)
unfolding repair_index_tail
content-repaired none = refl
content-repaired (some s) = refl

collect-content :
    (i : Option Bytes) → collect_indexed_packs i ≡ collect_indexed_packs (some (content i))
unfolding collect_indexed_packs lines lines_from collect_lines
collect-content none = refl
collect-content (some s) = refl

recovered_index :
    (packs : List Bytes) (index sums : Option Bytes) (o : Option (Option Bytes))
    → (recovered packs index sums o).0.index ≡ index
recovered_index packs index sums none = refl
recovered_index packs index sums (some kept_sums) = refl

recovered_packs :
    (packs : List Bytes) (index sums : Option Bytes) (o : Option (Option Bytes))
    → (recovered packs index sums o).0.packs ≡ packs
recovered_packs packs index sums none = refl
recovered_packs packs index sums (some kept_sums) = refl

module _ (r : Repo) (tail : Bytes) (h : IsConsistent r tail) where
  content-rows : content (repaired r.index) ≡ joined_lines h.rows
  content-rows =
      content-repaired r.index
      ∙ ap repair_index_tail h.split
      ∙ repair_index_tail-torn h.rows tail h.complete h.torn

  pub indexed_packs-rows : indexed_packs r ≡ collect_lines [] h.rows
  indexed_packs-rows =
      collect-content (repaired r.index)
      ∙ ap (λ s. collect_indexed_packs (some s)) content-rows
      ∙ collect_indexed_packs-joined h.rows h.complete

  -- Every indexed pack has its files.
  pub indexed-HasFiles : (b : Bytes) → has (indexed_packs r) b ≡ true → HasFiles r.packs b
  unfolding has
  indexed-HasFiles b e =
      elim (has-collect_lines (HasFiles r.packs) [] h.rows b h.named
        (ap (λ names. has names b) (sym indexed_packs-rows) ∙ e)) [
          | inl f ↦ absurd (ground (arith, f))
          | inr files ↦ files
        ]

  swept_files :
      (b : Bytes)
      → has (indexed_packs r) b ≡ true
      → HasFiles r.packs b
      → HasFiles (sweep (indexed_packs r) r.packs) b
  swept_files b e (ha, hm) =
      let (a, m) = sweep-indexed (indexed_packs r) r.packs b e in (a ∙ ha, m ∙ hm)

  swept-Names :
      (names ls : List Bytes)
      → indexed_packs r ≡ names
      → All (λ l. Names (λ b. has names b ≡ true) (pack_of_line l)) ls
      → All (λ l. Names (HasFiles r.packs) (pack_of_line l)) ls
      → All (λ l. Names (HasFiles (sweep (indexed_packs r) r.packs)) (pack_of_line l)) ls
  swept-Names names [] e c n = tt
  swept-Names names (l ∷ ls) e (hc, c) (hn, n) =
      (both (pack_of_line l) hc hn, swept-Names names ls e c n)
    where
      both :
          (o : Option Bytes)
          → Names (λ b. has names b ≡ true) o
          → Names (HasFiles r.packs) o
          → Names (HasFiles (sweep (indexed_packs r) r.packs)) o
      both none hc hn = tt
      both (some b) hc hn = swept_files b (ap (λ ns. has ns b) e ∙ hc) hn

  pub recover-IsConsistent :
      (elsewhere : List Bytes → Bytes → Bool) → IsConsistent (recover elsewhere r).0 []
  unfolding recover
  recover-IsConsistent elsewhere =
      let packs = sweep (indexed_packs r) r.packs in
      let sums = rewrite_checksums_filtered (exists_in elsewhere packs) r.sums in
      record {
        rows = h.rows;
        complete = h.complete;
        torn = tt;
        split =
            ap content (recovered_index packs (repaired r.index) r.sums sums)
            ∙ content-rows
            ∙ sym (append_nil (joined_lines h.rows));
        named =
            subst (λ ps. All (λ l. Names (HasFiles ps) (pack_of_line l)) h.rows)
              (sym (recovered_packs packs (repaired r.index) r.sums sums))
              (swept-Names (collect_lines [] h.rows) h.rows indexed_packs-rows
                (All-collected [] h.rows) h.named);
      }

-- The recovery does not change which packs are indexed.
pub recover-indexed_packs :
    (r : Repo) (tail : Bytes) (h : IsConsistent r tail) (elsewhere : List Bytes → Bytes → Bool)
    → indexed_packs (recover elsewhere r).0 ≡ indexed_packs r
unfolding recover-IsConsistent
recover-indexed_packs r tail h elsewhere =
    indexed_packs-rows (recover elsewhere r).0 [] (recover-IsConsistent r tail h elsewhere)
    ∙ sym (indexed_packs-rows r tail h)

pub recover-swept :
    (r : Repo) (elsewhere : List Bytes → Bytes → Bool)
    → All (IsCommitted (indexed_packs r)) (recover elsewhere r).0.packs
unfolding recover
recover-swept r elsewhere =
    let packs = sweep (indexed_packs r) r.packs in
    let sums = rewrite_checksums_filtered (exists_in elsewhere packs) r.sums in
    subst (All (IsCommitted (indexed_packs r)))
      (sym (recovered_packs packs (repaired r.index) r.sums sums))
      (sweep-IsCommitted (indexed_packs r) r.packs)
