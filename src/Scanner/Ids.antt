-- ===== src/Scanner/Ids.antt =====
-- The object ids that a scan writes.
use tarpack.Scanner.Hits.{IsHit}
use tarpack.Prelude.{
  ℕ, ◌+◌, ◌%◌, ◌≤◌, ◌<◌, ◌≡◌, sym, ap, ◌∙◌, subst, ◌≢◌, ◌⊎◌, inl, inr, Bool, true, false, Option,
  none, some, List, [], arith, if◌then◌else◌, ◌>>=◌, some-same, none-ne, All, All-map, Bytes,
  length, take,
}
use tarpack.Scanner.{
  Ctx, Line, ScanCalls, ScanSystem, object_find, scan, scan_tree, scan_dir, start_ctx, fault,
  Object,
}
use tarpack.Scanner.Fresh.{HasRoom, made_new, length-object_id_of, take_short, All-Member}
use tarpack.Scanner.Table.{IsMade, object_find-apart, object_find-found}
use tarpack.Scanner.Lines.{HasObject, IsPick}
use tarpack.Scanner.Walk.{scan_dir-Inv}
use tarpack.Scanner.Found.{Inv, fault-Inv}
use tarpack.Checksum.{path_max}
use tarpack.Index.{IndexEntry}
use tarpack.Index.Load.{Fields, ObjectIndex, index_load}
use tarpack.Index.NextId.{HasNext, index_load-HasNext}
use tarpack.Packer.Names.{ulong_mod}

module _ (s : ScanSystem) (hash_mode : Bool) (entries : List IndexEntry) where
  -- Names of one inode have the same id, and names of two inodes have not, but if both inodes were
  -- found in the index under this id.
  abbrev pub AgreeOnIds : Line → Line → Type 0
  AgreeOnIds (Line.file path id st sha) (Line.file path' id' st' sha') =
      (st.dev ≡ st'.dev → st.ino ≡ st'.ino → id ≡ id')
      × (id ≡ id'
          → ((st.dev ≡ st'.dev) × (st.ino ≡ st'.ino))
            ⊎ IsHit s hash_mode entries st.dev st.ino id
              × IsHit s hash_mode entries st'.dev st'.ino id')
  AgreeOnIds (Line.file path id st sha) _ = Unit
  AgreeOnIds (Line.dir path st) _ = Unit
  AgreeOnIds (Line.symlink path target st) _ = Unit

  -- The inode was found in the index under this id, or no index entry has the id.
  abbrev pub IsOldOrNew : Line → Type 0
  IsOldOrNew (Line.file path id st sha) =
      IsHit s hash_mode entries st.dev st.ino id ⊎ All (λ e. e.object_id ≢ id) entries
  IsOldOrNew (Line.dir path st) = Unit
  IsOldOrNew (Line.symlink path target st) = Unit

module _ (s : ScanSystem) (idx : ObjectIndex) (hash_mode : Bool) (repo : Option (ℕ × ℕ))
    (picks : IsPick s.pick) (ctx : Ctx) (h : Inv s idx hash_mode repo picks ctx)
    (small : idx.next_id + ctx.new_objects ≤ ulong_mod) (next : HasNext idx)
    (room : HasRoom idx) where
  abbrev hi : ℕ
  hi = idx.next_id + ctx.new_objects

  abbrev FoundAt : ℕ → ℕ → Bytes → Type 0
  FoundAt = IsHit s hash_mode idx.entries

  abbrev MadeId : Bytes → Type 0
  MadeId = IsMade FoundAt idx.next_id hi

  fresh_id : (id : Bytes) → MadeId id → All (λ e. e.object_id ≢ id) idx.entries
  fresh_id id made = made_new FoundAt idx.entries idx.next_id hi id small next.1 room made

  found_apart : (dev ino : ℕ) (id : Bytes) → FoundAt dev ino id → MadeId id → ⊥
  found_apart dev ino id hit (n, made, l, u) =
      let cut = sym hit.same_id ∙ made in
      let short : length (take 31 hit.entry.object_id) < 31 =
        omega (arith, ap length cut, length-object_id_of (n % ulong_mod)) in
      let whole = take_short 31 hit.entry.object_id short in
      All-Member (λ e. e.object_id ≢ id) hit.entry idx.entries hit.listed
        (fresh_id id (n, made, l, u)) (sym whole ∙ sym hit.same_id)

  -- Of two inodes with the same id, one of which was found in the index, both were.
  both_found :
      (dev ino dev' ino' : ℕ) (id id' : Bytes)
      → id ≡ id'
      → FoundAt dev ino id ⊎ MadeId id
      → FoundAt dev' ino' id' ⊎ MadeId id'
      → FoundAt dev ino id ⊎ FoundAt dev' ino' id'
      → FoundAt dev ino id × FoundAt dev' ino' id'
  both_found dev ino dev' ino' id id' same (inl a) (inl b) one = (a, b)
  both_found dev ino dev' ino' id id' same (inl a) (inr b) one =
      absurd (found_apart dev ino id a (subst MadeId (sym same) b))
  both_found dev ino dev' ino' id id' same (inr a) (inl b) one =
      absurd (found_apart dev' ino' id' b (subst MadeId same a))
  both_found dev ino dev' ino' id id' same (inr a) (inr b) (inl k) =
      absurd (found_apart dev ino id k a)
  both_found dev ino dev' ino' id id' same (inr a) (inr b) (inr k) =
      absurd (found_apart dev' ino' id' k b)

  found_or_made :
      (dev ino : ℕ) (o : Object)
      → object_find ctx.table.objects dev ino ≡ some o
      → FoundAt dev ino o.id ⊎ MadeId o.id
  found_or_made dev ino o f =
      object_find-found FoundAt idx.next_id hi ctx.table.objects dev ino o h.objects f

  found_agree :
      (a b : Line)
      → HasObject ctx.table.objects a
      → HasObject ctx.table.objects b
      → AgreeOnIds s hash_mode idx.entries a b
  found_agree (Line.dir path st) b ha hb = tt
  found_agree (Line.symlink path target st) b ha hb = tt
  found_agree (Line.file path id st sha) (Line.dir path' st') ha hb = tt
  found_agree (Line.file path id st sha) (Line.symlink path' target st') ha hb = tt
  found_agree (Line.file path id st sha) (Line.file path' id' st' sha') (o, f, e) (o', f', e') = (
    λ dev ino.
        let same : o ≡ o' = some-same (
          sym f
          ∙ ap (λ d. object_find ctx.table.objects d st.ino) dev
          ∙ ap (object_find ctx.table.objects st'.dev) ino
          ∙ f') in
        e ∙ ap (λ q. q.id) same ∙ sym e',
    λ same.
        let ids : o.id ≡ o'.id = sym e ∙ same ∙ e' in
        elim (object_find-apart FoundAt idx.next_id hi ctx.table.objects st.dev st.ino st'.dev
          st'.ino o o' small h.objects f f' ids) [
            | inl keys ↦ inl keys
            | inr one ↦
                let (k, k') =
                  both_found st.dev st.ino st'.dev st'.ino o.id o'.id ids
                    (found_or_made st.dev st.ino o f) (found_or_made st'.dev st'.ino o' f') one in
                inr (
                  subst (FoundAt st.dev st.ino) (sym e) k,
                  subst (FoundAt st'.dev st'.ino) (sym e') k',
                )
          ],
  )

  found-IsOldOrNew :
      (a : Line) → HasObject ctx.table.objects a → IsOldOrNew s hash_mode idx.entries a
  found-IsOldOrNew (Line.dir path st) ha = tt
  found-IsOldOrNew (Line.symlink path target st) ha = tt
  found-IsOldOrNew (Line.file path id st sha) (o, f, e) = elim (found_or_made st.dev st.ino o f) [
    | inl known ↦ inl (subst (FoundAt st.dev st.ino) (sym e) known)
    | inr made ↦ inr (fresh_id id (subst MadeId (sym e) made))
  ]

  lines_agree :
      All
        (λ a.
          All (AgreeOnIds s hash_mode idx.entries a) ctx.lines
          × IsOldOrNew s hash_mode idx.entries a)
        ctx.lines
  lines_agree =
      All-map (HasObject ctx.table.objects)
        (λ a.
          All (AgreeOnIds s hash_mode idx.entries a) ctx.lines
          × IsOldOrNew s hash_mode idx.entries a)
        ctx.lines
        (λ a ha. (
          All-map (HasObject ctx.table.objects) (AgreeOnIds s hash_mode idx.entries a) ctx.lines
              (λ b hb. found_agree a b ha hb) h.lines,
          found-IsOldOrNew a ha,
        ))
        h.lines

start_ctx-Inv :
    (s : ScanSystem) (idx : ObjectIndex) (hash_mode : Bool) (repo : Option (ℕ × ℕ))
    (picks : IsPick s.pick)
    → HasNext idx
    → Inv s idx hash_mode repo picks (start_ctx idx)
start_ctx-Inv s idx hash_mode repo picks (lt, h) = record {
  next = omega arith;
  objects = tt;
  lines = tt;
}

-- What a scan with the index `idx` ends with.
scan_tree-Inv :
    (s : ScanSystem) (idx : ObjectIndex) (hash_mode : Bool) (c : ScanCalls) (ctx : Ctx)
    (picks : IsPick s.pick)
    → HasNext idx
    → scan_tree s idx hash_mode c ≡ some ctx
    → Inv s idx hash_mode c.repo_stat picks ctx
unfolding scan_tree
scan_tree-Inv s idx hash_mode c ctx picks next e =
    let end = scan_dir s idx hash_mode c.repo_stat path_max (start_ctx idx) [] in
    let P = Inv s idx hash_mode c.repo_stat picks in
    let walked : P end =
      scan_dir-Inv s idx hash_mode c.repo_stat picks path_max (start_ctx idx) []
        (start_ctx-Inv s idx hash_mode c.repo_stat picks next) in
    opened c.opens_writer c.closes_writer end walked e
  where
    opened :
        (w v : Bool) (end : Ctx)
        → Inv s idx hash_mode c.repo_stat picks end
        → (if w then some (if v then end else fault end) else none) ≡ some ctx
        → Inv s idx hash_mode c.repo_stat picks ctx
    opened false v end walked f = absurd (none-ne f)
    opened true true end walked f =
        subst (Inv s idx hash_mode c.repo_stat picks) (some-same f) walked
    opened true false end walked f =
        subst (Inv s idx hash_mode c.repo_stat picks) (some-same f)
          (fault-Inv s idx hash_mode c.repo_stat picks end walked)

-- When a scan completes, two file lines with the same device and inode have the same object id. Two
-- with the same id have the same inode, or the scan found both inodes in the object index: an entry with
-- this id, cut to 31 bytes, has the path, the size and the modification time of a name of the inode
-- or, in the hash mode, the SHA-256 of its content. The id of an inode that was not found so is one that
-- no entry of the index has. (What a lookup finds is a node with its key, and neither the ids in the
-- index nor the new objects exhaust the 64-bit numbers.)
pub scan-ids :
    (s : ScanSystem) (parse : Bytes → Option Fields) (hash_mode : Bool) (c : ScanCalls)
    (idx : ObjectIndex) (ctx : Ctx)
    → IsPick s.pick
    → index_load parse c.index_file ≡ some idx
    → scan s parse hash_mode c ≡ some ctx
    → HasRoom idx
    → idx.next_id + ctx.new_objects ≤ ulong_mod
    → All
        (λ a.
          All (AgreeOnIds s hash_mode idx.entries a) ctx.lines
          × IsOldOrNew s hash_mode idx.entries a)
        ctx.lines
unfolding scan
scan-ids s parse hash_mode c idx ctx picks loaded e room small =
    let next = index_load-HasNext parse c.index_file idx loaded in
    lines_agree s idx hash_mode c.repo_stat picks ctx
      (scan_tree-Inv s idx hash_mode c ctx picks next (
        opened c.opens_root (
          ap (λ o. if c.opens_root then (o >>= λ i. scan_tree s i hash_mode c) else none)
            (sym loaded)
          ∙ e)))
      small next room
  where
    opened :
        (b : Bool)
        → (if b then scan_tree s idx hash_mode c else none) ≡ some ctx
        → scan_tree s idx hash_mode c ≡ some ctx
    opened true f = f
    opened false f = absurd (none-ne f)
