-- ===== src/Restore/Complete.antt =====
-- What `tp_restore` has done when it returns 0.
use tarpack.Restore.Ending.{HasMeta, deepest_first-All, finish-Done, late_ops}
use tarpack.Prelude.{
  ◌≡◌, refl, sym, ◌∙◌, subst, true, false, Option, none, some, List, [], ◌∷◌, map, some-same,
  none-ne, length, All, Member, All-map, Bytes, Bool, ◌&&◌, if◌then◌else◌,
}
use tarpack.Index.{IndexEntry}
use tarpack.Manifest.{ManifestEntry}
use tarpack.Restore.Links.{LinkGroup, collect_links}
use tarpack.Restore.Plan.{
  DirMeta, NeededObj, Op, Run, SymMeta, System, dirs_of, needed_with, resolve, syms_of, call,
  succeeded, die, next, groups_safe, dirs_safe, syms_safe,
}
use tarpack.Restore.Extract.{
  extract_all, fill_all, finish, passes, create_tree, resolved, restore_rc, restore, start,
  make_dirs,
}
use tarpack.Restore.Order.{Permᴰ-symm, All-Permᴰ, IsSystem}
use tarpack.Restore.Clean.{
  Done, Makes, alive-Done, IsClean, if-Done, drop-Done, call-Done, die-Done, next-Done,
}
use tarpack.Restore.Extracted.{IsExtracted, dir_ops, make_dirs-Done, IsExtracted-Sub}
use tarpack.Restore.Marked.{Marks, erase, fill_all-Done, passes-Step}

module _ (s : System) (dest : Bytes) where
  -- The object of a group is in the index, and its file is extracted.
  abbrev pub HasFile : (Bytes → Option IndexEntry) → List Op → LinkGroup → Type 0
  HasFile find ops g =
      (ie : IndexEntry) × (find g.object_id ≡ some ie)
      × IsExtracted s dest ops (record { group = g; ie = ie; written = false })

  All-map-erase :
      (ops : List Op) (xs : List NeededObj)
      → All (IsExtracted s dest ops) xs
      → All (IsExtracted s dest ops) (map erase xs)
  All-map-erase ops [] h = tt
  All-map-erase ops (x ∷ xs) (hx, h) = (hx, All-map-erase ops xs h)

  All-of_map-erase :
      (ops : List Op) (xs : List NeededObj)
      → All (IsExtracted s dest ops) (map erase xs)
      → All (IsExtracted s dest ops) xs
  All-of_map-erase ops [] h = tt
  All-of_map-erase ops (x ∷ xs) (hx, h) = (hx, All-of_map-erase ops xs h)

  extract_all-Done :
      (r : Run) (needed : List NeededObj)
      → IsSystem s
      → All (λ n. n.written ≡ false) needed
      → Done r (extract_all s dest needed r) (λ ops. All (IsExtracted s dest ops) needed)
  unfolding extract_all
  extract_all-Done r needed sys new =
      let sorted = s.sort_needed needed in
      let perm = sys.needed_sort.permutes needed in
      let p = passes s dest (length sorted) r sorted in
      let (same, step) = passes-Step s dest (length sorted) r sorted in
      let unmarked : Marks s dest r.ops sorted =
        All-map (λ n. n.written ≡ false) (λ n. n.written ≡ true → IsExtracted s dest r.ops n) sorted
          (λ n no yes. absurd (false-ne (sym no ∙ yes)))
          (All-Permᴰ (λ n. n.written ≡ false) perm new) in
      alive-Done r p.0 (λ q. fill_all s dest q p.1) (λ ops. All (IsExtracted s dest ops) needed)
        (λ c.
          let r2 = fill_all s dest p.0 p.1 in
          let (c1, sub2, rest) = fill_all-Done s dest p.0 p.1 c in
          let (c0, sub1, marks) = step c1 in
          (
            c0,
            λ o h. sub2 o (sub1 o h),
            All-Permᴰ (IsExtracted s dest r2.ops) (Permᴰ-symm perm) (
                All-of_map-erase r2.ops sorted (
                  subst (All (IsExtracted s dest r2.ops)) same
                    (All-map-erase r2.ops p.1 (rest (marks unmarked))))),
          ))
    where
      false-ne : false ≡ true → ⊥
      false-ne e = cc

  -- What is resolved is not written yet, and stands for the groups.
  abbrev Stands : (Bytes → Option IndexEntry) → List LinkGroup → List NeededObj → Type 0
  Stands find groups needed =
      All (λ n. n.written ≡ false) needed
      × ((ops : List Op) → All (IsExtracted s dest ops) needed → All (HasFile find ops) groups)

  resolve-Stands :
      (find : Bytes → Option IndexEntry) (groups : List LinkGroup) (needed : List NeededObj)
      → resolve find groups ≡ some needed
      → Stands find groups needed
  unfolding resolve
  resolve-Stands find [] needed e = subst (Stands find []) (some-same e) (tt, λ ops h. tt)
  resolve-Stands find (g ∷ groups) needed e =
      found (find g.object_id) refl (resolve find groups) (resolve-Stands find groups) refl e
    where
      found :
          (o : Option IndexEntry)
          → find g.object_id ≡ o
          → (rest : Option (List NeededObj))
          → ((ns : List NeededObj) → rest ≡ some ns → Stands find groups ns)
          → resolve find groups ≡ rest
          → needed_with g o rest ≡ some needed
          → Stands find (g ∷ groups) needed
      found none f rest ih q k = absurd (none-ne k)
      found (some ie) f none ih q k = absurd (none-ne k)
      found (some ie) f (some ns) ih q k =
          let (new, files) = ih ns refl in
          subst (Stands find (g ∷ groups)) (some-same k)
            ((refl, new), λ ops (hx, h). ((ie, f, hx), files ops h))

  -- Everything that the entries of the snapshot ask for.
  abbrev pub IsComplete : (Bytes → Option IndexEntry) → List ManifestEntry → List Op → Type 0
  IsComplete find entries ops =
      All (HasFile find ops) (collect_links [] entries)
      × Makes (dir_ops s dest (dirs_of entries)) ops
      × Makes (late_ops s dest (collect_links [] entries) (syms_of entries)) ops
      × All (HasMeta s dest ops) (dirs_of entries)

  create_tree-Done :
      (r : Run) (groups : List LinkGroup) (dirs : List DirMeta) (syms : List SymMeta)
      (needed : List NeededObj)
      → IsSystem s
      → All (λ n. n.written ≡ false) needed
      → Done r (create_tree s dest r groups dirs syms needed) (λ ops.
        All (IsExtracted s dest ops) needed
        × Makes (dir_ops s dest dirs) ops
        × Makes (late_ops s dest groups syms) ops
        × All (HasMeta s dest ops) dirs)
  unfolding create_tree
  create_tree-Done r groups dirs syms needed sys new =
      let up = Op.mkdir_p dest in
      let r1 = call r up in
      let started = if succeeded (s.rc r.ops up) then r1 else die r1 in
      let r2 = next started (λ q. make_dirs s dest q dirs) in
      let r3 = next r2 (extract_all s dest needed) in
      let r4 = finish s dest groups dirs syms r3 in
      let begun =
        if-Done r (succeeded (s.rc r.ops up)) r1 (die r1) (Makes [])
          (drop-Done r r1 (up ∷ []) (call-Done r up)) (die-Done r r1 (Makes [])) in
      let early =
        next-Done r started (λ q. make_dirs s dest q dirs) [] (dir_ops s dest dirs) begun
          (λ q. make_dirs-Done s dest q dirs) in
      let packs =
        alive-Done r2 r2 (extract_all s dest needed) (λ ops. All (IsExtracted s dest ops) needed)
          (extract_all-Done r2 needed sys new) in
      alive-Done r r3 (finish s dest groups dirs syms)
        (λ ops.
          All (IsExtracted s dest ops) needed
          × Makes (dir_ops s dest dirs) ops
          × Makes (late_ops s dest groups syms) ops
          × All (HasMeta s dest ops) dirs)
        (λ c.
          let (c3, sub4, (late, metas)) = finish-Done s dest r3 groups dirs syms c in
          let (c2, sub3, files) = packs c3 in
          let (c0, sub2, made) = early c2 in
          (
            c0,
            λ o h. sub4 o (sub3 o (sub2 o h)),
            (
              All-map (IsExtracted s dest r3.ops) (IsExtracted s dest r4.ops) needed
                  (λ n ex. IsExtracted-Sub s dest r3 r4 n sub4 ex) files,
              All-map (λ o. Member o r2.ops) (λ o. Member o r4.ops) (dir_ops s dest dirs)
                  (λ o h. sub4 o (sub3 o h)) made,
              late,
              deepest_first-All s dest (HasMeta s dest r4.ops) dirs sys metas,
            ),
          ))

  resolved-IsComplete :
      (find : Bytes → Option IndexEntry) (entries : List ManifestEntry)
      (o : Option (List NeededObj))
      → IsSystem s
      → resolve find (collect_links [] entries) ≡ o
      → let r = resolved s dest (collect_links [] entries) (dirs_of entries) (syms_of entries) o in
        IsClean r → IsComplete find entries r.ops
  resolved-IsComplete find entries none sys e (alive, clean) = absurd (false-ne alive)
    where
      false-ne : false ≡ true → ⊥
      false-ne q = cc
  resolved-IsComplete find entries (some needed) sys e c =
      let groups = collect_links [] entries in
      let (new, files) = resolve-Stands find groups needed e in
      let (c0, sub, (done, dirs, late, metas)) =
        create_tree-Done (start s dest) groups (dirs_of entries) (syms_of entries) needed sys new
          c in
      (
        files
            (create_tree s dest (start s dest) groups (dirs_of entries) (syms_of entries)
              needed).ops
            done,
        dirs,
        late,
        metas,
      )

rc-IsClean : (r : Run) → restore_rc r ≡ some false → IsClean r
unfolding restore_rc
rc-IsClean r h = split r.alive refl h
  where
    split : (b : Bool) → r.alive ≡ b → (if b then some r.warned else none) ≡ some false → IsClean r
    split true e k = (e, some-same k)
    split false e k = absurd (none-ne k)

-- If `tp_restore` returns 0, the index has an entry for every object of the snapshot's files, and these
-- calls were made: those that create the file of the object's first path and, unless its size in the
-- index is 0, write to it data of that size and of the hash of the index, if it has one; those that
-- link every other path of the object to it, make every directory and make every symbolic link with
-- its target; and those that set the times of all of these, the modes of files and directories and,
-- for root, the owners of all of them. (`qsort` sorts.)
pub restore-IsComplete :
    (s : System) (dest : Bytes) (entries : List ManifestEntry) (find : Bytes → Option IndexEntry)
    → IsSystem s
    → restore_rc (restore s dest (some entries) (some find)) ≡ some false
    → IsComplete s dest find entries (restore s dest (some entries) (some find)).ops
unfolding restore
restore-IsComplete s dest entries find sys h =
    let groups = collect_links [] entries in
    let dirs = dirs_of entries in
    let syms = syms_of entries in
    let done = resolved s dest groups dirs syms (resolve find groups) in
    split (groups_safe groups && (dirs_safe dirs && syms_safe syms)) done
      (rc-IsClean (restore s dest (some entries) (some find)) h)
      (resolved-IsComplete s dest find entries (resolve find groups) sys refl)
  where
    split :
        (b : Bool) (done : Run)
        → IsClean (if b then done else die (start s dest))
        → (IsClean done → IsComplete s dest find entries done.ops)
        → IsComplete s dest find entries (if b then done else die (start s dest)).ops
    split true done c f = f c
    split false done (alive, clean) f = absurd (false-ne alive)
      where
        false-ne : false ≡ true → ⊥
        false-ne q = cc
