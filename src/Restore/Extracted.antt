-- ===== src/Restore/Extracted.antt =====
-- What a run that ends without a warning has called: the directories and the files.
use tarpack.Prelude.{
  ℕ, ◌≡◌, refl, ◌⊎◌, inl, inr, Bool, true, false, ◌&&◌, List, [], ◌∷◌, if◌then◌else◌, Member, Bytes,
}
use tarpack.Index.{IndexEntry}
use tarpack.Restore.Clean.{
  Done, Makes, Sub, alive-Done, call-Done, die-Done, drop-Done, if-Done, next-Done, self-Done,
  seq-Done, warn-Done,
}
use tarpack.Restore.Plan.{
  Op, Rc, DirMeta, EntryData, NeededObj, System, Run, succeeded, call, warn, die, dest_path,
}
use tarpack.Restore.Extract.{
  dir_mode, dir_made, make_dir_again, dir_result, make_dir, make_dirs, create_again, create_result,
  create_file, content_ok, write_data, stream_one_entry,
}

module _ (s : System) (dest : Bytes) where
  dir_made-Done : (rc : Rc) (a r : Run) → Done a r (Makes []) → Done a (dir_made rc r) (Makes [])
  dir_made-Done Rc.ok a r h = h
  dir_made-Done Rc.exists a r h = h
  dir_made-Done Rc.no_parent a r h = die-Done a r (Makes [])
  dir_made-Done Rc.failed a r h = die-Done a r (Makes [])

  make_dir_again-Done :
      (r : Run) (full : Bytes) (mode : ℕ) → Done r (make_dir_again s dest r full mode) (Makes [])
  unfolding make_dir_again
  make_dir_again-Done r full mode =
      let up = Op.mkdir_parents full in
      let op = Op.mkdir full mode in
      let r1 = call r up in
      let r2 = call r1 op in
      let both =
        seq-Done r r1 r2 [] [] (drop-Done r r1 (up ∷ []) (call-Done r up))
          (drop-Done r1 r2 (op ∷ []) (call-Done r1 op)) in
      if-Done r (succeeded (s.rc r.ops up)) (dir_made (s.rc r1.ops op) r2) (die r1) (Makes [])
        (dir_made-Done (s.rc r1.ops op) r r2 both) (die-Done r r1 (Makes []))

  dir_result-Done :
      (rc : Rc) (r : Run) (full : Bytes) (mode : ℕ)
      → Done r (dir_result s dest rc r full mode) (Makes [])
  dir_result-Done Rc.ok r full mode = self-Done r
  dir_result-Done Rc.exists r full mode = self-Done r
  dir_result-Done Rc.no_parent r full mode = make_dir_again-Done r full mode
  dir_result-Done Rc.failed r full mode = die-Done r r (Makes [])

  abbrev pub dir_ops : List DirMeta → List Op
  dir_ops [] = []
  dir_ops (d ∷ dirs) = Op.mkdir (dest_path dest d.path) (dir_mode d.meta.mode_perm) ∷ dir_ops dirs

  pub make_dirs-Done :
      (r : Run) (dirs : List DirMeta) → Done r (make_dirs s dest r dirs) (Makes (dir_ops dirs))
  unfolding make_dirs make_dir
  make_dirs-Done r [] = self-Done r
  make_dirs-Done r (d ∷ dirs) =
      let full = dest_path dest d.path in
      let mode = dir_mode d.meta.mode_perm in
      let op = Op.mkdir full mode in
      let r1 = call r op in
      let r2 = dir_result s dest (s.rc r.ops op) r1 full mode in
      next-Done r r2 (λ q. make_dirs s dest q dirs) (op ∷ []) (dir_ops dirs)
        (seq-Done r r1 r2 (op ∷ []) [] (call-Done r op)
          (dir_result-Done (s.rc r.ops op) r1 full mode))
        (λ q. make_dirs-Done q dirs)

  create_again-Done : (r : Run) (full : Bytes) → Done r (create_again s dest r full) (Makes [])
  unfolding create_again
  create_again-Done r full =
      let up = Op.mkdir_parents full in
      let op = Op.create full in
      let r1 = call r up in
      let r2 = call r1 op in
      let both =
        seq-Done r r1 r2 [] [] (drop-Done r r1 (up ∷ []) (call-Done r up))
          (drop-Done r1 r2 (op ∷ []) (call-Done r1 op)) in
      if-Done r (succeeded (s.rc r.ops up)) (if succeeded (s.rc r1.ops op) then r2 else die r2)
        (die r1) (Makes [])
        (if-Done r (succeeded (s.rc r1.ops op)) r2 (die r2) (Makes []) both
          (die-Done r r2 (Makes [])))
        (die-Done r r1 (Makes []))

  create_result-Done :
      (rc : Rc) (r : Run) (full : Bytes) → Done r (create_result s dest rc r full) (Makes [])
  create_result-Done Rc.ok r full = self-Done r
  create_result-Done Rc.exists r full = die-Done r r (Makes [])
  create_result-Done Rc.no_parent r full = create_again-Done r full
  create_result-Done Rc.failed r full = die-Done r r (Makes [])

  create_file-Done :
      (r : Run) (full : Bytes) → Done r (create_file s dest r full) (Makes (Op.create full ∷ []))
  unfolding create_file
  create_file-Done r full =
      let op = Op.create full in
      let r1 = call r op in
      seq-Done r r1 (create_result s dest (s.rc r.ops op) r1 full) (op ∷ []) [] (call-Done r op)
        (create_result-Done (s.rc r.ops op) r1 full)

  -- Data of the size and the hash of the index is written to the file.
  abbrev pub IsWritten : Bytes → IndexEntry → List Op → Type 0
  IsWritten full ie ops =
      (bytes : Bytes) × Member (Op.write full bytes) ops × (content_ok s dest ie bytes ≡ true)

  -- The file of an object is created, and written unless it is empty.
  abbrev pub IsExtracted : List Op → NeededObj → Type 0
  IsExtracted ops need =
      Member (Op.create (dest_path dest need.group.first)) ops
      × (IsWritten (dest_path dest need.group.first) need.ie ops ⊎ (need.ie.size ≡ 0))

  pub IsExtracted-Sub :
      (a b : Run) (need : NeededObj) → Sub a b → IsExtracted a.ops need → IsExtracted b.ops need
  IsExtracted-Sub a b need sub (made, inl (bytes, w, ok)) = (
    sub (Op.create (dest_path dest need.group.first)) made,
    inl (bytes, sub (Op.write (dest_path dest need.group.first) bytes) w, ok),
  )
  IsExtracted-Sub a b need sub (made, inr e) =
      (sub (Op.create (dest_path dest need.group.first)) made, inr e)

  write_data-Done :
      (r : Run) (full : Bytes) (ie : IndexEntry) (d : EntryData)
      → Done r (write_data s dest ie full d r) (IsWritten full ie)
  unfolding write_data
  write_data-Done r full ie d =
      let op = Op.write full d.bytes in
      let r1 = call r op in
      let P = IsWritten full ie in
      if-Done r (succeeded (s.rc r.ops op) && d.complete)
        (if content_ok s dest ie d.bytes then r1 else warn r1) (die r1) P
        (split (content_ok s dest ie d.bytes) refl) (die-Done r r1 P)
    where
      split :
          (b : Bool)
          → content_ok s dest ie d.bytes ≡ b
          → Done r
              (if b then call r (Op.write full d.bytes) else warn (call r (Op.write full d.bytes)))
              (IsWritten full ie)
      split true e = λ clean.
          let (c, sub, (m, u)) = call-Done r (Op.write full d.bytes) clean in
          (c, sub, (d.bytes, m, e))
      split false e = warn-Done r (call r (Op.write full d.bytes)) (IsWritten full ie)

  pub stream_one_entry-Done :
      (r : Run) (need : NeededObj) (d : EntryData)
      → Done r
          (stream_one_entry s dest r (dest_path dest need.group.first) need.ie d)
          (λ ops. IsExtracted ops need)
  unfolding stream_one_entry
  stream_one_entry-Done r need d =
      let full = dest_path dest need.group.first in
      let r1 = create_file s dest r full in
      alive-Done r r1 (write_data s dest need.ie full d) (λ ops. IsExtracted ops need)
        (λ clean.
          let (c1, sub1, w) = write_data-Done r1 full need.ie d clean in
          let (c, sub, (m, u)) = create_file-Done r full c1 in
          (c, λ o h. sub1 o (sub o h), (sub1 (Op.create full) m, inl w)))
