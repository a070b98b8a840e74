-- ===== src/Restore/Early.antt =====
-- The phases of `tp_restore` up to the hard links.
use tarpack.Index.{IndexEntry}
use tarpack.Restore.PathSafe.{path_safe}
use tarpack.Restore.Plan.{
  Op, Rc, DirMeta, NeededObj, System, Run, succeeded, call, warn, die, dest_path, EntryData,
}
use tarpack.Restore.Contained.{
  Extends, Extends-self, Extends-trans, call-Extends, if-Extends, next-Extends, IsWithin, IsEarly,
}
use tarpack.Restore.Extract.{
  dir_mode, dir_made, make_dir_again, dir_result, make_dir, make_dirs, create_again, create_result,
  create_file, content_ok, write_data, stream_one_entry, find_match,
}
use tarpack.Prelude.{
  ℕ, ◌≡◌, refl, inl, inr, true, Option, none, some, List, [], ◌∷◌, All, Bytes, Bool-cases,
  if◌then◌else◌, ◌>>=◌, not, ◌&&◌, str_eq, c_string,
}

module _ (s : System) (dest : Bytes) where
  abbrev pub Goes : Run → Run → Type 0
  Goes = Extends (IsEarly dest)

  die-Goes : (a r : Run) → Goes a r → Goes a (die r)
  die-Goes a r h = h

  dir_made-Goes : (a : Run) (rc : Rc) (r : Run) → Goes a r → Goes a (dir_made rc r)
  dir_made-Goes a Rc.ok r h = h
  dir_made-Goes a Rc.exists r h = h
  dir_made-Goes a Rc.no_parent r h = h
  dir_made-Goes a Rc.failed r h = h

  make_dir_again-Goes :
      (r : Run) (full : Bytes) (mode : ℕ)
      → IsWithin dest full
      → Goes r (make_dir_again s dest r full mode)
  unfolding make_dir_again
  make_dir_again-Goes r full mode w =
      let P = IsEarly dest in
      let r1 = call r (Op.mkdir_parents full) in
      let h1 : Goes r r1 = call-Extends P r (Op.mkdir_parents full) w in
      let r2 = call r1 (Op.mkdir full mode) in
      let h2 : Goes r r2 = Extends-trans P r r1 r2 h1 (call-Extends P r1 (Op.mkdir full mode) w) in
      let rc = s.rc r1.ops (Op.mkdir full mode) in
      if-Extends P r (succeeded (s.rc r.ops (Op.mkdir_parents full))) (dir_made rc r2) (die r1)
        (dir_made-Goes r rc r2 h2) h1

  dir_result-Goes :
      (a r : Run) (rc : Rc) (full : Bytes) (mode : ℕ)
      → IsWithin dest full
      → Goes a r
      → Goes a (dir_result s dest rc r full mode)
  dir_result-Goes a r Rc.ok full mode w h = h
  dir_result-Goes a r Rc.exists full mode w h = h
  dir_result-Goes a r Rc.failed full mode w h = h
  dir_result-Goes a r Rc.no_parent full mode w h =
      Extends-trans (IsEarly dest) a r (make_dir_again s dest r full mode) h
        (make_dir_again-Goes r full mode w)

  make_dir-Goes : (r : Run) (d : DirMeta) → path_safe d.path ≡ true → Goes r (make_dir s dest r d)
  unfolding make_dir
  make_dir-Goes r d safe =
      let full = dest_path dest d.path in
      let mode = dir_mode d.meta.mode_perm in
      let w : IsWithin dest full = (d.path, safe, refl) in
      dir_result-Goes r (call r (Op.mkdir full mode)) (s.rc r.ops (Op.mkdir full mode)) full mode w
        (call-Extends (IsEarly dest) r (Op.mkdir full mode) w)

  abbrev IsSafeDir : DirMeta → Type 0
  IsSafeDir d = path_safe d.path ≡ true

  pub make_dirs-Goes :
      (r : Run) (dirs : List DirMeta) → All IsSafeDir dirs → Goes r (make_dirs s dest r dirs)
  unfolding make_dirs
  make_dirs-Goes r [] h = Extends-self (IsEarly dest) r r refl
  make_dirs-Goes r (d ∷ dirs) (hd, h) =
      next-Extends (IsEarly dest) r (make_dir s dest r d) (λ q. make_dirs s dest q dirs)
        (make_dir-Goes r d hd) (λ q. make_dirs-Goes q dirs h)

  create_again-Goes :
      (r : Run) (full : Bytes) → IsWithin dest full → Goes r (create_again s dest r full)
  unfolding create_again
  create_again-Goes r full w =
      let P = IsEarly dest in
      let r1 = call r (Op.mkdir_parents full) in
      let h1 : Goes r r1 = call-Extends P r (Op.mkdir_parents full) w in
      let r2 = call r1 (Op.create full) in
      let h2 : Goes r r2 = Extends-trans P r r1 r2 h1 (call-Extends P r1 (Op.create full) w) in
      if-Extends P r (succeeded (s.rc r.ops (Op.mkdir_parents full)))
        (if succeeded (s.rc r1.ops (Op.create full)) then r2 else die r2) (die r1)
        (if-Extends P r (succeeded (s.rc r1.ops (Op.create full))) r2 (die r2) h2 h2) h1

  create_result-Goes :
      (a r : Run) (rc : Rc) (full : Bytes)
      → IsWithin dest full
      → Goes a r
      → Goes a (create_result s dest rc r full)
  create_result-Goes a r Rc.ok full w h = h
  create_result-Goes a r Rc.exists full w h = h
  create_result-Goes a r Rc.failed full w h = h
  create_result-Goes a r Rc.no_parent full w h =
      Extends-trans (IsEarly dest) a r (create_again s dest r full) h (create_again-Goes r full w)

  create_file-Goes :
      (r : Run) (full : Bytes) → IsWithin dest full → Goes r (create_file s dest r full)
  unfolding create_file
  create_file-Goes r full w =
      create_result-Goes r (call r (Op.create full)) (s.rc r.ops (Op.create full)) full w
        (call-Extends (IsEarly dest) r (Op.create full) w)

  write_data-Goes :
      (r : Run) (ie : IndexEntry) (full : Bytes) (d : EntryData)
      → IsWithin dest full
      → Goes r (write_data s dest ie full d r)
  unfolding write_data
  write_data-Goes r ie full d w =
      let P = IsEarly dest in
      let op = Op.write full d.bytes in
      let r' = call r op in
      let h : Goes r r' = call-Extends P r op w in
      let ok = content_ok s dest ie d.bytes in
      if-Extends P r (succeeded (s.rc r.ops op) && d.complete) (if ok then r' else warn r') (die r')
        (if-Extends P r ok r' (warn r') h h) h

  pub stream_one_entry-Goes :
      (r : Run) (full : Bytes) (ie : IndexEntry) (d : EntryData)
      → IsWithin dest full
      → Goes r (stream_one_entry s dest r full ie d)
  unfolding stream_one_entry
  stream_one_entry-Goes r full ie d w =
      next-Extends (IsEarly dest) r (create_file s dest r full) (write_data s dest ie full d)
        (create_file-Goes r full w) (λ q. write_data-Goes q ie full d w)

  -- An item whose first path is safe.
  abbrev pub IsSafeItem : NeededObj → Type 0
  IsSafeItem need = path_safe need.group.first ≡ true

  abbrev pub IsSafeMatch : Option (NeededObj × List NeededObj) → Type 0
  IsSafeMatch none = Unit {0}
  IsSafeMatch (some (need, marked)) = IsSafeItem need × All IsSafeItem marked

  skip_item :
      (need : NeededObj) (o : Option (NeededObj × List NeededObj))
      → IsSafeItem need
      → IsSafeMatch o
      → IsSafeMatch (o >>= λ (found, marked). some (found, need ∷ marked))
  skip_item need none h m = tt
  skip_item need (some (found, marked)) h (hf, hm) = (hf, (h, hm))

  pub find_match-safe :
      (items : List NeededObj) (pathname : Bytes)
      → All IsSafeItem items
      → IsSafeMatch (find_match s dest items pathname)
  unfolding find_match
  find_match-safe [] pathname h = tt
  find_match-safe (need ∷ items) pathname (hn, h) =
      elim (Bool-cases (not need.written && str_eq (c_string need.ie.path) pathname)) [
        | inl e ↦ simp e (hn, (hn, h))
        | inr e ↦ simp e (
            skip_item need (find_match s dest items pathname) hn (find_match-safe items pathname h))
      ]
