-- ===== src/Restore/Extract.antt =====
-- `tp_restore` (src/restore.c), from the entries of the snapshot and the index on.
use tarpack.Index.{IndexEntry}
use tarpack.Manifest.{ManifestEntry, Meta}
use tarpack.Restore.Links.{LinkGroup, collect_links}
use tarpack.Restore.Plan.{
  Op, Rc, ArchiveEntry, DirMeta, SymMeta, NeededObj, System, Run, succeeded, call, warn, die, next,
  try, dest_path, dirs_of, syms_of, groups_safe, dirs_safe, syms_safe, resolve, EntryData,
}
use tarpack.Prelude.{
  ◌>>=◌, ℕ, zero, suc, ◌+◌, ◌*◌, ◌/◌, ◌%◌, ◌==◌, Bool, true, false, ◌&&◌, ◌||◌, not, Option, none,
  some, List, [], ◌∷◌, ◌++◌, if◌then◌else◌, length, take, drop, Bytes, c_string, str_eq,
}
use mathlib.Core.List.{reverse}

-- `mode | 0700`
abbrev pub dir_mode : ℕ → ℕ
dir_mode mode = mode / 512 * 512 + 448 + mode % 64

abbrev pub dir_made : Rc → Run → Run
dir_made Rc.ok r = r
dir_made Rc.exists r = r
dir_made _ r = die r

module _ (s : System) (dest : Bytes) where
  -- `mkdir` again behind `mkdir_parents`.
  unfoldable pub make_dir_again : Run → Bytes → ℕ → Run
  make_dir_again r full mode =
      let r1 = call r (Op.mkdir_parents full) in
      if succeeded (s.rc r.ops (Op.mkdir_parents full))
      then dir_made (s.rc r1.ops (Op.mkdir full mode)) (call r1 (Op.mkdir full mode))
      else die r1

  abbrev pub dir_result : Rc → Run → Bytes → ℕ → Run
  dir_result Rc.no_parent r full mode = make_dir_again r full mode
  dir_result Rc.ok r full mode = r
  dir_result Rc.exists r full mode = r
  dir_result Rc.failed r full mode = die r

  unfoldable pub make_dir : Run → DirMeta → Run
  make_dir r d =
      let full = dest_path dest d.path in
      let mode = dir_mode d.meta.mode_perm in
      dir_result (s.rc r.ops (Op.mkdir full mode)) (call r (Op.mkdir full mode)) full mode

  unfoldable pub make_dirs : Run → List DirMeta → Run
  make_dirs r [] = r
  make_dirs r (d ∷ dirs) = next (make_dir r d) (λ r'. make_dirs r' dirs)

  -- `open` of `stream_one_entry`, and again behind `mkdir_parents`.
  unfoldable pub create_again : Run → Bytes → Run
  create_again r full =
      let r1 = call r (Op.mkdir_parents full) in
      if succeeded (s.rc r.ops (Op.mkdir_parents full))
      then (if succeeded (s.rc r1.ops (Op.create full))
          then call r1 (Op.create full)
          else die (call r1 (Op.create full)))
      else die r1

  abbrev pub create_result : Rc → Run → Bytes → Run
  create_result Rc.no_parent r full = create_again r full
  create_result Rc.ok r full = r
  create_result Rc.exists r full = die r
  create_result Rc.failed r full = die r

  unfoldable pub create_file : Run → Bytes → Run
  create_file r full = create_result (s.rc r.ops (Op.create full)) (call r (Op.create full)) full

  -- The bytes against the size and the hash of the index.
  unfoldable pub content_ok : IndexEntry → Bytes → Bool
  content_ok ie bytes =
      length bytes == ie.size
      && (length ie.sha256_hex == 0 || str_eq (s.sha256 bytes) ie.sha256_hex)

  -- The loop that copies the data as one call, with `close`.
  unfoldable pub write_data : IndexEntry → Bytes → EntryData → Run → Run
  write_data ie full d r =
      let r' = call r (Op.write full d.bytes) in
      if succeeded (s.rc r.ops (Op.write full d.bytes)) && d.complete
      then (if content_ok ie d.bytes then r' else warn r')
      else die r'

  unfoldable pub stream_one_entry : Run → Bytes → IndexEntry → EntryData → Run
  stream_one_entry r full ie d = next (create_file r full) (write_data ie full d)

  -- The first item with the path that is not written yet, and the items with that one marked.
  unfoldable pub find_match : List NeededObj → Bytes → Option (NeededObj × List NeededObj)
  find_match [] pathname = none
  find_match (need ∷ items) pathname =
      let rest = find_match items pathname in
      if not need.written && str_eq (c_string need.ie.path) pathname
      then some (need, record need { written = true } ∷ items)
      else (do (found, marked) ← rest; some (found, need ∷ marked))

  abbrev pub extract :
      Run → List NeededObj → EntryData → Option (NeededObj × List NeededObj) → Run × List NeededObj
  extract r items d none = (r, items)
  extract r items d (some (need, marked)) =
      (stream_one_entry r (dest_path dest need.group.first) need.ie d, marked)

  -- One header of the archive.
  unfoldable pub pack_entry :
      Run → List NeededObj → ArchiveEntry → Option Bytes → Run × List NeededObj
  pack_entry r items e none = (r, items)
  pack_entry r items e (some pathname) = extract r items e.data_of (find_match items pathname)

  -- `remaining > 0`
  unfoldable pub some_left : List NeededObj → Bool
  some_left [] = false
  some_left (need ∷ items) = not need.written || some_left items

  unfoldable pub pack_loop : Run → List NeededObj → List ArchiveEntry → Run × List NeededObj
  pack_loop r items [] = (r, items)
  pack_loop r items (e ∷ es) =
      let step = pack_entry r items e e.pathname in
      let rest = pack_loop step.0 step.1 es in
      if some_left items then (if step.0.alive then rest else step) else (r, items)

  unfoldable pub restore_one_pack :
      Run → List NeededObj → Option (List ArchiveEntry) → Run × List NeededObj
  restore_one_pack r items none = (die r, items)
  restore_one_pack r items (some entries) = pack_loop r items entries

  -- How many of the next items are in the pack.
  unfoldable pub run_length : Bytes → List NeededObj → ℕ
  run_length pack [] = 0
  run_length pack (need ∷ items) =
      let rest = run_length pack items in if str_eq need.ie.pack pack then suc rest else 0

  -- The loop over the packs, with fuel for its rounds.
  unfoldable pub passes : ℕ → Run → List NeededObj → Run × List NeededObj
  passes zero r items = (r, items)
  passes (suc f) r [] = (r, [])
  passes (suc f) r (need ∷ items) =
      let n = suc (run_length need.ie.pack items) in
      let here = restore_one_pack r (take n (need ∷ items)) (s.archive need.ie.pack) in
      let later = passes f here.0 (drop n (need ∷ items)) in
      if here.0.alive
      then (later.0, here.1 ++ later.1)
      else (here.0, here.1 ++ drop n (need ∷ items))

  -- What was in no archive: an empty file, or a warning.
  unfoldable pub fill_empty : Run → NeededObj → Run
  fill_empty r need =
      let full = dest_path dest need.group.first in
      if need.written
      then r
      else if need.ie.size == 0
      then (if succeeded (s.rc r.ops (Op.create full))
          then call r (Op.create full)
          else die (call r (Op.create full)))
      else warn r

  unfoldable pub fill_all : Run → List NeededObj → Run
  fill_all r [] = r
  fill_all r (need ∷ items) = next (fill_empty r need) (λ r'. fill_all r' items)

  unfoldable pub link_names : Run → Bytes → List Bytes → Run
  link_names r target [] = r
  link_names r target (p ∷ ps) = link_names (try s r (Op.link target (dest_path dest p))) target ps

  unfoldable pub link_groups : Run → List LinkGroup → Run
  link_groups r [] = r
  link_groups r (g ∷ groups) = link_groups (link_names r (dest_path dest g.first) g.others) groups

  -- The owner, which only root sets, and the times.
  unfoldable pub own_and_time : Run → Bytes → Meta → Op → Run
  own_and_time r full meta own =
      try s (if s.is_root then try s r own else r) (Op.set_times full meta)

  unfoldable pub make_symlink : Run → SymMeta → Run
  make_symlink r y =
      let full = dest_path dest y.path in
      let r1 = call r (Op.symlink y.target full) in
      let r2 = try s r1 (Op.set_times full y.meta) in
      if succeeded (s.rc r.ops (Op.symlink y.target full))
      then (if s.is_root then try s r2 (Op.lchown full y.meta.uid y.meta.gid) else r2)
      else warn r1

  unfoldable pub make_symlinks : Run → List SymMeta → Run
  make_symlinks r [] = r
  make_symlinks r (y ∷ syms) = make_symlinks (make_symlink r y) syms

  -- `chmod`, `chown` and the times of one path.
  unfoldable pub set_meta : Run → Bytes → Meta → Run
  set_meta r path meta =
      let full = dest_path dest path in
      own_and_time (try s r (Op.chmod full meta.mode_perm)) full meta
        (Op.chown full meta.uid meta.gid)

  unfoldable pub files_meta : Run → List LinkGroup → Run
  files_meta r [] = r
  files_meta r (g ∷ groups) = files_meta (set_meta r g.first g.meta) groups

  unfoldable pub dirs_meta : Run → List DirMeta → Run
  dirs_meta r [] = r
  dirs_meta r (d ∷ dirs) = dirs_meta (set_meta r d.path d.meta) dirs

  -- The directories by path from the last one to the first.
  unfoldable pub deepest_first : List DirMeta → List DirMeta
  deepest_first dirs = reverse (s.sort_dirs dirs)

  -- From the hard links on.
  unfoldable pub finish : List LinkGroup → List DirMeta → List SymMeta → Run → Run
  finish groups dirs syms r =
      let linked = link_groups r groups in
      let with_symlinks = make_symlinks linked syms in
      dirs_meta (files_meta with_symlinks groups) (deepest_first dirs)

  -- The passes over the packs and what follows them.
  unfoldable pub extract_all : List NeededObj → Run → Run
  extract_all needed r =
      let sorted = s.sort_needed needed in
      let (r', items) = passes (length sorted) r sorted in next r' (λ r''. fill_all r'' items)

  -- From the creation of the destination on.
  unfoldable pub create_tree :
      Run → List LinkGroup → List DirMeta → List SymMeta → List NeededObj → Run
  create_tree r groups dirs syms needed =
      let r1 = call r (Op.mkdir_p dest) in
      let started = if succeeded (s.rc r.ops (Op.mkdir_p dest)) then r1 else die r1 in
      next (next (next started (λ q. make_dirs q dirs)) (extract_all needed))
        (finish groups dirs syms)

  abbrev pub start : Run
  start = record { ops = []; warned = false; alive = true }

  abbrev pub resolved : List LinkGroup → List DirMeta → List SymMeta → Option (List NeededObj) → Run
  resolved groups dirs syms none = die start
  resolved groups dirs syms (some needed) = create_tree start groups dirs syms needed

  abbrev pub with_index :
      List LinkGroup → List DirMeta → List SymMeta → Option (Bytes → Option IndexEntry) → Run
  with_index groups dirs syms none = die start
  with_index groups dirs syms (some find) = resolved groups dirs syms (resolve find groups)

  -- `tp_restore` for the entries of a snapshot; none if it cannot be read, as with the index.
  unfoldable pub restore : Option (List ManifestEntry) → Option (Bytes → Option IndexEntry) → Run
  restore none index = die start
  restore (some entries) index =
      let groups = collect_links [] entries in
      let dirs = dirs_of entries in
      let syms = syms_of entries in
      if groups_safe groups && (dirs_safe dirs && syms_safe syms)
      then with_index groups dirs syms index
      else die start

-- The value that `tp_restore` returns; none is -1.
unfoldable pub restore_rc : Run → Option Bool
restore_rc r = if r.alive then some r.warned else none
