-- ===== src/Scanner.antt =====
-- src/scanner.c with the object table of src/object.c: a scan writes the lines of a snapshot. The
-- directory tree is what the system calls answer for a path from the root, and does not change during
-- the scan. Numbers are natural, allocations succeed.
pub mod Table
pub mod Lines
pub mod Hits
pub mod Found
pub mod Fresh
pub mod Walk
pub mod Depth
pub mod Ids
mod Tests
use tarpack.Prelude.{
  ◌>>=◌, ℕ, zero, suc, ◌+◌, ◌%◌, Bool, true, false, ◌&&◌, ◌||◌, Option, none, some, List, [], ◌∷◌,
  ◌++◌, leb, ◌==◌, if◌then◌else◌, length, take, Bytes, codes, str_eq,
}
use tarpack.Checksum.{path_max}
use tarpack.Index.{IndexEntry}
use tarpack.Index.Load.{
  Fields, ObjectIndex, IndexFile, index_load, find_by_path, find_by_sha256, object_id_of,
}
use tarpack.Packer.Names.{ulong_mod}

pub data FileType : Type 0 where
  dir : FileType
  symlink : FileType
  regular : FileType
  other : FileType

-- `struct stat`
pub record Stat : Type 0 where
  pub type : FileType
  pub dev : ℕ
  pub ino : ℕ
  pub nlink : ℕ
  pub uid : ℕ
  pub gid : ℕ
  pub mode_perm : ℕ
  pub size : ℕ
  pub mtime_sec : ℕ
  pub mtime_nsec : ℕ

-- `struct tp_object`, what the scanner reads of it.
pub record Object : Type 0 where
  pub id : Bytes
  pub dev : ℕ
  pub ino : ℕ
  pub sha256_hex : Bytes

-- `struct tp_object_table`
pub record ObjectTable : Type 0 where
  pub objects : List Object
  pub next_id : ℕ

-- `tp_object_table_find`
unfoldable pub object_find : List Object → ℕ → ℕ → Option Object
object_find [] dev ino = none
object_find (o ∷ objects) dev ino =
    let rest = object_find objects dev ino in if o.dev == dev && o.ino == ino then some o else rest

-- `insert_common` with the id and the hash that the object has afterwards.
unfoldable pub insert_common : ObjectTable → Stat → Bytes → Bytes → ObjectTable × Object
insert_common t st id sha =
    let o : Object = record { id = id; dev = st.dev; ino = st.ino; sha256_hex = sha } in
    (record t { objects = o ∷ t.objects }, o)

-- `tp_object_table_insert`
unfoldable pub table_insert : ObjectTable → Stat → Bytes → ObjectTable × Object
table_insert t st sha =
    let (t', o) = insert_common t st (object_id_of t.next_id) sha in
    (record t' { next_id = (t.next_id + 1) % ulong_mod }, o)

-- `tp_object_table_insert_with_id`; the buffer of an id has 32 bytes.
unfoldable pub table_insert_with_id : ObjectTable → Stat → Bytes → Bytes → ObjectTable × Object
table_insert_with_id t st id sha = insert_common t st (take 31 id) sha

-- The lines that `tp_snapshot_write_dir` and the like write.
pub data Line : Type 0 where
  dir : Bytes → Stat → Line
  symlink : Bytes → Bytes → Stat → Line
  file : Bytes → Bytes → Stat → Bytes → Line

-- The system and the libraries. `stat_at` is about a name in a directory, the others about a path;
-- `pick` is a lookup in a hash table, `sort` is `qsort` with `dirent_name_cmp`, and `writes` tells
-- whether a line can be written behind those that were.
pub record ScanSystem : Type 0 where
  pub stat_at : Bytes → Bytes → Option Stat
  pub opens : Bytes → Bool
  pub names : Bytes → Option (List Bytes)
  pub read_link : Bytes → Option Bytes
  pub read_file : Bytes → Option Bytes
  pub sha256_hex : Bytes → Bytes
  pub pick : List IndexEntry → Option IndexEntry
  pub sort : List Bytes → List Bytes
  pub writes : List Line → Line → Bool

-- `struct scan_ctx`, what a scan changes; the counters are natural numbers.
pub record Ctx : Type 0 where
  pub table : ObjectTable
  pub lines : List Line
  pub had_error : Bool
  pub new_objects : ℕ
  pub already_packed_objects : ℕ

abbrev pub fault : Ctx → Ctx
fault ctx = record ctx { had_error = true }

abbrev pub joined_path : Bytes → Bytes → Bytes
joined_path [] name = name
joined_path (c ∷ rel_dir) name = (c ∷ rel_dir) ++ b'/' ∷ name

unfoldable pub join_rel_path : Bytes → Bytes → Option Bytes
join_rel_path rel_dir name =
    let rel = joined_path rel_dir name in if leb path_max (length rel) then none else some rel

-- The names but "." and "..".
unfoldable pub drop_dots : List Bytes → List Bytes
drop_dots [] = []
drop_dots (n ∷ ns) =
    let rest = drop_dots ns in
    if str_eq n (codes ".") || str_eq n (codes "..") then rest else n ∷ rest

module _ (s : ScanSystem) (idx : ObjectIndex) (hash_mode : Bool) (repo : Option (ℕ × ℕ)) where
  unfoldable pub write_line : Ctx → Line → Ctx
  write_line ctx l =
      if s.writes ctx.lines l then record ctx { lines = ctx.lines ++ l ∷ [] } else fault ctx

  -- `hash_file`, and the lookup by the hash.
  abbrev pub hashed : Ctx → Option Bytes → Ctx × Bytes × Option IndexEntry
  hashed ctx none = (fault ctx, [], none)
  hashed ctx (some bytes) =
      let sha = s.sha256_hex bytes in (ctx, sha, find_by_sha256 s.pick idx sha)

  abbrev pub by_hash : Ctx → Bytes → Option IndexEntry → Ctx × Bytes × Option IndexEntry
  by_hash ctx rel (some hit) = (ctx, [], some hit)
  by_hash ctx rel none = if hash_mode then hashed ctx (s.read_file rel) else (ctx, [], none)

  abbrev pub insert_object : Ctx → Stat → Bytes → Option IndexEntry → Ctx × Object
  insert_object ctx st sha (some hit) =
      let (t, o) = table_insert_with_id ctx.table st hit.object_id sha in
      (record ctx { table = t; already_packed_objects = ctx.already_packed_objects + 1 }, o)
  insert_object ctx st sha none =
      let (t, o) = table_insert ctx.table st sha in
      (record ctx { table = t; new_objects = ctx.new_objects + 1 }, o)

  -- The first name of an inode.
  unfoldable pub new_object : Ctx → Stat → Bytes → Ctx × Object
  new_object ctx st rel =
      let (ctx', sha, hit) =
        by_hash ctx rel (find_by_path s.pick idx rel st.size st.mtime_sec st.mtime_nsec) in
      insert_object ctx' st sha hit

  abbrev pub object_for : Ctx → Stat → Bytes → Option Object → Ctx × Object
  object_for ctx st rel (some o) = (ctx, o)
  object_for ctx st rel none = new_object ctx st rel

  unfoldable pub handle_file : Ctx → Stat → Bytes → Ctx
  handle_file ctx st rel =
      let (ctx', o) = object_for ctx st rel (object_find ctx.table.objects st.dev st.ino) in
      write_line ctx' (Line.file rel o.id st o.sha256_hex)

  abbrev pub handle_link : Ctx → Stat → Bytes → Option Bytes → Ctx
  handle_link ctx st rel none = fault ctx
  handle_link ctx st rel (some target) =
      if leb path_max (length target)
      then fault ctx
      else write_line ctx (Line.symlink rel target st)

  abbrev pub is_repo : Option (ℕ × ℕ) → Stat → Bool
  is_repo none st = false
  is_repo (some (dev, ino)) st = st.dev == dev && st.ino == ino

  unfoldable pub handle_dir : (Ctx → Bytes → Ctx) → Ctx → Stat → Bytes → Ctx
  handle_dir descend ctx st rel =
      if is_repo repo st
      then ctx
      else if s.opens rel
      then (if s.writes ctx.lines (Line.dir rel st)
          then descend (write_line ctx (Line.dir rel st)) rel
          else fault ctx)
      else fault ctx

  abbrev pub handle_type : (Ctx → Bytes → Ctx) → Ctx → Stat → Bytes → FileType → Ctx
  handle_type descend ctx st rel FileType.dir = handle_dir descend ctx st rel
  handle_type descend ctx st rel FileType.symlink = handle_link ctx st rel (s.read_link rel)
  handle_type descend ctx st rel FileType.regular = handle_file ctx st rel
  handle_type descend ctx st rel FileType.other = ctx

  abbrev pub handle_path : (Ctx → Bytes → Ctx) → Ctx → Option Stat → Option Bytes → Ctx
  handle_path descend ctx none rel = fault ctx
  handle_path descend ctx (some st) none = fault ctx
  handle_path descend ctx (some st) (some rel) = handle_type descend ctx st rel st.type

  unfoldable pub handle_entry : (Ctx → Bytes → Ctx) → Ctx → Bytes → Bytes → Ctx
  handle_entry descend ctx rel_dir name =
      handle_path descend ctx (s.stat_at rel_dir name) (join_rel_path rel_dir name)

  unfoldable pub scan_names : (Ctx → Bytes → Ctx) → Ctx → Bytes → List Bytes → Ctx
  scan_names descend ctx rel_dir [] = ctx
  scan_names descend ctx rel_dir (n ∷ ns) =
      scan_names descend (handle_entry descend ctx rel_dir n) rel_dir ns

  abbrev pub scan_listed : (Ctx → Bytes → Ctx) → Ctx → Bytes → Option (List Bytes) → Ctx
  scan_listed descend ctx rel_dir none = fault ctx
  scan_listed descend ctx rel_dir (some ns) = scan_names descend ctx rel_dir (s.sort (drop_dots ns))

  -- With fuel for the depth of the tree.
  unfoldable pub scan_dir : ℕ → Ctx → Bytes → Ctx
  scan_dir zero ctx rel_dir = ctx
  scan_dir (suc f) ctx rel_dir = scan_listed (scan_dir f) ctx rel_dir (s.names rel_dir)

-- The calls of `tp_scan` before and behind the walk.
pub record ScanCalls : Type 0 where
  pub opens_root : Bool
  pub index_file : IndexFile
  pub repo_stat : Option (ℕ × ℕ)
  pub opens_writer : Bool
  pub closes_writer : Bool

abbrev pub start_ctx : ObjectIndex → Ctx
start_ctx idx = record {
  table = record { objects = []; next_id = idx.next_id };
  lines = [];
  had_error = false;
  new_objects = 0;
  already_packed_objects = 0;
}

unfoldable pub scan_tree : ScanSystem → ObjectIndex → Bool → ScanCalls → Option Ctx
scan_tree s idx hash_mode c =
    let ctx = scan_dir s idx hash_mode c.repo_stat path_max (start_ctx idx) [] in
    if c.opens_writer then some (if c.closes_writer then ctx else fault ctx) else none

-- `tp_scan`; none is its -1, otherwise it returns whether there was an error.
unfoldable pub scan : ScanSystem → (Bytes → Option Fields) → Bool → ScanCalls → Option Ctx
scan s parse hash_mode c =
    if c.opens_root
    then (do idx ← index_load parse c.index_file; scan_tree s idx hash_mode c)
    else none
