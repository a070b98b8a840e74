-- ===== src/Scanner/Tests.antt =====
-- A scan of a small tree, and the applications of the theorems about scans.
use tarpack.Prelude.{
  ℕ, ◌<◌, ◌≡◌, refl, sym, subst, inl, true, false, Option, none, some, List, [], ◌∷◌, arith,
  if◌then◌else◌, some-same, none-ne, length, All, Bytes, codes, str_eq, lines, Member,
}
use tarpack.Scanner.{
  Ctx, FileType, Line, ScanCalls, ScanSystem, Stat, scan, scan_dir, scan_tree, start_ctx,
  join_rel_path, drop_dots, handle_dir, handle_entry, handle_file, insert_common, new_object,
  object_find, scan_names, table_insert, table_insert_with_id, write_line,
}
use tarpack.Scanner.Depth.{IsTree, scan_dir-fuel}
use tarpack.Scanner.Ids.{AgreeOnIds, IsOldOrNew, scan-ids}
use tarpack.Scanner.Lines.{IsPick}
use tarpack.Checksum.{path_max, trim_line, strip_ends}
use tarpack.Index.{IndexEntry}
use tarpack.Index.Load.{
  Fields, IndexFile, ObjectIndex, index_load, add_entry, only_digits, digits_value, entry_of,
  find_by_path, load_line, load_lines, next_line, nodes_with, numeric_suffix, object_id_of,
  raise_next, same_path_key, suffix_digits,
}
use tarpack.Index.NextId.{HasNext, index_load-HasNext}
use tarpack.Packer.Names.{is_decimal, padded, decimal}
use tarpack.Restore.Order.{strcmp_le}
use tarpack.Restore.Sorting.{sorted, insert, sorted-names}

-- A line with an object O7.
abbrev known_fields : Fields
known_fields = record {
  string = λ key.
      if str_eq key (codes "object_id")
      then some (codes "O7")
      else if str_eq key (codes "path")
      then some (codes "d/x")
      else if str_eq key (codes "pack")
      then some (codes "pack-000001")
      else none;
  number = λ key. some (if str_eq key (codes "size") then 2 else 0);
}

abbrev known_entry : IndexEntry
known_entry = record {
  object_id = codes "O7";
  pack = codes "pack-000001";
  offset = 0;
  size = 2;
  sha256_hex = [];
  path = codes "d/x";
  mtime_sec = 0;
  mtime_nsec = 0;
}

abbrev known_index : ObjectIndex
known_index = record { entries = known_entry ∷ []; next_id = 8 }

abbrev parse_known : Bytes → Option Fields
parse_known line = some known_fields

abbrev known_file : IndexFile
known_file = IndexFile.holds (codes "l\n")

abbrev plain_stat : FileType → ℕ → Stat
plain_stat type ino = record {
  type = type;
  dev = 1;
  ino = ino;
  nlink = 1;
  uid = 0;
  gid = 0;
  mode_perm = 420;
  size = 2;
  mtime_sec = 0;
  mtime_nsec = 0;
}

abbrev stat_small : Bytes → Bytes → Option Stat
stat_small rel name =
    if str_eq name (codes "d")
    then some (plain_stat FileType.dir 2)
    else some (plain_stat FileType.regular (if str_eq name (codes "x") then 3 else 1))

abbrev names_small : Bytes → List Bytes
names_small [] = codes "b" ∷ codes "." ∷ codes "d" ∷ codes "a" ∷ []
names_small (c ∷ rel) = codes ".." ∷ codes "x" ∷ []

unfoldable pick_first : List IndexEntry → Option IndexEntry
pick_first [] = none
pick_first (e ∷ es) = some e

pick_first-IsPick : IsPick pick_first
unfolding pick_first
pick_first-IsPick = record { finds = found }
  where
    found : (l : List IndexEntry) (e : IndexEntry) → pick_first l ≡ some e → Member e l
    found [] e h = absurd (none-ne h)
    found (x ∷ l) e h = inl (sym (some-same h))

-- The root has a file with the names a and b, and a directory d with the file x, which is indexed.
abbrev small_system : ScanSystem
small_system = record {
  stat_at = stat_small;
  opens = λ rel. true;
  names = λ rel. some (names_small rel);
  read_link = λ rel. none;
  read_file = λ rel. none;
  sha256_hex = λ bytes. [];
  pick = pick_first;
  sort = sorted strcmp_le;
  writes = λ ls l. true;
}

abbrev small_calls : ScanCalls
small_calls = record {
  opens_root = true;
  index_file = known_file;
  repo_stat = none;
  opens_writer = true;
  closes_writer = true;
}

abbrev file_line : Bytes → Bytes → ℕ → Line
file_line path id ino = Line.file path id (plain_stat FileType.regular ino) []

abbrev small_lines : List Line
small_lines =
    file_line (codes "a") (codes "O8") 1
    ∷ file_line (codes "b") (codes "O8") 1
    ∷ Line.dir (codes "d") (plain_stat FileType.dir 2)
    ∷ file_line (codes "d/x") (codes "O7") 3
    ∷ []

abbrev small_ctx : Ctx
small_ctx = record {
  table = record {
    objects =
        record { id = codes "O7"; dev = 1; ino = 3; sha256_hex = [] }
        ∷ record { id = codes "O8"; dev = 1; ino = 1; sha256_hex = [] }
        ∷ [];
    next_id = 9;
  };
  lines = small_lines;
  had_error = false;
  new_objects = 1;
  already_packed_objects = 1;
}

known_index-loaded : index_load parse_known known_file ≡ some known_index
unfolding index_load load_lines next_line load_line entry_of add_entry raise_next numeric_suffix
    suffix_digits only_digits digits_value is_decimal trim_line strip_ends lines str_eq
known_index-loaded = refl

small_scan : scan small_system parse_known false small_calls ≡ some small_ctx
unfolding scan scan_tree scan_dir scan_names handle_entry handle_dir handle_file write_line
    join_rel_path drop_dots new_object object_find insert_common table_insert table_insert_with_id
    find_by_path nodes_with same_path_key pick_first sorted insert strcmp_le object_id_of padded
    decimal str_eq index_load load_lines next_line load_line entry_of add_entry raise_next
    numeric_suffix suffix_digits only_digits digits_value is_decimal trim_line strip_ends lines
small_scan = refl

scan-ids_example :
    All
      (λ a.
        All (AgreeOnIds small_system false known_index.entries a) small_lines
        × IsOldOrNew small_system false known_index.entries a)
      small_lines
scan-ids_example =
    scan-ids small_system parse_known false small_calls known_index small_ctx pick_first-IsPick
      known_index-loaded small_scan
      (unfold numeric_suffix suffix_digits only_digits digits_value is_decimal in omega arith, tt)
      (omega arith)

index_load-HasNext_example : HasNext known_index
index_load-HasNext_example =
    index_load-HasNext parse_known known_file known_index known_index-loaded

small_system-IsTree : IsTree small_system
small_system-IsTree = record { names_nonempty = nonempty; sorts = sorted-names }
  where
    nonempty :
        (rel : Bytes) (ns : List Bytes)
        → some (names_small rel) ≡ some ns
        → All (λ n. 0 < length n) ns
    nonempty [] ns e =
        subst (All (λ n. 0 < length n)) (some-same e)
          (omega arith, (omega arith, (omega arith, (omega arith, tt))))
    nonempty (c ∷ rel) ns e =
        subst (All (λ n. 0 < length n)) (some-same e) (omega arith, (omega arith, tt))

scan_dir-fuel_example :
    scan_dir small_system known_index false none 5000 (start_ctx known_index) []
    ≡ scan_dir small_system known_index false none path_max (start_ctx known_index) []
scan_dir-fuel_example =
    scan_dir-fuel small_system known_index false none 5000 (start_ctx known_index)
      small_system-IsTree (omega arith)
