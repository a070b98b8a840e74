-- ===== src/Restore/RunTests.antt =====
-- A run of `tp_restore`, and the applications of its theorems.
use tarpack.Restore.PathSafe.{path_safe, segments_ok}
use tarpack.Index.{IndexEntry}
use tarpack.Manifest.{EntryType, ManifestEntry}
use tarpack.Restore.Calls.{InPhases, restore-InPhases}
use tarpack.Restore.Extract.{
  make_dirs, content_ok, create_again, create_file, dirs_meta, extract_all, files_meta, fill_all,
  fill_empty, find_match, finish, link_groups, link_names, make_dir, make_dir_again, make_symlink,
  make_symlinks, own_and_time, pack_entry, pack_loop, passes, restore_one_pack, run_length,
  set_meta, some_left, stream_one_entry, write_data, create_tree, restore, restore_rc,
  deepest_first,
}
use tarpack.Restore.Groups.{paths_with, refs_of, collect_links-refs}
use tarpack.Restore.Links.{collect_links_type, link_file, find_or_add, add_ref, collect_links}
use tarpack.Restore.Order.{
  IsSystem, IsBelow, Ordered, deepest_first-Ordered, dir_le, needed_le, strcmp_le,
}
use tarpack.Restore.Plan.{
  groups_safe, refs_safe, dirs_safe, syms_safe, syms_of, resolve, dest_path, try, Rc, System,
  dirs_of,
}
use tarpack.Restore.Refusal.{entries_safe, restore-refuses}
use tarpack.Restore.Sorting.{sorted, insert, sorted-dirs, sorted-needed}
use tarpack.Restore.Complete.{IsComplete, restore-IsComplete}
use tarpack.Prelude.{
  c_string, ◌≡◌, refl, inl, false, Option, none, some, List, [], ◌∷◌, Bytes, codes, str_eq,
  if◌then◌else◌, true,
}
use Prim.Native.String.{String}

abbrev plain_entry : EntryType → String → ManifestEntry
plain_entry type path = record {
  type = type;
  root = none;
  object_id = some (codes "O1");
  path = codes path;
  size = 2;
  target = codes "a";
  meta = record { uid = 0; gid = 0; mode_perm = 493; mtime_sec = 0; mtime_nsec = 0; atime = none };
}

-- A directory with a file, a hard link to the file, and a symbolic link.
abbrev small_tree : List ManifestEntry
small_tree =
    plain_entry EntryType.dir "d"
    ∷ plain_entry EntryType.file "d/x"
    ∷ plain_entry EntryType.file "y"
    ∷ plain_entry EntryType.symlink "z"
    ∷ []

abbrev located : IndexEntry
located = record {
  object_id = codes "O1";
  pack = codes "pack-000001";
  offset = 512;
  size = 2;
  sha256_hex = [];
  path = codes "d/x";
  mtime_sec = 0;
  mtime_nsec = 0;
}

abbrev find_one : Bytes → Option IndexEntry
find_one id = if str_eq id (codes "O1") then some located else none

-- Every call succeeds.
abbrev quiet_system : System
quiet_system = record {
  rc = λ ops op. Rc.ok;
  is_root = false;
  archive = λ pack. some (
      record {
        pathname = some (codes "d/x");
        data_of = record { bytes = codes "hi"; complete = true };
      }
      ∷ []);
  sha256 = λ bytes. [];
  sort_needed = sorted needed_le;
  sort_dirs = sorted dir_le;
}

quiet_system-IsSystem : IsSystem quiet_system
quiet_system-IsSystem = record { needed_sort = sorted-needed; dirs_sort = sorted-dirs }

abbrev target_dir : Bytes
target_dir = codes "out"

restore-InPhases_example :
    InPhases target_dir (restore quiet_system target_dir (some small_tree) (some find_one))
restore-InPhases_example =
    restore-InPhases quiet_system target_dir (some small_tree) (some find_one) quiet_system-IsSystem

collect_links-refs_example :
    refs_of (codes "O1") (collect_links [] small_tree) ≡ paths_with (codes "O1") small_tree
collect_links-refs_example = collect_links-refs small_tree (codes "O1")

deepest_first-Ordered_example :
    Ordered (λ d e. ¬ IsBelow d e) (deepest_first quiet_system target_dir (dirs_of small_tree))
deepest_first-Ordered_example =
    deepest_first-Ordered quiet_system target_dir (dirs_of small_tree) quiet_system-IsSystem

abbrev bad_tree : List ManifestEntry
bad_tree = plain_entry EntryType.dir "../d" ∷ small_tree

restore-refuses_example :
    ((restore quiet_system target_dir (some bad_tree) (some find_one)).ops ≡ [])
    × (restore_rc (restore quiet_system target_dir (some bad_tree) (some find_one)) ≡ none)
restore-refuses_example =
    restore-refuses quiet_system target_dir bad_tree find_one
      (inl (unfold entries_safe path_safe segments_ok str_eq in refl))

clean_run :
    restore_rc (restore quiet_system target_dir (some small_tree) (some find_one)) ≡ some false
unfolding restore restore_rc collect_links dirs_of path_safe segments_ok str_eq c_string sorted
    insert dir_le needed_le strcmp_le make_dirs content_ok create_again create_file deepest_first
    dirs_meta extract_all files_meta fill_all fill_empty find_match finish link_groups link_names
    make_dir make_dir_again make_symlink make_symlinks own_and_time pack_entry pack_loop passes
    restore_one_pack run_length set_meta some_left stream_one_entry write_data create_tree
    groups_safe refs_safe dirs_safe syms_safe syms_of resolve dest_path try collect_links_type
    link_file find_or_add add_ref
clean_run = refl

restore-IsComplete_example :
    IsComplete quiet_system target_dir find_one small_tree
      (restore quiet_system target_dir (some small_tree) (some find_one)).ops
restore-IsComplete_example =
    restore-IsComplete quiet_system target_dir small_tree find_one quiet_system-IsSystem clean_run
