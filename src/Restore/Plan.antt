-- ===== src/Restore/Plan.antt =====
-- The data of `tp_restore` (src/restore.c), which Restore/Extract takes as the list of the calls that
-- it makes on the destination, in their order. What a call returns, what the archives hold, the hashes
-- and the order of `qsort` are parameters. Numbers are natural; allocations succeed and paths fit
-- their buffers.
use tarpack.Index.{IndexEntry}
use tarpack.Manifest.{EntryType, ManifestEntry, Meta}
use tarpack.Restore.Links.{LinkGroup}
use tarpack.Restore.PathSafe.{slash, path_safe}
use tarpack.Prelude.{
  ℕ, Bool, true, false, ◌&&◌, Option, none, some, List, [], ◌∷◌, ◌++◌, if◌then◌else◌, Bytes,
  c_string,
}

pub data Op : Type 0 where
  mkdir_p : Bytes → Op
  mkdir : Bytes → ℕ → Op
  mkdir_parents : Bytes → Op
  create : Bytes → Op
  write : Bytes → Bytes → Op
  link : Bytes → Bytes → Op
  symlink : Bytes → Bytes → Op
  chmod : Bytes → ℕ → Op
  chown : Bytes → ℕ → ℕ → Op
  lchown : Bytes → ℕ → ℕ → Op
  set_times : Bytes → Meta → Op

-- What `mkdir` and `open` return: success, the name exists, its directory does not, or another
-- failure.
pub data Rc : Type 0 where
  ok : Rc
  exists : Rc
  no_parent : Rc
  failed : Rc

-- What `archive_read_data` gives of an entry: the bytes up to its end or to a read error.
pub record EntryData : Type 0 where
  pub bytes : Bytes
  pub complete : Bool

-- `archive_read_next_header` and `archive_read_data` on one entry.
pub record ArchiveEntry : Type 0 where
  pub pathname : Option Bytes
  pub data_of : EntryData

pub record DirMeta : Type 0 where
  pub path : Bytes
  pub meta : Meta

pub record SymMeta : Type 0 where
  pub path : Bytes
  pub target : Bytes
  pub meta : Meta

-- `struct needed_obj`
pub record NeededObj : Type 0 where
  pub group : LinkGroup
  pub ie : IndexEntry
  pub written : Bool

-- The system and the libraries. `rc` is what a call returns behind the calls that were made before
-- it; `archive` has the entries up to the end of the archive or an error; the last two are `qsort`
-- with `needed_obj_cmp` and with `dir_meta_cmp`.
pub record System : Type 0 where
  pub rc : List Op → Op → Rc
  pub is_root : Bool
  pub archive : Bytes → Option (List ArchiveEntry)
  pub sha256 : Bytes → Bytes
  pub sort_needed : List NeededObj → List NeededObj
  pub sort_dirs : List DirMeta → List DirMeta

-- The calls so far, whether there was a warning, and whether the run goes on.
pub record Run : Type 0 where
  pub ops : List Op
  pub warned : Bool
  pub alive : Bool

abbrev pub succeeded : Rc → Bool
succeeded Rc.ok = true
succeeded _ = false

abbrev pub call : Run → Op → Run
call r op = record r { ops = r.ops ++ op ∷ [] }

abbrev pub warn : Run → Run
warn r = record r { warned = true }

abbrev pub die : Run → Run
die r = record r { alive = false }

-- `goto fatal` skips what follows.
abbrev pub next : Run → (Run → Run) → Run
next r f = if r.alive then f r else r

-- A call whose failure is a warning.
unfoldable pub try : System → Run → Op → Run
try s r op = if succeeded (s.rc r.ops op) then call r op else warn (call r op)

-- `join_path`, as the calls read it.
unfoldable pub dest_path : Bytes → Bytes → Bytes
dest_path dest rel = c_string (dest ++ slash ∷ rel)

-- `tree_cb`, for an entry of type `type`.
abbrev pub add_dir : EntryType → ManifestEntry → List DirMeta → List DirMeta
add_dir EntryType.dir e rest = record { path = e.path; meta = e.meta } ∷ rest
add_dir _ e rest = rest

abbrev pub add_sym : EntryType → ManifestEntry → List SymMeta → List SymMeta
add_sym EntryType.symlink e rest = record { path = e.path; target = e.target; meta = e.meta } ∷ rest
add_sym _ e rest = rest

unfoldable pub dirs_of : List ManifestEntry → List DirMeta
dirs_of [] = []
dirs_of (e ∷ es) = add_dir e.type e (dirs_of es)

unfoldable pub syms_of : List ManifestEntry → List SymMeta
syms_of [] = []
syms_of (e ∷ es) = add_sym e.type e (syms_of es)

-- The test of every path.
unfoldable pub refs_safe : List Bytes → Bool
refs_safe [] = true
refs_safe (p ∷ ps) = path_safe p && refs_safe ps

unfoldable pub groups_safe : List LinkGroup → Bool
groups_safe [] = true
groups_safe (g ∷ groups) = refs_safe (g.first ∷ g.others) && groups_safe groups

unfoldable pub dirs_safe : List DirMeta → Bool
dirs_safe [] = true
dirs_safe (d ∷ dirs) = path_safe d.path && dirs_safe dirs

unfoldable pub syms_safe : List SymMeta → Bool
syms_safe [] = true
syms_safe (y ∷ syms) = path_safe y.path && syms_safe syms

abbrev pub needed_with :
    LinkGroup → Option IndexEntry → Option (List NeededObj) → Option (List NeededObj)
needed_with g none rest = none
needed_with g (some ie) none = none
needed_with g (some ie) (some rest) = some (record { group = g; ie = ie; written = false } ∷ rest)

-- Every object through the index; none if one is missing.
unfoldable pub resolve : (Bytes → Option IndexEntry) → List LinkGroup → Option (List NeededObj)
resolve find [] = some []
resolve find (g ∷ groups) = needed_with g (find g.object_id) (resolve find groups)
