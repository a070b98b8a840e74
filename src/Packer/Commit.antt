-- ===== src/Packer/Commit.antt =====
-- `write_one_pack_and_commit` and the loop of `tp_pack_multi` that calls it (src/packer.c), with
-- what a crash leaves of them: the effects on the repository's files are a list, in order, and a
-- crash happens behind any number of them. Bytes that are appended to a file get there one by one.
-- The functions of libarchive, cJSON and SHA-256, and which calls of the system fail, are
-- parameters; buffers for paths are large enough.
mod Lines
pub mod Effects
pub mod Crash
pub mod Phases
pub mod Append
pub mod Pack
pub mod Recovery
pub mod Sessions
pub mod Durable
pub mod Done
pub mod Success
mod Tests
use tarpack.Checksum.{checksums_append, rewrite_checksums_filtered}
use tarpack.Index.{IndexEntry}
use tarpack.Packer.Names.{after_prefix, next_pack_number, pack_name, ulong_mod}
use tarpack.Packer.Recovery.{repair_index_tail}
use tarpack.Packer.Recovery.Sweep.{has, add, unlink_all, collect_indexed_packs, sweep}
use tarpack.Prelude.{
  ◌>>=◌, ℕ, ◌+◌, ◌%◌, Bool, true, false, ◌&&◌, ◌||◌, not, Option, none, some, List, [], ◌∷◌, ◌++◌,
  map, if◌then◌else◌, take, Bytes, codes, ◌==◌, str_eq,
}

-- The names in packs/, objects/objects.jsonl and checksums/SHA256SUMS.
pub record Repo : Type 0 where
  pub packs : List Bytes
  pub index : Option Bytes
  pub sums : Option Bytes

pub data Effect : Type 0 where
  create : Bytes → Effect
  move : Bytes → Bytes → Effect
  remove : Bytes → Effect
  touch_sums : Effect
  put_sums : ℕ → Effect
  touch_index : Effect
  put_index : ℕ → Effect

abbrev pub content : Option Bytes → Bytes
content none = []
content (some s) = s

unfoldable pub apply : Repo → Effect → Repo
apply r (Effect.create x) = record r { packs = add r.packs x }
apply r (Effect.move x y) = record r { packs = add (unlink_all (x ∷ []) r.packs) y }
apply r (Effect.remove x) = record r { packs = unlink_all (x ∷ []) r.packs }
apply r Effect.touch_sums = record r { sums = some (content r.sums) }
apply r (Effect.put_sums b) = record r { sums = some (content r.sums ++ b ∷ []) }
apply r Effect.touch_index = record r { index = some (content r.index) }
apply r (Effect.put_index b) = record r { index = some (content r.index ++ b ∷ []) }

unfoldable pub run : Repo → List Effect → Repo
run r [] = r
run r (e ∷ es) = run (apply r e) es

-- The effects of a step, then those of the next one unless the step has failed.
unfoldable pub and_then : List Effect × Bool → List Effect × Option Bool → List Effect × Option Bool
and_then (es, ok) (fs, rc) = if ok then (es ++ fs, rc) else (es, none)

abbrev pub part_of : Bytes → Bytes
part_of name = name ++ codes ".part"

-- How `write_file_atomic` ends: the scratch file cannot be opened, it cannot be written, synced or
-- renamed, or all is well.
pub data Write : Type 0 where
  unopened : Write
  unwritten : Write
  written : Write

unfoldable pub write_file_atomic : Write → Bytes → List Effect × Bool
write_file_atomic Write.unopened path = ([], false)
write_file_atomic Write.unwritten path =
    (Effect.create (part_of path) ∷ Effect.remove (part_of path) ∷ [], false)
write_file_atomic Write.written path =
    (Effect.create (part_of path) ∷ Effect.move (part_of path) path ∷ [], true)

-- What the calls return that write the archive; `results` has one for each object: `none` for -1,
-- and whether there was a warning.
pub record ArchiveCalls : Type 0 where
  pub opened : Bool
  pub results : List (Option Bool)
  pub closed : Bool
  pub synced : Bool
  pub renamed : Bool

-- The loop over the objects.
unfoldable pub pack_objects : List (Option Bool) → Option Bool
pack_objects [] = some false
pack_objects (none ∷ rest) = none
pack_objects (some warned ∷ rest) = do more ← pack_objects rest; some (warned || more)

unfoldable pub archive_step : ArchiveCalls → Bytes → List Effect × Bool
archive_step c path =
    let failed : List Effect × Bool =
      (Effect.create (part_of path) ∷ Effect.remove (part_of path) ∷ [], false) in
    let done : List Effect × Bool =
      (Effect.create (part_of path) ∷ Effect.move (part_of path) path ∷ [], true) in
    if not c.opened then ([], false) else (elim (pack_objects c.results) [
      | none ↦ failed
      | some warned ↦ if c.closed && (c.synced && c.renamed) then done else failed
    ])

-- Writing `bytes`, which fails behind `k` of them for `some k`.
abbrev pub put_all : Option ℕ → (ℕ → Effect) → Bytes → List Effect × Bool
put_all none effect bytes = (map effect bytes, true)
put_all (some k) effect bytes = (map effect (take k bytes), false)

-- The file is created, and the line is appended if it fits the buffer.
unfoldable pub put_sum : Option ℕ → Option Bytes → List Effect × Bool
put_sum stop none = (Effect.touch_sums ∷ [], false)
put_sum stop (some line) =
    let (es, ok) = put_all stop Effect.put_sums line in (Effect.touch_sums ∷ es, ok)

-- `tp_sha256_file` and `tp_checksums_append`
unfoldable pub sum_step : Option Bytes → Option ℕ → Bytes → List Effect × Bool
sum_step none stop path = ([], false)
sum_step (some hex) stop path =
    put_sum stop (checksums_append none (record { sha256_hex = hex; relpath = path }))

-- `struct tp_packed_object`, as the index reads it.
pub record CommitObject : Type 0 where
  pub object_id : Bytes
  pub offset : ℕ
  pub size : ℕ
  pub sha256_hex : Bytes
  pub path : Bytes
  pub mtime_sec : ℕ
  pub mtime_nsec : ℕ

unfoldable pub index_entries : Bytes → List CommitObject → List IndexEntry
index_entries name [] = []
index_entries name (o ∷ os) =
    record {
      object_id = o.object_id;
      pack = name;
      offset = o.offset;
      size = o.size;
      sha256_hex = o.sha256_hex;
      path = o.path;
      mtime_sec = o.mtime_sec;
      mtime_nsec = o.mtime_nsec;
    }
    ∷ index_entries name os

-- What the calls return that commit one pack; `none` for a sum or the index: all bytes are written.
pub record Calls : Type 0 where
  pub archive : ArchiveCalls
  pub manifest : Write
  pub archive_hash : Option Bytes
  pub archive_sum : Option ℕ
  pub manifest_hash : Option Bytes
  pub manifest_sum : Option ℕ
  pub index : Option ℕ

-- The effects of one pack, then those of the next ones unless it has failed.
abbrev pub followed_by :
    List Effect × Option Bool → List Effect × Option Bool → List Effect × Option Bool
followed_by (es, none) rest = (es, none)
followed_by (es, some warned) (fs, rc) = (es ++ fs, do more ← rc; some (warned || more))

-- `print` is `cJSON_PrintUnformatted` of the entry's object.
module _ (print : IndexEntry → Bytes) where
  unfoldable pub index_text : List IndexEntry → Bytes
  index_text [] = []
  index_text (e ∷ es) = print e ++ 10 ∷ index_text es

  -- `tp_index_append`
  unfoldable pub index_append : Option ℕ → List IndexEntry → List Effect × Bool
  index_append stop entries =
      let (es, ok) = put_all stop Effect.put_index (index_text entries) in
      (Effect.touch_index ∷ es, ok)

  unfoldable pub write_one_pack_and_commit :
      Calls → ℕ → List CommitObject → List Effect × Option Bool
  write_one_pack_and_commit c pack_num objects =
      let name = pack_name pack_num in
      let pack_path = name ++ codes ".tar.zst" in
      let manifest_path = name ++ codes ".json" in
      and_then (archive_step c.archive pack_path) (
        and_then (write_file_atomic c.manifest manifest_path) (
          and_then (sum_step c.archive_hash c.archive_sum (codes "packs/" ++ pack_path)) (
            and_then (sum_step c.manifest_hash c.manifest_sum (codes "packs/" ++ manifest_path)) (
              and_then (index_append c.index (index_entries name objects))
                ([], pack_objects c.archive.results)))))

  -- The loop that writes each bin, from the number `pack_num` on.
  unfoldable pub write_packs : ℕ → List (Calls × List CommitObject) → List Effect × Option Bool
  write_packs pack_num [] = ([], some false)
  write_packs pack_num ((c, objects) ∷ bins) =
      followed_by (write_one_pack_and_commit c pack_num objects)
        (write_packs ((pack_num + 1) % ulong_mod) bins)

unfoldable pub no_slash : Bytes → Bool
no_slash [] = true
no_slash (c ∷ s) = not (c == b'/') && no_slash s

-- A name in a directory, which is not empty, no dot entry and no path.
unfoldable pub is_file_name : Bytes → Bool
is_file_name name =
    no_slash name && not (str_eq name [] || (str_eq name (codes ".") || str_eq name (codes "..")))

-- `stat` of a path in the repository. `elsewhere` is for the paths that are not packs/ and a name, and
-- may depend on the names there.
unfoldable pub exists_in : (List Bytes → Bytes → Bool) → List Bytes → Bytes → Bool
exists_in elsewhere packs path = elim (after_prefix (codes "packs/") path) [
  | none ↦ elsewhere packs path
  | some name ↦ if is_file_name name then has packs name else elsewhere packs path
]

abbrev pub repaired : Option Bytes → Option Bytes
repaired none = none
repaired (some file) = some (repair_index_tail file)

abbrev pub recovered :
    List Bytes → Option Bytes → Option Bytes → Option (Option Bytes) → Repo × Bool
recovered packs index sums none = (record { packs = packs; index = index; sums = sums }, false)
recovered packs index sums (some kept_sums) =
    (record { packs = packs; index = index; sums = kept_sums }, true)

-- `repair_index_tail` and `recover_crashed_state`, and whether the run goes on.
unfoldable pub recover : (List Bytes → Bytes → Bool) → Repo → Repo × Bool
recover elsewhere r =
    let index = repaired r.index in
    let packs = sweep (collect_indexed_packs index) r.packs in
    recovered packs index r.sums (rewrite_checksums_filtered (exists_in elsewhere packs) r.sums)

-- A run of `tp_pack_multi` that ends or crashes behind `k` effects of the loop.
unfoldable pub session :
    (IndexEntry → Bytes)
    → (List Bytes → Bytes → Bool)
    → Repo
    → List (Calls × List CommitObject)
    → ℕ
    → Repo
session print elsewhere r bins k =
    let (start, ok) = recover elsewhere r in
    let effects = (write_packs print (next_pack_number (some start.packs)) bins).0 in
    if ok then run start (take k effects) else start

abbrev pub empty_repo : Repo
empty_repo = record { packs = []; index = none; sums = none }

-- The repositories that any number of runs leaves.
pub data Reach (print : IndexEntry → Bytes) (elsewhere : List Bytes → Bytes → Bool)
    : Repo → Type 0 where
  created : Reach print elsewhere empty_repo
  packed :
      (r : Repo) (bins : List (Calls × List CommitObject)) (k : ℕ)
      → Reach print elsewhere r
      → Reach print elsewhere (session print elsewhere r bins k)
