-- ===== src/Verify.antt =====
-- `tp_verify` (src/verify.c) as the value that it returns: `true` is its 1. The files of the
-- repository, SHA-256, the parsed pack manifests and what libarchive reads are parameters. The paths
-- that the code does not test fit their buffers; allocations succeed.
pub mod Listing
pub mod Sound
pub mod Archive
pub mod Deep
mod Tests
use tarpack.Packer.Recovery.Sweep.{pack_of_line}
use tarpack.Checksum.{LineEntry, checksums_read, path_max}
use tarpack.Index.Load.{Fields}
use tarpack.Prelude.{
  ◌>>=◌, ℕ, zero, suc, ◌+◌, ◌-◌, Bool, true, false, ◌&&◌, ◌||◌, not, Option, none, some, List, [],
  ◌∷◌, ◌++◌, ltb, leb, ◌==◌, if◌then◌else◌, length, take, drop, Bytes, codes, str_eq, lines,
}
use tarpack.Packer.PackManifest.{PackManifestEntry, pack_manifest_read}

-- What libarchive reports of an entry: `data_of` is none on a read error.
pub record DeepEntry : Type 0 where
  pub pathname : Option Bytes
  pub header_size : ℕ
  pub data_of : Option Bytes

-- An archive that can be opened: its entries, and whether they end with the archive's end.
pub record DeepArchive : Type 0 where
  pub entries : List DeepEntry
  pub at_end : Bool

-- `exists` and `content` are about paths below the repository, `names` are those in packs/. A file has
-- no content if it does not exist. `sums_readable` is false if SHA256SUMS cannot be opened for another
-- reason than that it does not exist.
pub record Repo : Type 0 where
  pub is_dir : Bool
  pub path_length : ℕ
  pub exists : Bytes → Bool
  pub content : Bytes → Option Bytes
  pub sums_readable : Bool
  pub names : Option (List Bytes)
  pub sha256_hex : Bytes → Bytes
  pub manifest_of : Bytes → Option (List Fields)
  pub archive_of : Bytes → Option DeepArchive

-- `list_dir_names`
unfoldable pub ends_in : Bytes → Bytes → Bool
ends_in suffix name =
    not (ltb (length name) (length suffix))
    && str_eq (drop (length name - length suffix) name) suffix

unfoldable pub list_names : Bytes → List Bytes → List Bytes
list_names suffix [] = []
list_names suffix (n ∷ ns) =
    let rest = list_names suffix ns in
    if str_eq n (codes ".") || str_eq n (codes "..")
    then rest
    else if ends_in suffix n
    then n ∷ rest
    else rest

abbrev pub list_dir_names : Bytes → Option (List Bytes) → List Bytes
list_dir_names suffix none = []
list_dir_names suffix (some ns) = list_names suffix ns

-- `str_in_array`
unfoldable pub str_in_array : Bytes → List Bytes → Bool
str_in_array s [] = false
str_in_array s (a ∷ arr) = str_eq s a || str_in_array s arr

unfoldable pub relpaths : List LineEntry → List Bytes
relpaths [] = []
relpaths (e ∷ es) = e.relpath ∷ relpaths es

module _ (r : Repo) where
  -- `tp_sha256_file`
  abbrev pub sha256_file : Option Bytes → Option Bytes
  sha256_file none = none
  sha256_file (some bytes) = some (r.sha256_hex bytes)

  abbrev pub hash_differs : Option Bytes → Bytes → Bool
  hash_differs none hex = true
  hash_differs (some h) hex = not (str_eq h hex)

  -- One line of SHA256SUMS.
  unfoldable pub line_fails : LineEntry → Bool
  line_fails e =
      leb path_max (r.path_length + 1 + length e.relpath)
      || (not (r.exists e.relpath) || hash_differs (sha256_file (r.content e.relpath)) e.sha256_hex)

  unfoldable pub lines_fail : List LineEntry → Bool
  lines_fail [] = false
  lines_fail (e ∷ es) = line_fails e || lines_fail es

  -- `verify_packs_vs_checksums`
  unfoldable pub names_unlisted : List Bytes → List Bytes → Bool
  names_unlisted listed [] = false
  names_unlisted listed (n ∷ ns) =
      not (str_in_array (codes "packs/" ++ n) listed) || names_unlisted listed ns

  unfoldable pub packs_vs_checksums : List Bytes → Bool
  packs_vs_checksums listed =
      names_unlisted listed (list_dir_names (codes ".tar.zst") r.names)
      || names_unlisted listed (list_dir_names (codes ".json") r.names)

  abbrev pub archive_path : Bytes → Bytes
  archive_path pack = codes "packs/" ++ (pack ++ codes ".tar.zst")

  -- `verify_index_vs_packs`
  abbrev pub pack_missing : Option Bytes → Bool
  pack_missing none = false
  pack_missing (some pack) = not (r.exists (archive_path pack))

  unfoldable pub packs_missing : List Bytes → Bool
  packs_missing [] = false
  packs_missing (l ∷ ls) = pack_missing (pack_of_line l) || packs_missing ls

  abbrev pub index_vs_packs : Option Bytes → Bool
  index_vs_packs none = false
  index_vs_packs (some file) = packs_missing (lines file)

  -- The size and the hash of an entry's data.
  abbrev pub data_fails : PackManifestEntry → ℕ → Option Bytes → Bool
  data_fails me header_size none = true
  data_fails me header_size (some bytes) =
      not (length bytes == me.size && header_size == me.size)
      || not (str_eq (r.sha256_hex bytes) me.sha256_hex)

  -- `find_manifest_entry`
  unfoldable pub find_manifest_entry : List PackManifestEntry → Bytes → Option PackManifestEntry
  find_manifest_entry [] pathname = none
  find_manifest_entry (e ∷ es) pathname =
      let rest = find_manifest_entry es pathname in if str_eq e.path pathname then some e else rest

  abbrev pub found_fails : Option PackManifestEntry → DeepEntry → Bool
  found_fails none a = true
  found_fails (some me) a = data_fails me a.header_size a.data_of

  abbrev pub named_fails : List PackManifestEntry → DeepEntry → Option Bytes → Bool
  named_fails es a none = true
  named_fails es a (some pathname) = found_fails (find_manifest_entry es pathname) a

  -- One header of the archive.
  unfoldable pub entry_fails : List PackManifestEntry → DeepEntry → Bool
  entry_fails es a = named_fails es a a.pathname

  unfoldable pub entries_fail : List PackManifestEntry → List DeepEntry → Bool
  entries_fail es [] = false
  entries_fail es (a ∷ found) = entry_fails es a || entries_fail es found

  -- The path of an entry that the manifest has.
  abbrev pub matched : List PackManifestEntry → Option Bytes → Option Bytes
  matched es none = none
  matched es (some pathname) = do me ← find_manifest_entry es pathname; some pathname

  abbrev pub seen_step : Option Bytes → List Bytes → List Bytes → List Bytes
  seen_step none same later = same
  seen_step (some pathname) same later = pathname ∷ later

  -- `seen_paths`, which has room for `room` paths.
  unfoldable pub seen_paths : List PackManifestEntry → ℕ → List DeepEntry → List Bytes
  seen_paths es room [] = []
  seen_paths es zero (a ∷ found) = []
  seen_paths es (suc room) (a ∷ found) =
      seen_step (matched es a.pathname) (seen_paths es (suc room) found) (seen_paths es room found)

  unfoldable pub some_unseen : List PackManifestEntry → List Bytes → Bool
  some_unseen [] seen = false
  some_unseen (e ∷ es) seen = not (str_in_array e.path seen) || some_unseen es seen

  abbrev pub archive_fails : List PackManifestEntry → Option DeepArchive → Bool
  archive_fails es none = true
  archive_fails es (some a) =
      entries_fail es a.entries
      || (not a.at_end || some_unseen es (seen_paths es (length es) a.entries))

  abbrev pub pack_fails : Option (List PackManifestEntry) → Bytes → Bool
  pack_fails none pack = true
  pack_fails (some es) pack = archive_fails es (r.archive_of pack)

  -- `verify_one_pack_objects`
  unfoldable pub verify_one_pack_objects : Bytes → Bool
  verify_one_pack_objects pack = pack_fails (pack_manifest_read (r.manifest_of pack)) pack

  -- `verify_all_packs_objects`
  unfoldable pub packs_fail : List Bytes → Bool
  packs_fail [] = false
  packs_fail (n ∷ ns) =
      let pack = take (length n - 8) n in
      let rest = packs_fail ns in
      if leb (length n) 8 || leb 64 (length pack)
      then rest
      else verify_one_pack_objects pack || rest

  unfoldable pub verify_all_packs_objects : Bool
  verify_all_packs_objects = packs_fail (list_dir_names (codes ".tar.zst") r.names)

  -- The sums that could be read: none fails, and lists nothing.
  abbrev pub checksums_fail : Option (List LineEntry) → Bool
  checksums_fail none = true
  checksums_fail (some es) = lines_fail es

  abbrev pub listed_relpaths : Option (List LineEntry) → List Bytes
  listed_relpaths none = []
  listed_relpaths (some es) = relpaths es

  -- `tp_verify`
  unfoldable pub verify : Bool → Bool
  verify deep =
      let sums = checksums_read (r.content (codes "checksums/SHA256SUMS")) in
      not r.is_dir
      || (not r.sums_readable
          || (checksums_fail sums
              || (packs_vs_checksums (listed_relpaths sums)
                  || (index_vs_packs (r.content (codes "objects/objects.jsonl"))
                      || (deep && verify_all_packs_objects)))))
