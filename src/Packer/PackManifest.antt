-- ===== src/Packer/PackManifest.antt =====
-- `tp_pack_manifest_read` (src/packer.c), over the JSON values that cJSON's parser, a parameter, makes
-- of the file: none is a file that cannot be read or parsed, or has no array "entries".
use tarpack.Index.Load.{Fields}
use tarpack.Prelude.{◌>>=◌, ℕ, Option, none, some, List, [], ◌∷◌, take, Bytes, codes}
use tarpack.Util.Base64.{b64_decode}

-- `struct tp_pack_manifest_entry`
pub record PackManifestEntry : Type 0 where
  pub object_id : Bytes
  pub path : Bytes
  pub offset : ℕ
  pub size : ℕ
  pub sha256_hex : Bytes

abbrev pub manifest_path : Option Bytes → Option Bytes → Option Bytes
manifest_path (some path) b64 = some path
manifest_path none (some b64) = b64_decode b64
manifest_path none none = none

unfoldable pub manifest_entry : Fields → Option PackManifestEntry
manifest_entry f = do
  id ← f.string (codes "object_id")
  offset ← f.number (codes "offset")
  size ← f.number (codes "size")
  sha ← f.string (codes "sha256")
  path ← manifest_path (f.string (codes "path")) (f.string (codes "path_b64"))
  some (record {
    object_id = id;
    path = path;
    offset = offset;
    size = size;
    sha256_hex = take 64 sha;
  })

unfoldable pub manifest_entries : List Fields → Option (List PackManifestEntry)
manifest_entries [] = some []
manifest_entries (f ∷ fs) = do e ← manifest_entry f; es ← manifest_entries fs; some (e ∷ es)

-- `tp_pack_manifest_read`, the entries.
unfoldable pub pack_manifest_read : Option (List Fields) → Option (List PackManifestEntry)
pack_manifest_read none = none
pack_manifest_read (some fs) = manifest_entries fs
