-- ===== src/Verify/Deep.antt =====
-- What the deep mode of `tp_verify` shows of a pack.
use tarpack.Verify.Archive.{IsDescribed, IsStored}
use tarpack.Prelude.{◌≡◌, some, List, All, Bytes}
use tarpack.Packer.PackManifest.{PackManifestEntry, pack_manifest_read}
use tarpack.Verify.{DeepArchive, Repo}

-- The archive and the manifest of a pack describe each other.
abbrev pub IsGood : Repo → Bytes → Type 0
IsGood r pack =
    (es : List PackManifestEntry) × (a : DeepArchive) × (pack_manifest_read (r.manifest_of pack)
      ≡ some es)
    × (r.archive_of pack ≡ some a)
    × All (IsDescribed r es) a.entries
    × All (IsStored a.entries) es
