-- ===== src/Manifest.antt =====
-- The entries of snapshot manifests (src/manifest.h).
use tarpack.Prelude.{ℕ, Option, Bytes}

pub data EntryType : Type 0 where
  header : EntryType
  dir : EntryType
  file : EntryType
  symlink : EntryType

-- What an entry records of the owner, the mode and the times. An access time that is absent
-- (`TP_TIME_ABSENT`) is `none`; the times of creation and change are not set on Linux.
pub record Meta : Type 0 where
  pub uid : ℕ
  pub gid : ℕ
  pub mode_perm : ℕ
  pub mtime_sec : ℕ
  pub mtime_nsec : ℕ
  pub atime : Option (ℕ × ℕ)

-- `struct tp_manifest_entry`, the fields that packing and restoring read.
pub record ManifestEntry : Type 0 where
  pub type : EntryType
  pub root : Option Bytes
  pub object_id : Option Bytes
  pub path : Bytes
  pub size : ℕ
  pub target : Bytes
  pub meta : Meta
