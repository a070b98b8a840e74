-- ===== src/Index.antt =====
-- src/index.c: the object index.
pub mod Load
pub mod Suffix
pub mod NextId
use tarpack.Prelude.{ℕ, Bytes}

-- `struct tp_index_entry`
pub record IndexEntry : Type 0 where
  pub object_id : Bytes
  pub pack : Bytes
  pub offset : ℕ
  pub size : ℕ
  pub sha256_hex : Bytes
  pub path : Bytes
  pub mtime_sec : ℕ
  pub mtime_nsec : ℕ
