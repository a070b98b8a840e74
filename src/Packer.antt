-- ===== src/Packer.antt =====
-- src/packer.c and src/packer.h: the pack writer.
pub mod Size
pub mod Bins
pub mod Names
pub mod Ordering
pub mod Pipeline
pub mod Recovery
pub mod Commit
pub mod PackManifest
