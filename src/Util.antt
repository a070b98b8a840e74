-- ===== src/Util.antt =====
-- src/util.c: the byte-level helpers of the manifests.
pub mod Base64
