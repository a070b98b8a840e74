-- ===== src/Restore.antt =====
-- src/restore.c: extraction of snapshots.
pub mod PathSafe
pub mod Links
pub mod Plan
pub mod Extract
pub mod Contained
pub mod Early
pub mod Packs
pub mod Late
pub mod Order
pub mod Calls
pub mod Groups
pub mod Clean
pub mod Extracted
pub mod Marked
pub mod Ending
pub mod Complete
pub mod Refusal
pub mod Sorting
mod RunTests
mod Tests
