-- ===== src/Index.antt =====
-- crates/mapache/src/repository/index.rs: where each blob lies.
pub mod BlobMap
pub mod State
pub mod AddPack
pub mod Validity
pub mod File
pub mod Master
pub mod Merge
pub mod History
mod Tests
