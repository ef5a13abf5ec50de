-- ===== src/Collections.antt =====
-- crates/mapache/src/utils/collections: the program's own containers.
pub mod Maps
pub mod IndexSet
pub mod BloomFilter
pub mod DedupFilter
pub mod ShardedIdSet
pub mod Lru
mod Tests
