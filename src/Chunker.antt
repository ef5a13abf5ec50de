-- ===== src/Chunker.antt =====
-- crates/chunker: content-defined chunking (FastCDC).
pub mod Tables
pub mod Config
pub mod Cut
pub mod Reader
pub mod Stream
mod Tests
