-- ===== src/Index.antt =====
-- crates/index/src: the entries and keys of indices.
pub mod Unit
pub mod Entry
pub mod Keys
pub mod Utf8
pub mod Types
pub mod Shard
pub mod Hash
