-- ===== src/KvShard.antt =====
-- crates/data/src/shard/shards/kv: entries of one size behind a header of 40 bytes.
pub mod Header
pub mod Ops
pub mod Layout
pub mod Read
pub mod Insert
pub mod Open
pub mod Laws
pub mod InMap
pub mod Swap
