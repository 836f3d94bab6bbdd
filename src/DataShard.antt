-- ===== src/DataShard.antt =====
-- crates/data/src/shard/shards/data_shard: shards of items of any length behind a table of offsets.
pub mod Config
pub mod Header
pub mod Ops
pub mod Layout
pub mod Read
pub mod Unused
pub mod Loop
pub mod Insert
pub mod Open
pub mod Reopen
pub mod Laws
