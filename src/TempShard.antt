-- ===== src/TempShard.antt =====
-- crates/data/src/shard: temporary shards in front of a map shard.
pub mod Ops
pub mod Collection
pub mod Insert
pub mod Moves
pub mod Reconcile
pub mod Whole
pub mod Full
pub mod Turns
