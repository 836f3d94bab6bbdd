-- ===== src/MapShard.antt =====
-- crates/data/src/shard/map_shard.rs: a row of shards behind one global index.
pub mod Names
pub mod Ops
pub mod Open
pub mod State
pub mod Steps
pub mod Grow
pub mod Bounds
pub mod Fill
pub mod Insert
pub mod Count
pub mod Start
pub mod Read
pub mod RoundTrip
