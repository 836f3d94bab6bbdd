-- ===== src/Shard.antt =====
-- crates/data/src/shard/mod.rs and crates/data/src/errors.rs: the `Shard` trait and its types.
pub mod Errors
pub mod Trait
pub mod Laws
