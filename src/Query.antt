-- ===== src/Query.antt =====
-- crates/query/src: queries and their evaluation with the indices of a table.
pub mod Errors
pub mod Ops
pub mod TableShard
pub mod Row
pub mod RowJson
pub mod Borsh
pub mod Rows
pub mod Open
pub mod Manager
pub mod Stored
pub mod Search
