-- ===== src/Primitives.antt =====
-- crates/primitives/src: tables, columns and values.
pub mod Column
pub mod Table
pub mod Value
pub mod Json
pub mod Database
