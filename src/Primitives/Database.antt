-- ===== src/Primitives/Database.antt =====
-- crates/primitives/src/database.rs and collection.rs. The hash map of tables is a list.
use schema_js.Prelude.{List, [], ◌∷◌, ◌++◌}
use schema_js.MapShard.Ops.{index_map_insert}
use schema_js.Primitives.Column.{Text}
use schema_js.Primitives.Table.{Table}

pub record Database : Type 0 where
  pub name : Text
  pub tables : List (Text × Table)

abbrev pub new_database : Text → Database
new_database name = record { name = name; tables = [] }

abbrev pub add_table : Database → Table → Database
add_table db table = record db { tables = index_map_insert table.name table db.tables }

pub record Collection : Type 0 where
  pub dbs : List Database

abbrev pub new_collection : Collection
new_collection = record { dbs = [] }

abbrev pub add_database : Collection → Database → Collection
add_database collection database = record { dbs = collection.dbs ++ (database ∷ []) }
