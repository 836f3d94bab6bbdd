-- ===== src/Query/TableShard.antt =====
-- crates/query/src/managers/single/table_shard.rs: `TableShard`, for any kind of index. The map of
-- indexes is a list of names and indexes, which the callbacks of the temporary shards change. The
-- main shard and the target of the temporary shards are one shared object: the two fields agree.
use schema_js.Prelude.{List}
use schema_js.DataShard.Ops.{DataShard}
use schema_js.DataShard.Config.{DataShardConfig}
use schema_js.MapShard.Ops.{MapShard}
use schema_js.TempShard.Collection.{TempCollection}
use schema_js.Primitives.Column.{Text}
use schema_js.Primitives.Table.{Table}

pub record TableShard (Uuid I : Type 0) : Type 0 where
  pub table : Table
  pub shard_data : MapShard (DataShard Uuid) DataShardConfig
  pub temps : TempCollection (DataShard Uuid) DataShardConfig (List (Text × I))
  pub indexes : List (Text × I)
