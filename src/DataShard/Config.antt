-- ===== src/DataShard/Config.antt =====
-- crates/data/src/shard/shards/data_shard/config.rs and crates/data/src/temp_offset_types.rs.
use schema_js.Prelude.{ℕ, Option, some}

pub record DataShardConfig : Type 0 where
  pub max_offsets : Option ℕ

pub data TempOffsetTypes : Type 0 where
  wal_based : TempOffsetTypes
  custom : Option ℕ → TempOffsetTypes

pub get_real_offset : TempOffsetTypes → Option ℕ
get_real_offset TempOffsetTypes.wal_based = some 1
get_real_offset (TempOffsetTypes.custom v) = v

pub record TempDataShardConfig : Type 0 where
  pub max_offsets : TempOffsetTypes

unfoldable pub to_config : TempDataShardConfig → DataShardConfig
unfolding get_real_offset
to_config c = record { max_offsets = get_real_offset c.max_offsets }
