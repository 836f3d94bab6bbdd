-- ===== src/Query/Manager.antt =====
-- crates/query/src/managers/single/mod.rs: `SingleQueryManager`, and `QuerySearchManager::search` of
-- crates/query/src/search/search_manager.rs. The hash map of tables is a list.
use schema_js.Prelude.{ℕ, List, [], ◌∷◌, ◌++◌, Option, none, some}
use schema_js.Prelude.Results.{Result, ok, err, panic, ◌>>=◌, unwrap, map_err}
use schema_js.Prelude.Bytes.{Bytes}
use schema_js.Shard.Errors.{ShardErrors}
use schema_js.Uuid.{UuidApi}
use schema_js.DataShard.Ops.{DataShard, shard_ops}
use schema_js.DataShard.Config.{DataShardConfig, TempOffsetTypes}
use schema_js.MapShard.Ops.{World, index_map_insert, get_element}
use schema_js.TempShard.Collection
use schema_js.TempShard.Collection.{TempCollection}
use schema_js.Index.Hash.{IndexOps}
use schema_js.Primitives.Column.{Text}
use schema_js.Primitives.Table.{Table, lookup, get_internal_uid}
use schema_js.Primitives.Value.{DataValue, ValueText}
use schema_js.Query.Errors.{QueryError}
use schema_js.Query.Ops.{QueryOps}
use schema_js.Query.Row.{Row, RowSerializationError}
use schema_js.Query.TableShard.{TableShard}
use schema_js.Query.Open.{Folder, IndexTypeValue, new_table_shard}
use schema_js.Query.Search.{execute_query}

pub record SingleQueryManager (Uuid : Type 0) : Type 0 where
  pub table_names : List Text
  pub tables : List (Text × TableShard Uuid (IndexTypeValue Uuid))
  pub scheme : Text
  pub id : Uuid

abbrev pub new_manager : {Uuid : Type 0} → Text → Uuid → SingleQueryManager Uuid
new_manager scheme uuid = record { table_names = []; tables = []; scheme = scheme; id = uuid }

-- The conversion of errors by `?`.
abbrev pub from_shard : {A : Type 0} → Result ShardErrors A → Result QueryError A
from_shard r = map_err QueryError.shard_error r

abbrev pub as_uuid : {Uuid Number : Type 0} → DataValue Uuid Number → Result QueryError Uuid
as_uuid (DataValue.uuid id) = ok id
as_uuid _ = panic

-- The shared map shard and the indexes are those that the temporary shards leave behind.
abbrev pub table_after :
    {Uuid I : Type 0}
    → TableShard Uuid I
    → TempCollection (DataShard Uuid) DataShardConfig (List (Text × I))
    → List (Text × I)
    → TableShard Uuid I
table_after shard temps' indexes' = record shard {
  shard_data = temps'.target_shard;
  temps = temps';
  indexes = indexes';
}

-- The manager after an insertion, with what the insertion returns.
abbrev pub kept :
    {Uuid Number : Type 0}
    → SingleQueryManager Uuid
    → Text
    → TableShard Uuid (IndexTypeValue Uuid)
    → DataValue Uuid Number
    → (TempCollection (DataShard Uuid) DataShardConfig (List (Text × IndexTypeValue Uuid))
        × List (Text × IndexTypeValue Uuid))
      × Result ShardErrors ℕ
    → Result QueryError (SingleQueryManager Uuid × Result QueryError Uuid)
kept manager name shard uid ((temps', indexes'), inserted) =
    let manager' = record manager {
      tables = index_map_insert name (table_after shard temps' indexes') manager.tables;
    } in
    elim inserted [
      | ok position ↦ (as_uuid uid >>= λ id. ok (manager', ok id))
      | err e ↦ ok (manager', err (QueryError.shard_error e))
      | panic ↦ panic
    ]

module _ {T Uuid Number : Type 0} ⦃u : UuidApi Uuid⦄ where
  -- `register_table`, with the folders of the table; temporary shards hold 1000 rows.
  unfoldable pub register_table :
      ValueText Uuid Number
      → Row T Uuid Number
      → IndexOps (IndexTypeValue Uuid)
      → SingleQueryManager Uuid
      → Folder Uuid
      → Folder Uuid
      → Table
      → Result QueryError (SingleQueryManager Uuid)
  register_table print rows index_ops manager table_folder index_folder table =
      (new_table_shard print rows index_ops table_folder index_folder table
          (record { max_offsets = TempOffsetTypes.custom (some 1000) })
        >>= λ shard. ok (record manager {
          table_names = manager.table_names ++ (table.name ∷ []);
          tables = index_map_insert table.name shard manager.tables;
        }))

  module _ (w : World Uuid) (rows : Row T Uuid Number) where
    -- The insertion of a row with its id, once it is written as bytes.
    abbrev pub insert_bytes :
        SingleQueryManager Uuid
        → Text
        → TableShard Uuid (IndexTypeValue Uuid)
        → DataValue Uuid Number
        → Uuid
        → Uuid
        → Result RowSerializationError Bytes
        → Result QueryError (SingleQueryManager Uuid × Result QueryError Uuid)
    insert_bytes manager name shard uid name_id own_id (ok bytes) =
        (unwrap (Collection.insert shard_ops w shard.temps shard.indexes name_id own_id bytes)
          >>= kept manager name shard uid)
    insert_bytes manager name shard uid name_id own_id (err e) =
        ok (manager, err QueryError.invalid_serialization)
    insert_bytes manager name shard uid name_id own_id panic = panic

    abbrev pub insert_with :
        SingleQueryManager Uuid
        → T
        → Text
        → TableShard Uuid (IndexTypeValue Uuid)
        → Uuid
        → Uuid
        → Option (DataValue Uuid Number)
        → Result QueryError (SingleQueryManager Uuid × Result QueryError Uuid)
    insert_with manager row name shard name_id own_id none =
        ok (manager, err QueryError.unknown_uid)
    insert_with manager row name shard name_id own_id (some uid) =
        insert_bytes manager name shard uid name_id own_id (rows.serialize row)

    -- `insert`; an error leaves the manager as it is, unless a shard refuses the row.
    unfoldable pub insert :
        SingleQueryManager Uuid
        → T
        → Uuid
        → Uuid
        → Result QueryError (SingleQueryManager Uuid × Result QueryError Uuid)
    insert manager row name_id own_id = elim (lookup (rows.get_table_name row) manager.tables) [
      | none ↦ ok (manager, err (QueryError.invalid_table (rows.get_table_name row)))
      | some shard ↦
          (rows.get_value row get_internal_uid
            >>= insert_with manager row (rows.get_table_name row) shard name_id own_id)
    ]

module _ {T Uuid Number : Type 0} (rows : Row T Uuid Number) ⦃u : UuidApi Uuid⦄
    (print : ValueText Uuid Number) (index_ops : IndexOps (IndexTypeValue Uuid)) where
  -- The loop over the pointers.
  unfoldable pub rows_at :
      TableShard Uuid (IndexTypeValue Uuid) → List ℕ → Result QueryError (List T)
  rows_at shard [] = ok []
  rows_at shard (pointer ∷ pointers) = do
    bytes ← unwrap (get_element shard_ops shard.shard_data pointer)
    row ← rows.from_bytes bytes
    rest ← rows_at shard pointers
    ok (row ∷ rest)

  -- `QuerySearchManager::search`
  unfoldable pub search_rows :
      List (Text × TableShard Uuid (IndexTypeValue Uuid))
      → Text
      → QueryOps Uuid Number
      → Result QueryError (List T)
  search_rows table_shards table_name query = elim (lookup table_name table_shards) [
    | none ↦ err (QueryError.invalid_table table_name)
    | some shard ↦ (unwrap (execute_query print index_ops shard query) >>= rows_at shard)
  ]
