-- ===== src/Query/Open.antt =====
-- crates/query/src/managers/single/table_shard.rs: `TableShard::new` and `init`, for the hash indexes of
-- the program.
use schema_js.Prelude.{ℕ, List, [], ◌∷◌, ◌++◌, map, some, if◌then◌else◌}
use schema_js.Prelude.Results.{Result, ok, ◌>>=◌, unwrap}
use schema_js.Storage.Handler.{FileName}
use schema_js.Uuid.{UuidApi}
use schema_js.DataShard.Config.{TempDataShardConfig, to_config}
use schema_js.DataShard.Ops.{shard_ops}
use schema_js.MapShard.Ops.{World, index_map_insert}
use schema_js.MapShard.Open.{new_map_shard}
use schema_js.TempShard.Ops.{set_on_reconcile}
use schema_js.TempShard.Collection.{new_temp_collection}
use schema_js.Index.Hash.{HashIndex, IndexOps, new_from_path}
use schema_js.Primitives.Column.{Text}
use schema_js.Primitives.Table.{Index, Table}
use schema_js.Query.Errors.{QueryError}
use schema_js.Query.Search.{contains_text}
use schema_js.Query.Row.{Row}
use schema_js.Query.Rows.{insert_indexes}
use schema_js.Query.TableShard.{TableShard}
use schema_js.Primitives.Value.{ValueText}

-- `IndexTypeValue`; `as_index` is the one index that there is.
pub data IndexTypeValue (Uuid : Type 0) : Type 0 where
  hash : HashIndex Uuid → IndexTypeValue Uuid

abbrev pub as_index : {Uuid : Type 0} → IndexTypeValue Uuid → HashIndex Uuid
as_index (IndexTypeValue.hash indx) = indx

-- The trait `Index` of the value, through `as_index`.
abbrev pub value_ops : {Uuid : Type 0} → IndexOps (HashIndex Uuid) → IndexOps (IndexTypeValue Uuid)
value_ops ops = record {
  to_key = λ indx key. ops.to_key (as_index indx) key;
  bulk_insert =
      λ indx rows. ops.bulk_insert (as_index indx) rows >>= λ h. ok (IndexTypeValue.hash h);
  insert = λ indx key row. ops.insert (as_index indx) key row >>= λ h. ok (IndexTypeValue.hash h);
  get = λ indx key. ops.get (as_index indx) key;
  remove = λ indx key. ops.remove (as_index indx) key >>= λ p. ok (IndexTypeValue.hash p.0, p.1);
  supported_search_operators = λ indx. ops.supported_search_operators (as_index indx);
}

-- A folder: its files, what they hold, and the id that is drawn for a first shard of each name.
pub record Folder (Uuid : Type 0) : Type 0 where
  pub names : List FileName
  pub world : World Uuid
  pub id_of : Text → Uuid

-- `data_` and `temp_`
abbrev pub data_prefix : List ℕ
data_prefix = 100 ∷ 97 ∷ 116 ∷ 97 ∷ 95 ∷ []

abbrev pub temp_prefix : List ℕ
temp_prefix = 116 ∷ 101 ∷ 109 ∷ 112 ∷ 95 ∷ []

-- The file of a shard that was opened is in the folder.
abbrev pub with_file : FileName → List FileName → List FileName
with_file path names = if contains_text path names then names else names ++ (path ∷ [])

module _ {T Uuid Number : Type 0} ⦃u : UuidApi Uuid⦄ (print : ValueText Uuid Number)
    (rows : Row T Uuid Number) (index_ops : IndexOps (IndexTypeValue Uuid)) where
  -- The loop over the indexes of the table.
  unfoldable pub open_indexes :
      Folder Uuid
      → List FileName
      → List Index
      → List (Text × IndexTypeValue Uuid)
      → Result QueryError (List (Text × IndexTypeValue Uuid))
  open_indexes folder names [] indexes = ok indexes
  open_indexes folder names (index ∷ rest) indexes = do
    h ← unwrap (
        new_from_path folder.world names (some index.name) (some 10000000)
          (folder.id_of index.name))
    let path = h.index.shards.current_master_shard.path
    open_indexes folder (with_file path names) rest
        (index_map_insert index.name (IndexTypeValue.hash h) indexes)

  -- `init`: the callback of each temporary map shard puts the reconciled rows into the indexes.
  abbrev pub init_table_shard :
      TableShard Uuid (IndexTypeValue Uuid) → TableShard Uuid (IndexTypeValue Uuid)
  init_table_shard shard = record shard {
    temps = record shard.temps {
      temps =
          map
            (λ t. set_on_reconcile t (λ items indexes.
              unwrap (insert_indexes print rows index_ops shard.table indexes items)))
            shard.temps.temps;
    };
  }

  -- `TableShard::new`, in the folder of the table and the one of its indexes.
  unfoldable pub new_table_shard :
      Folder Uuid
      → Folder Uuid
      → Table
      → TempDataShardConfig
      → Result QueryError (TableShard Uuid (IndexTypeValue Uuid))
  new_table_shard table_folder index_folder table temp_config = do
    map_shard ← unwrap (
        new_map_shard shard_ops table_folder.world (record { max_offsets = some 2500000 })
          table_folder.names data_prefix (table_folder.id_of data_prefix))
    indexes ← open_indexes index_folder index_folder.names table.indexes []
    ok (
        init_table_shard (record {
          table = table;
          shard_data = map_shard;
          temps = new_temp_collection map_shard 5 temp_prefix (to_config temp_config);
          indexes = indexes;
        }))
