-- ===== src/Query/Stored.antt =====
-- An insertion through the manager, down to the file of a temporary shard.
use schema_js.Prelude.{
  ℕ, ◌+◌, ◌%◌, ◌^◌, ◌≡◌, refl, List, [], ◌∷◌, ◌++◌, false, some, length, get_elem?, get_elem?-lt,
  ◌==◌, arith,
}
use schema_js.Prelude.Results.{ok, ◌>>=◌}
use schema_js.Prelude.Bytes.{Bytes}
use schema_js.Uuid.{UuidApi}
use schema_js.DataShard.Config.{DataShardConfig}
use schema_js.DataShard.Ops.{DataShard, shard_ops}
use schema_js.DataShard.Laws.{HoldsData, SmallData, data_view, data_laws}
use schema_js.MapShard.Ops.{World, index_map_insert}
use schema_js.TempShard.Ops.{TempMapShard, set_at}
use schema_js.TempShard.Insert.{Room, insert_row-Room}
use schema_js.TempShard.Collection
use schema_js.TempShard.Collection.{TempCollection, get_next_shard, insert_into}
use schema_js.Primitives.Column.{Text}
use schema_js.Primitives.Table.{lookup, get_internal_uid}
use schema_js.Primitives.Value.{DataValue}
use schema_js.Query.Row.{Row}
use schema_js.Query.TableShard.{TableShard}
use schema_js.Query.Open.{IndexTypeValue}
use schema_js.Query.Manager.{
  SingleQueryManager, table_after, insert, insert_with, insert_bytes, kept,
}

-- The collection after a row went into a shard of the temporary map shard whose turn it was.
abbrev pub after_turn :
    {Uuid X : Type 0}
    → TempCollection (DataShard Uuid) DataShardConfig X
    → TempMapShard (DataShard Uuid) DataShardConfig X
    → List (DataShard Uuid)
    → TempCollection (DataShard Uuid) DataShardConfig X
after_turn c t shards = record c {
  counter = (c.counter + 1) % 2 ^ 64;
  temps = set_at c.temps (c.counter % length c.temps) (record t { temp_shards = shards });
}

module _ {Uuid X : Type 0} ⦃u : UuidApi Uuid⦄ (w : World Uuid) where
  -- The same insertion on the collection.
  pub insert_turn :
      (c : TempCollection (DataShard Uuid) DataShardConfig X) (x : X) (name_id own_id : Uuid)
      (row : Bytes) (t : TempMapShard (DataShard Uuid) DataShardConfig X)
      (before after : List (DataShard Uuid)) (k : ℕ) (items : List Bytes)
      → get_elem? c.temps (c.counter % length c.temps) ≡ some t
      → Room shard_ops data_view w t name_id before after k items
      → SmallData k (items ++ (row ∷ []))
      → (s' : DataShard Uuid) × (position : ℕ) × (Collection.insert shard_ops w c x name_id own_id
            row
          ≡ ok ((after_turn c t (before ++ (s' ∷ after)), x), ok position))
        × HoldsData k s' (items ++ (row ∷ []))
  unfolding Collection.insert get_next_shard
  insert_turn c x name_id own_id row t before after k items turn room small =
      let some_there : (length c.temps == 0) ≡ false =
        ground (arith, get_elem?-lt c.temps (c.counter % length c.temps) turn) in
      let (s', inserted, after_held) =
        insert_row-Room shard_ops data_view data_laws w t
          (record { parent_shard = c.target_shard; captured = x }) name_id own_id row before after k
          items room small in
      (
        s',
        (data_view {Uuid = Uuid}).returned (length (items ++ (row ∷ []))),
        rw (some_there, ◌>>=◌, turn, insert_into, inserted) refl,
        after_held,
      )

module _ {T Uuid Number : Type 0} ⦃u : UuidApi Uuid⦄ (w : World Uuid)
    (rows : Row T Uuid Number) where
  -- A row with an id, for a table that is registered, is written behind the rows of the first shard
  -- with space of the temporary map shard whose turn it is, or into a new one if there is none. The
  -- insertion returns the id of the row, the turn moves on, and the other shards, the indexes and
  -- the other tables do not change.
  pub insert-stored :
      (manager : SingleQueryManager Uuid) (row : T) (name_id own_id uid : Uuid) (bytes : Bytes)
      (shard : TableShard Uuid (IndexTypeValue Uuid))
      (t : TempMapShard (DataShard Uuid) DataShardConfig (List (Text × IndexTypeValue Uuid)))
      (before after : List (DataShard Uuid)) (k : ℕ) (items : List Bytes)
      → lookup (rows.get_table_name row) manager.tables ≡ some shard
      → rows.get_value row get_internal_uid ≡ ok (some (DataValue.uuid uid))
      → rows.serialize row ≡ ok bytes
      → get_elem? shard.temps.temps (shard.temps.counter % length shard.temps.temps) ≡ some t
      → Room shard_ops data_view w t name_id before after k items
      → SmallData k (items ++ (bytes ∷ []))
      → (s' : DataShard Uuid) × (insert w rows manager row name_id own_id
          ≡ ok (
            record manager {
              tables =
                  index_map_insert
                    (rows.get_table_name row)
                    (table_after shard
                      (after_turn shard.temps t (before ++ (s' ∷ after)))
                      shard.indexes)
                    manager.tables;
            },
            ok uid,
          ))
        × HoldsData k s' (items ++ (bytes ∷ []))
  unfolding insert
  insert-stored manager row name_id own_id uid bytes shard t before after k items table has_uid
        written turn room small =
      let (s', position, inserted, after_held) =
        insert_turn w shard.temps shard.indexes name_id own_id bytes t before after k items turn
          room small in
      (
        s',
        rw (insert, table, has_uid, ◌>>=◌, insert_with, written, insert_bytes, inserted, kept) refl,
        after_held,
      )
