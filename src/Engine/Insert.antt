-- ===== src/Engine/Insert.antt =====
-- crates/engine/src/ops/insert.rs: the operation that inserts a row of the runtime.
use schema_js.Prelude.{
  ℕ, ◌%◌, ◌≡◌, refl, ap, List, [], ◌∷◌, ◌++◌, true, false, none, some, length, get_elem?,
  if◌then◌else◌, sym, Bool-cases, inl, inr,
}
use schema_js.Prelude.Results.{Result, ok, err, ◌>>=◌, expect_some}
use schema_js.Prelude.Bytes.{Bytes}
use schema_js.Uuid.{UuidApi}
use schema_js.DataShard.Config.{DataShardConfig}
use schema_js.DataShard.Ops.{DataShard, shard_ops}
use schema_js.DataShard.Laws.{HoldsData, SmallData, data_view}
use schema_js.TempShard.Insert.{Room}
use schema_js.MapShard.Ops.{World, text_eq, index_map_insert}
use schema_js.TempShard.Ops.{TempMapShard}
use schema_js.Primitives.Column.{Text}
use schema_js.Primitives.Json.{JsonApi, JsonLaws, from_column_value}
use schema_js.Primitives.Table.{lookup, uid_name, get_internal_uid}
use schema_js.Primitives.Value.{DataValue}
use schema_js.Query.Errors.{QueryError}
use schema_js.Query.Manager
use schema_js.Query.Manager.{SingleQueryManager, table_after}
use schema_js.Query.Open.{IndexTypeValue}
use schema_js.Query.Stored.{after_turn, insert-stored}
use schema_js.Query.RowJson.{Serde, json_rows, get_value, serialize_data}
use schema_js.Query.TableShard.{TableShard}
use schema_js.Engine.{SchemeJsEngine, EngineDb, find_by_name_ref, find_db}

-- The manager is shared by reference: the database that was found has the changed one.
abbrev pub set_manager :
    {Uuid : Type 0} → Text → SingleQueryManager Uuid → List (EngineDb Uuid) → List (EngineDb Uuid)
set_manager name manager [] = []
set_manager name manager (db ∷ databases) =
    let rest = set_manager name manager databases in
    if text_eq db.name name then record db { query_manager = manager } ∷ databases else db ∷ rest

module _ {J Uuid Number : Type 0} ⦃u : UuidApi Uuid⦄ (json : JsonApi J Number) where
  -- An object gets the id that is drawn as its `_uid`.
  abbrev pub with_uid : J → Uuid → J
  with_uid row drawn =
      if json.is_object row
      then json.insert_member uid_name (json.string (u.to_string drawn)) row
      else row

module _ {J Uuid Number : Type 0} ⦃u : UuidApi Uuid⦄ (json : JsonApi J Number) (serde : Serde J)
    (w : World Uuid) where
  -- `op_engine_insert_row`; an unknown database panics.
  unfoldable pub op_engine_insert_row :
      SchemeJsEngine Uuid
      → Text
      → Text
      → J
      → Uuid
      → Uuid
      → Uuid
      → Result QueryError (SchemeJsEngine Uuid × Result QueryError Uuid)
  op_engine_insert_row engine db_name table_name row drawn name_id own_id = do
    db ← expect_some (find_by_name_ref engine db_name)
    (manager, inserted) ←
        Manager.insert w (json_rows {Uuid = Uuid} {Number = Number} json serde) db.query_manager
          (record {
            value = record { table_name = table_name; row_data = with_uid json row drawn };
          })
          name_id own_id
    ok (record engine { databases = set_manager db_name manager engine.databases }, inserted)

-- A database that keeps its manager is what it was.
set_manager-same :
    {Uuid : Type 0} (name : Text) (databases : List (EngineDb Uuid)) (db : EngineDb Uuid)
    → find_db name databases ≡ some db
    → set_manager name db.query_manager databases ≡ databases
unfolding find_db
set_manager-same name [] db h = refl
set_manager-same name (other ∷ databases) db h = elim (Bool-cases (text_eq other.name name)) [
  | inl here ↦
      let found : some other ≡ some db = rw (find_db, here) at h in
      let same : other ≡ db = cc in
      rw here (ap (λ d. record other { query_manager = d.query_manager } ∷ databases) (sym same))
  | inr elsewhere ↦
      let found : find_db name databases ≡ some db = rw (find_db, elsewhere) at h in
      rw elsewhere (ap (λ l. other ∷ l) (set_manager-same name databases db found))
]

module _ {J Uuid Number : Type 0} ⦃u : UuidApi Uuid⦄ (json : JsonApi J Number)
    (laws : JsonLaws json) (serde : Serde J) (w : World Uuid) where
  -- The drawn id is the id of an object.
  get_value-drawn :
      (table_name : Text) (row : J) (drawn : Uuid)
      → json.is_object row ≡ true
      → get_value {Uuid = Uuid} json
          (record {
            value = record { table_name = table_name; row_data = with_uid json row drawn };
          })
          get_internal_uid
        ≡ ok (some (DataValue.uuid drawn))
  unfolding get_value from_column_value
  get_value-drawn table_name row drawn object =
      rw
        (
          object,
          get_value,
          laws.get-insert_member uid_name (json.string (u.to_string drawn)) row object,
          from_column_value,
          laws.as_str-string (u.to_string drawn),
          ◌>>=◌,
          u.parse_str-to_string drawn,
        )
        refl

module _ {J Uuid Number : Type 0} ⦃u : UuidApi Uuid⦄ (json : JsonApi J Number)
    (laws : JsonLaws json) (serde : Serde J) (w : World Uuid) where
  -- An object that can be written into a file below the limit of the machine, for a table that is
  -- registered in a database of the engine, is stored if the temporary map shard whose turn it is
  -- has room: a shard with space, or no shard at all. With the drawn id as its `_uid` the object is
  -- written behind the rows of the first shard with space, or alone into a new shard on an empty
  -- file; the operation returns the drawn id, and nothing else changes but whose turn it is.
  pub op_engine_insert_row-stored :
      (engine : SchemeJsEngine Uuid) (db_name table_name : Text) (row : J)
      (drawn name_id own_id : Uuid) (db : EngineDb Uuid) (bytes : Bytes)
      (shard : TableShard Uuid (IndexTypeValue Uuid))
      (t : TempMapShard (DataShard Uuid) DataShardConfig (List (Text × IndexTypeValue Uuid)))
      (before after : List (DataShard Uuid)) (k : ℕ) (items : List Bytes)
      → find_by_name_ref engine db_name ≡ some db
      → lookup table_name db.query_manager.tables ≡ some shard
      → json.is_object row ≡ true
      → serde.to_vec (record {
        table_name = table_name;
        row_data = json.insert_member uid_name (json.string (u.to_string drawn)) row;
      })
        ≡ some bytes
      → get_elem? shard.temps.temps (shard.temps.counter % length shard.temps.temps) ≡ some t
      → Room shard_ops data_view w t name_id before after k items
      → SmallData k (items ++ (bytes ∷ []))
      → (s' : DataShard Uuid) × (op_engine_insert_row json serde w engine db_name table_name row
            drawn name_id own_id
          ≡ ok (
            record engine {
              databases =
                  set_manager db_name
                    (record db.query_manager {
                      tables =
                          index_map_insert table_name
                            (table_after shard
                              (after_turn shard.temps t (before ++ (s' ∷ after)))
                              shard.indexes)
                            db.query_manager.tables;
                    })
                    engine.databases;
            },
            ok drawn,
          ))
        × HoldsData k s' (items ++ (bytes ∷ []))
  unfolding op_engine_insert_row
  op_engine_insert_row-stored engine db_name table_name row drawn name_id own_id db bytes shard t
        before after k items there table object written turn room small =
      let whole : with_uid json row drawn
          ≡ json.insert_member uid_name (json.string (u.to_string drawn)) row =
        rw object refl in
      let (s', inserted, after_held) =
        insert-stored w (json_rows json serde) db.query_manager
          (record {
            value = record { table_name = table_name; row_data = with_uid json row drawn };
          })
          name_id own_id drawn bytes shard t before after k items table
          (get_value-drawn json laws serde w table_name row drawn object)
          (rw (whole, serialize_data, written) refl) turn room small in
      (s', rw (there, ◌>>=◌, inserted) refl, after_held)

  -- Why a row is refused: its table is unknown, or it is no object and has no `_uid`.
  pub data Refused (manager : SingleQueryManager Uuid) (table_name : Text) (row : J)
      : QueryError → Type 0 where
    unknown_table :
        lookup table_name manager.tables ≡ none
        → Refused manager table_name row (QueryError.invalid_table table_name)
    no_uid :
        (shard : TableShard Uuid (IndexTypeValue Uuid))
        → lookup table_name manager.tables ≡ some shard
        → json.is_object row ≡ false
        → json.get row uid_name ≡ none
        → Refused manager table_name row QueryError.unknown_uid

  -- Nothing is stored and the engine stays as it is when the table is unknown, which is the error
  -- that is returned, or when a row that is no object has no `_uid`, for which it is an unknown id.
  pub op_engine_insert_row-Refused :
      (engine : SchemeJsEngine Uuid) (db_name table_name : Text) (row : J)
      (drawn name_id own_id : Uuid) (db : EngineDb Uuid) (e : QueryError)
      → find_by_name_ref engine db_name ≡ some db
      → Refused db.query_manager table_name row e
      → op_engine_insert_row json serde w engine db_name table_name row drawn name_id own_id
        ≡ ok (engine, err e)
  unfolding op_engine_insert_row Manager.insert get_value
  op_engine_insert_row-Refused engine db_name table_name row drawn name_id own_id db _ there
        (unknown_table unknown) =
      let same = set_manager-same db_name engine.databases db there in
      rw (there, ◌>>=◌, Manager.insert, unknown, same) refl
  op_engine_insert_row-Refused engine db_name table_name row drawn name_id own_id db _ there
        (no_uid shard table plain none_there) =
      let same = set_manager-same db_name engine.databases db there in
      rw (there, ◌>>=◌, Manager.insert, table, plain, get_value, none_there, same) refl
