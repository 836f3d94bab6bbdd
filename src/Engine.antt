-- ===== src/Engine.antt =====
-- crates/engine/src/engine.rs and engine_db.rs: the engine's databases. The folders that are made for
-- them are left out.
pub mod Insert
pub mod Schema
use schema_js.Prelude.{
  ◌≡◌, refl, List, [], ◌∷◌, ◌++◌, true, false, Bool-cases, inl, inr, Option, none, some,
  if◌then◌else◌,
}
use schema_js.Prelude.Results.{Result, ok, ◌>>=◌, panic}
use schema_js.Uuid.{UuidApi}
use schema_js.MapShard.Ops.{text_eq}
use schema_js.Primitives.Column.{Text}
use schema_js.Primitives.Table.{Table}
use schema_js.Query.Errors.{QueryError}
use schema_js.Query.Open.{Folder, IndexTypeValue}
use schema_js.Query.Row.{Row}
use schema_js.Index.Hash.{IndexOps}
use schema_js.Primitives.Value.{ValueText}
use schema_js.Query.Manager.{SingleQueryManager, new_manager, register_table}

pub record EngineDb (Uuid : Type 0) : Type 0 where
  pub query_manager : SingleQueryManager Uuid
  pub name : Text

pub record SchemeJsEngine (Uuid : Type 0) : Type 0 where
  pub databases : List (EngineDb Uuid)

-- `EngineDb::new`, with the id that the manager draws.
abbrev pub new_engine_db : {Uuid : Type 0} → Text → Uuid → EngineDb Uuid
new_engine_db name uuid = record { query_manager = new_manager name uuid; name = name }

abbrev pub new_engine : {Uuid : Type 0} → SchemeJsEngine Uuid
new_engine = record { databases = [] }

unfoldable pub find_db : {Uuid : Type 0} → Text → List (EngineDb Uuid) → Option (EngineDb Uuid)
find_db name [] = none
find_db name (db ∷ databases) =
    let rest = find_db name databases in if text_eq db.name name then some db else rest

abbrev pub find_by_name_ref : {Uuid : Type 0} → SchemeJsEngine Uuid → Text → Option (EngineDb Uuid)
find_by_name_ref engine name = find_db name engine.databases

unfoldable pub add_engine_db :
    {Uuid : Type 0} → SchemeJsEngine Uuid → Text → Uuid → SchemeJsEngine Uuid
add_engine_db engine name uuid = record {
  databases = engine.databases ++ (new_engine_db name uuid ∷ []);
}

module _ {T Uuid Number : Type 0} ⦃u : UuidApi Uuid⦄ (print : ValueText Uuid Number)
    (rows : Row T Uuid Number) (index_ops : IndexOps (IndexTypeValue Uuid))
    (table_folder index_folder : Text → Folder Uuid) where
  -- The loop of `register_tables`, with the folders of each table.
  unfoldable pub register_each :
      SingleQueryManager Uuid → List Table → Result QueryError (SingleQueryManager Uuid)
  register_each manager [] = ok manager
  register_each manager (table ∷ tables) =
      (register_table print rows index_ops manager (table_folder table.name)
          (index_folder table.name) table
        >>= λ manager'. register_each manager' tables)

  -- `register_tables`: the first database of the name, which `find_by_name` gives; without it the
  -- call panics.
  unfoldable pub register_tables :
      Text → List (EngineDb Uuid) → List Table → Result QueryError (List (EngineDb Uuid))
  register_tables schema_name [] loaded_tables = panic
  register_tables schema_name (db ∷ databases) loaded_tables = elim (text_eq db.name schema_name) [
    | true ↦
        (register_each db.query_manager loaded_tables >>= λ manager.
        ok (record db { query_manager = manager } ∷ databases))
    | false ↦
        (register_tables schema_name databases loaded_tables >>= λ databases'. ok (db ∷ databases'))
  ]

abbrev pub or_first : {A : Type 0} → Option A → Option A → Option A
or_first (some a) other = some a
or_first none other = other

find_db-append :
    {Uuid : Type 0} (databases more : List (EngineDb Uuid)) (name : Text)
    → find_db name (databases ++ more) ≡ or_first (find_db name databases) (find_db name more)
unfolding find_db
find_db-append [] more name = refl
find_db-append (db ∷ databases) more name = elim (Bool-cases (text_eq db.name name)) [
  | inl here ↦ rw here refl
  | inr elsewhere ↦ rw elsewhere (find_db-append databases more name)
]

-- After a database is added, a name is answered with the database that had it before, if there was
-- one, and otherwise with the new one exactly when it is its name.
pub find_by_name_ref-add_engine_db :
    {Uuid : Type 0} (engine : SchemeJsEngine Uuid) (added name : Text) (uuid : Uuid)
    → find_by_name_ref (add_engine_db engine added uuid) name
      ≡ or_first
          (find_by_name_ref engine name)
          (if text_eq added name then some (new_engine_db added uuid) else none)
unfolding add_engine_db find_db
find_by_name_ref-add_engine_db engine added name uuid =
    find_db-append engine.databases (new_engine_db added uuid ∷ []) name
