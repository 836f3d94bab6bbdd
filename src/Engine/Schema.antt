-- ===== src/Engine/Schema.antt =====
-- crates/engine/src/engine.rs and utils/fs.rs: `load_database_schema`, which finds the files of the
-- tables of a database. Paths, the file system and URLs are parameters.
use schema_js.Prelude.{List, [], ◌∷◌, Bool, true, false, ◌||◌, Option, none, some, if◌then◌else◌}
use schema_js.Prelude.Results.{Result, ok, err, ◌>>=◌, expect_some}
use schema_js.MapShard.Ops.{text_eq}
use schema_js.Primitives.Column.{Text}
use schema_js.Engine.{SchemeJsEngine, add_engine_db}

-- What the program uses of paths and of the file system; `walk` lists the entries below a folder,
-- with nothing for one that cannot be read.
pub record Files (P Url : Type 0) : Type 0 where
  pub exists : P → Bool
  pub file_name : P → Option Text
  pub join : P → Text → P
  pub canonicalize : P → Option P
  pub walk : P → List (Option P)
  pub extension : P → Option Text
  pub from_file_path : P → Option Url

pub data SchemaError (P : Type 0) : Type 0 where
  no_such_schema : P → SchemaError P
  no_tables : SchemaError P

-- `tables`, `js` and `ts`
abbrev tables_name : Text
tables_name = 116 ∷ 97 ∷ 98 ∷ 108 ∷ 101 ∷ 115 ∷ []

abbrev js : Text
js = 106 ∷ 115 ∷ []

abbrev ts : Text
ts = 116 ∷ 115 ∷ []

module _ {P Url : Type 0} (files : Files P Url) where
  unfoldable pub is_js_or_ts : P → Bool
  is_js_or_ts entry = elim (files.extension entry) [
    | none ↦ false
    | some ext ↦ text_eq ext js || text_eq ext ts
  ]

  -- The loop over the entries.
  unfoldable pub table_specifiers : {E : Type 0} → List (Option P) → Result E (List Url)
  table_specifiers [] = ok []
  table_specifiers (none ∷ entries) = table_specifiers entries
  table_specifiers (some table_file ∷ entries) = elim (is_js_or_ts table_file) [
    | true ↦
        (expect_some (files.from_file_path table_file) >>= λ url.
        table_specifiers entries >>= λ urls. ok (url ∷ urls))
    | false ↦ table_specifiers entries
  ]

  -- After the database is added: its name and the files of its tables.
  abbrev pub load_tables :
      {Uuid : Type 0}
      → SchemeJsEngine Uuid
      → Text
      → Option P
      → Result (SchemaError P) (SchemeJsEngine Uuid × Result (SchemaError P) (Text × List Url))
  load_tables engine schema_name none = ok (engine, err SchemaError.no_tables)
  load_tables engine schema_name (some table_path) =
      (table_specifiers (files.walk table_path) >>= λ urls. ok (engine, ok (schema_name, urls)))

  -- The engine after the call, with what it returns; `drawn` is the id of the new manager.
  unfoldable pub load_database_schema :
      {Uuid : Type 0}
      → SchemeJsEngine Uuid
      → P
      → Uuid
      → Result (SchemaError P) (SchemeJsEngine Uuid × Result (SchemaError P) (Text × List Url))
  load_database_schema engine path drawn = elim (files.exists path) [
    | false ↦ ok (engine, err (SchemaError.no_such_schema path))
    | true ↦
        (expect_some (files.file_name path) >>= λ schema_name.
        load_tables (add_engine_db engine schema_name drawn) schema_name
          (files.canonicalize (files.join path tables_name)))
  ]

  -- The files of the extensions, in the order of the walk.
  abbrev pub sources : List (Option P) → List P
  sources [] = []
  sources (none ∷ entries) = sources entries
  sources (some file ∷ entries) =
      let rest = sources entries in if is_js_or_ts file then file ∷ rest else rest
