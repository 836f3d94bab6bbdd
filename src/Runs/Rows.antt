-- ===== src/Runs/Rows.antt =====
-- JSON rows: their insertion by the runtime's operation, and their conversions.
use schema_js.Prelude.{
  ℕ, ◌+◌, ◌-◌, ◌≡◌, refl, List, [], ◌∷◌, Bool, true, false, Option, none, some, if◌then◌else◌,
  arith,
}
use schema_js.Prelude.Results.{ok, err}
use schema_js.DataShard.Config.{DataShardConfig}
use schema_js.DataShard.Ops.{DataShard}
use schema_js.DataShard.Laws.{has_space-HoldsData, HoldsData}
use schema_js.MapShard.Ops.{text_eq, index_map_insert}
use schema_js.TempShard.Insert.{in_first}
use schema_js.TempShard.Ops.{TempMapShard}
use schema_js.Primitives.Column.{Text, Column, DataTypes, new_column}
use schema_js.Primitives.Json.{JsonApi, JsonLaws}
use schema_js.Primitives.Table.{new_table, uid_name, text_eq_refl}
use schema_js.Primitives.Value.{DataValue, get_type}
use schema_js.Query.Errors.{QueryError}
use schema_js.Query.Borsh.{
  JsonValue, JsonArray, JsonMembers, BorshApi, borsh_of, value_of, value_of-borsh_of,
}
use schema_js.Query.Manager.{table_after}
use schema_js.Query.Open.{IndexTypeValue}
use schema_js.Query.RowJson.{Serde, get_value, get_value-type}
use schema_js.Query.Stored.{after_turn}
use schema_js.Query.TableShard.{TableShard}
use schema_js.Engine.{SchemeJsEngine, EngineDb, find_db}
use schema_js.Engine.Insert.{
  no_uid, op_engine_insert_row, set_manager, op_engine_insert_row-stored,
  op_engine_insert_row-Refused,
}
use schema_js.Runs.Maps.{world, one_slot, stem, opened, two}
use schema_js.Runs.Samples.{SampleId, sample_uuid, zeroth, first, second, third}

abbrev Sample : Type 0
Sample = JsonValue ℕ

abbrev member_of : Text → JsonMembers ℕ → Option Sample
member_of key JsonMembers.no_members = none
member_of key (JsonMembers.member other v rest) =
    let later = member_of key rest in if text_eq other key then some v else later

abbrev text_of : Sample → Option Text
text_of (JsonValue.string s) = some s
text_of _ = none

abbrev bool_of : Sample → Option Bool
bool_of (JsonValue.boolean b) = some b
bool_of _ = none

abbrev number_in : Sample → Option ℕ
number_in (JsonValue.number n) = some n
number_in _ = none

abbrev is_members : Sample → Bool
is_members (JsonValue.object entries) = true
is_members _ = false

abbrev at_key : Sample → Text → Option Sample
at_key (JsonValue.object entries) key = member_of key entries
at_key _ key = none

abbrev put_member : Text → Sample → Sample → Sample
put_member key v (JsonValue.object entries) = JsonValue.object (JsonMembers.member key v entries)
put_member key v other = other

abbrev samples : JsonApi Sample ℕ
samples = record {
  string = λ t. JsonValue.string t;
  as_str = text_of;
  as_bool = bool_of;
  as_number = number_in;
  is_object = is_members;
  get = at_key;
  insert_member = put_member;
}

put_member_lem :
    (key : Text) (v o : Sample) → is_members o ≡ true → at_key (put_member key v o) key ≡ some v
put_member_lem key v JsonValue.null h = absurd (cc)
put_member_lem key v (JsonValue.boolean b) h = absurd (cc)
put_member_lem key v (JsonValue.number n) h = absurd (cc)
put_member_lem key v (JsonValue.string s) h = absurd (cc)
put_member_lem key v (JsonValue.array items) h = absurd (cc)
put_member_lem key v (JsonValue.object entries) h = rw (text_eq_refl key) refl

samples-JsonLaws : JsonLaws samples
samples-JsonLaws = record { as_str-string = λ t. refl; get-insert_member = put_member_lem }

-- Rows are written as the name of their table.
abbrev serde : Serde Sample
serde = record { to_vec = λ d. some d.table_name; from_slice = λ bytes. none }

abbrev users : Text
users = 117 ∷ []

-- A table with one temporary map shard, which has an empty shard.
abbrev waiting :
    TempMapShard (DataShard SampleId) DataShardConfig (List (Text × IndexTypeValue SampleId))
waiting = record {
  prefix = stem;
  temp_shards = (opened 1).0 ∷ [];
  config = one_slot;
  on_reconcile = none;
}

abbrev users_shard : TableShard SampleId (IndexTypeValue SampleId)
users_shard = record {
  table = new_table users;
  shard_data = two;
  temps = record { target_shard = two; temps = waiting ∷ []; counter = 0 };
  indexes = [];
}

abbrev users_db : EngineDb SampleId
users_db = record {
  query_manager = record {
    table_names = users ∷ [];
    tables = (users, users_shard) ∷ [];
    scheme = users;
    id = first;
  };
  name = users;
}

abbrev engine : SchemeJsEngine SampleId
engine = record { databases = users_db ∷ [] }

abbrev empty_row : Sample
empty_row = JsonValue.object JsonMembers.no_members

op_engine_insert_row-stored_example :
    (s' : DataShard SampleId) × (op_engine_insert_row samples serde world engine users users
        empty_row second third zeroth
      ≡ ok (
        record engine {
          databases =
              set_manager users
                (record users_db.query_manager {
                  tables =
                      index_map_insert users
                        (table_after users_shard
                          (after_turn users_shard.temps waiting (s' ∷ []))
                          [])
                        users_db.query_manager.tables;
                })
                engine.databases;
        },
        ok second,
      ))
    × HoldsData 1 s' (users ∷ [])
unfolding find_db schema_js.Primitives.Table.lookup
op_engine_insert_row-stored_example =
    op_engine_insert_row-stored samples samples-JsonLaws serde world engine users users empty_row
      second third zeroth users_db users users_shard waiting [] [] 1 [] refl refl refl refl refl
      (in_first [] (opened 1).0 [] 1 [] refl tt
        (has_space-HoldsData 1 (opened 1).0 [] (opened 1).2 (omega arith)) (opened 1).2
        (omega arith))
      (omega arith, omega arith)

-- A number for a row.
op_engine_insert_row-Refused_example :
    op_engine_insert_row samples serde world engine users users
      (JsonValue.number 5)
      second
      third
      zeroth
    ≡ ok (engine, err QueryError.unknown_uid)
unfolding find_db schema_js.Primitives.Table.lookup
op_engine_insert_row-Refused_example =
    op_engine_insert_row-Refused samples samples-JsonLaws serde world engine users users
      (JsonValue.number 5) second third zeroth users_db QueryError.unknown_uid refl
      (no_uid users_shard refl refl refl)

abbrev age : Column
age = new_column users DataTypes.number

get_value-type_example :
    get_type {Uuid = SampleId} {Number = ℕ} (DataValue.number 5) ≡ DataTypes.number
unfolding get_value schema_js.Primitives.Json.from_column_value
get_value-type_example =
    get_value-type {Uuid = SampleId} samples
      (record {
        value = record {
          table_name = users;
          row_data =
              JsonValue.object
                (JsonMembers.member users (JsonValue.number 5) JsonMembers.no_members);
        };
      })
      age (DataValue.number 5) refl

abbrev floats : BorshApi ℕ ℕ
floats = record {
  as_f64 = λ n. some (n + 1);
  from_f64 = λ f. some (f - 1);
  try_from_slice = λ bytes. err [];
}

-- `{"u": [5, "u"]}`
abbrev nested : Sample
nested = JsonValue.object (
    JsonMembers.member users
      (JsonValue.array (
        JsonArray.item (JsonValue.number 5)
          (JsonArray.item (JsonValue.string users) JsonArray.no_items)))
      JsonMembers.no_members)

value_of-borsh_of_example :
    (b : JsonValue ℕ) × (borsh_of floats {E = ℕ} nested ≡ ok b)
    × (value_of floats {E = ℕ} b ≡ ok nested)
value_of-borsh_of_example = value_of-borsh_of ℕ floats nested (((6, refl, refl), (tt, tt)), tt)
