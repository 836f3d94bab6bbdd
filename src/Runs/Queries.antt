-- ===== src/Runs/Queries.antt =====
-- A query over a table with one index, and its theorems.
use schema_js.Prelude.{
  ℕ, ◌≡◌, refl, sym, ap, ◌∙◌, List, [], ◌∷◌, ◌++◌, append-nil, map, length, Option, some, none,
  Bool-cases, inl, inr, if◌then◌else◌, arith,
}
use schema_js.Prelude.Results.{Result, ok}
use schema_js.MapShard.Ops.{MapShard, text_eq}
use schema_js.MapShard.State.{text_eq→eq}
use schema_js.Prelude.Int.{negsuc}
use schema_js.Storage.File.{Platform}
use schema_js.DataShard.Ops.{DataShard}
use schema_js.DataShard.Config.{DataShardConfig}
use schema_js.Index.Types.{IndexKeyType}
use schema_js.Index.Entry.{NoEntry}
use schema_js.Index.Keys.{CompositeKey, composite_bytes}
use schema_js.Index.Hash.{IndexOps}
use schema_js.Primitives.Column.{Text}
use schema_js.Primitives.Table.{Index, IndexType, lookup}
use schema_js.Primitives.Value.{DataValue, ValueText}
use schema_js.Query.Ops.{QueryVal, QueryOps, or, condition, no_ops, more_ops}
use schema_js.Query.TableShard.{TableShard}
use schema_js.Query.Search.{
  execute_query, find_index_for_query, find_index_for_conditions, generate_index_key,
  find_condition, collect_conditions,
}
use schema_js.Query.Search.Meaning.{Meets, Answers, Serves}
use schema_js.Query.Search.Whole.{Returns}
use schema_js.Query.Search.Sound.{execute_query-Meets}
use schema_js.Query.Search.Filters.{execute_query-filter}
use schema_js.Runs.Samples.{SampleId, first}

abbrev pub print : ValueText SampleId ℕ
print = record { uuid_text = λ id. []; number_text = λ n. n ∷ [] }

-- The column `a`, and the one row in which it is `1`.
abbrev pub column_a : Text
column_a = 97 ∷ []

abbrev pub one_text : Text
one_text = 49 ∷ []

abbrev text_at : ℕ → Text → Option Text
text_at n column = if text_eq column column_a then some one_text else none

abbrev pointer_of : IndexKeyType → Result NoEntry (Option ℕ)
pointer_of (IndexKeyType.sha256 key) = ok (if text_eq key (97 ∷ 49 ∷ []) then some 3 else none)
pointer_of (IndexKeyType.string key) = ok none

-- An index that only knows the row 3.
abbrev one_row : IndexOps ℕ
one_row = record {
  to_key = λ i key. IndexKeyType.sha256 (composite_bytes key);
  bulk_insert = λ i rows. ok i;
  insert = λ i key row. ok i;
  get = λ i key. pointer_of key;
  remove = λ i key. ok (i, none);
  supported_search_operators = λ i. (61 ∷ []) ∷ [];
}

abbrev index_a : Index
index_a = record { name = column_a; members = column_a ∷ []; index_type = IndexType.hash }

abbrev equals_one : Text → QueryVal SampleId ℕ
equals_one filter = record {
  key = column_a;
  filter_type = filter;
  value = DataValue.string one_text;
}

-- `a = 1 or a = 1`
abbrev query : QueryOps SampleId ℕ
query = or (
    more_ops (condition (equals_one (61 ∷ [])))
      (more_ops (condition (equals_one (61 ∷ []))) no_ops))

abbrev empty_shard : MapShard (DataShard SampleId) DataShardConfig
empty_shard = record {
  current_master_shard = record {
    path = [];
    header = record {
      max_offsets = 0;
      last_offset_index = negsuc 0;
      max_offset_positions = 0;
      id = first;
    };
    data_handler = record {
      path = [];
      map_len = 0;
      file = record { platform = Platform.posix; bytes = [] };
    };
    id = first;
  };
  past_master_shards = [];
  shard_prefix = [];
  config = record { max_offsets = none };
}

abbrev pub table_a : TableShard SampleId ℕ
table_a = record {
  table = record { name = column_a; columns = []; indexes = index_a ∷ []; primary_key = column_a };
  shard_data = empty_shard;
  temps = record { target_shard = empty_shard; temps = []; counter = 0 };
  indexes = (column_a, 0) ∷ [];
}

abbrev tail_of : Text → Text
tail_of [] = []
tail_of (c ∷ cs) = cs

abbrev first_text : List Text → Text
first_text [] = []
first_text (t ∷ ts) = t

a-Answers :
    (key : CompositeKey)
    → map (λ part. part.0) key ≡ column_a ∷ []
    → Answers print text_at one_row table_a
        (pointer_of (IndexKeyType.sha256 (composite_bytes key)))
        key
unfolding composite_bytes
a-Answers [] h = absurd (cc)
a-Answers ((c, t) ∷ p ∷ key) h = absurd (omega (arith, ap length h))
a-Answers ((c, t) ∷ []) h =
    elim (Bool-cases (text_eq (composite_bytes ((c, t) ∷ [])) (97 ∷ 49 ∷ []))) [
      | inl found ↦
          let is_a : c ≡ column_a = ap (λ l. first_text l) h in
          let whole : c ++ (t ++ []) ≡ 97 ∷ 49 ∷ [] = text_eq→eq _ _ found in
          let one : t ≡ one_text =
            sym (append-nil t) ∙ ap tail_of (ap (λ c. c ++ (t ++ [])) (sym is_a) ∙ whole) in
          record {
            pointer = some 3;
            returns = rw found refl;
            rows = ((ap (text_at 3) is_a ∙ ap (λ t. some t) (sym one), tt), tt);
          }
      | inr other ↦ record { pointer = none; returns = rw other refl; rows = tt }
    ]

a-Serves : Serves print text_at one_row table_a index_a
unfolding lookup
a-Serves = record { indx = 0; registered = refl; answers = a-Answers }

execute_query-Meets_example :
    Returns print one_row table_a text_at
      (λ n. Meets print text_at n query)
      (execute_query print one_row table_a query)
execute_query-Meets_example =
    execute_query-Meets print one_row table_a text_at (a-Serves, tt) query (refl, (refl, tt))

found_a :
    find_index_for_query print (condition (equals_one (61 ∷ []))) (index_a ∷ [])
    ≡ some (index_a, (column_a, one_text) ∷ [])
unfolding find_index_for_query find_index_for_conditions generate_index_key find_condition
    collect_conditions
found_a = refl

execute_query-filter_example :
    execute_query print one_row table_a (condition (equals_one (33 ∷ 61 ∷ [])))
    ≡ execute_query print one_row table_a (condition (equals_one (61 ∷ [])))
execute_query-filter_example =
    execute_query-filter print (equals_one (61 ∷ [])) (33 ∷ 61 ∷ []) one_row table_a
      (index_a, (column_a, one_text) ∷ []) found_a
