-- ===== src/Runs/Maps.antt =====
-- Map shards of data shards: runs with one slot for each shard, and the theorems at inputs.
use schema_js.Prelude.{
  ℕ, ◌<◌, ◌≡◌, refl, sym, ap, ◌∙◌, List, [], ◌∷◌, ◌++◌, some, All, length, length-append, flatten,
  get_elem?, arith,
}
use schema_js.Prelude.Results.{ok}
use schema_js.Prelude.Bytes.{Bytes}
use schema_js.Storage.File.{Platform}
use schema_js.Storage.Handler.{FileName}
use schema_js.Uuid.{IsPlain, underscore}
use schema_js.DataShard.Config.{DataShardConfig}
use schema_js.DataShard.Ops.{DataShard, insert_item, shard_ops}
use schema_js.DataShard.Laws.{HoldsData, data_view, data_laws}
use schema_js.MapShard.Names.{extract_shard_signature, generate_shard_name}
use schema_js.MapShard.Names.RoundTrip.{extract_shard_signature-generate_shard_name}
use schema_js.MapShard.Ops.{MapShard, World, insert_rows, get_element}
use schema_js.MapShard.Open.{new_map_shard}
use schema_js.MapShard.State.{IsGood, Contains, Outcome}
use schema_js.MapShard.Start.{new_map_shard-Contains}
use schema_js.MapShard.Insert.{insert_rows-Contains}
use schema_js.MapShard.Read.{get_element-reversed, get_element-in_order, get_element-exchanged}
use schema_js.MapShard.RoundTrip.{get_element-insert_rows}
use schema_js.Runs.Samples.{SampleId, sample_id, sample_uuid, sample_ids_distinct, zeroth, third}

abbrev pub world : World SampleId
world = record { platform = Platform.posix; disk = λ path. []; drawn = sample_id }

pub world-IsGood : IsGood world 4
world-IsGood = record {
  limit_fits = omega arith;
  on_posix = refl;
  empty_disk = λ prefix number. refl;
  distinct = sample_ids_distinct;
}

abbrev pub one_slot : DataShardConfig
one_slot = record { max_offsets = some 1 }

-- `data`
abbrev pub stem : List ℕ
stem = 100 ∷ 97 ∷ 116 ∷ 97 ∷ []

pub stem-IsPlain : All IsPlain stem
stem-IsPlain = omega arith

-- A folder with a file that is no shard, `x`.
new_map_shard-Contains_example :
    (m : MapShard (DataShard SampleId) DataShardConfig) × (new_map_shard shard_ops world one_slot
        ((120 ∷ []) ∷ [])
        (stem ++ (underscore ∷ []))
        zeroth
      ≡ ok m)
    × Contains shard_ops data_view world 4 1 m [] [] 0
new_map_shard-Contains_example =
    new_map_shard-Contains shard_ops data_view data_laws world 4 world-IsGood one_slot
      ((120 ∷ []) ∷ []) stem tt (omega arith) (omega arith) stem-IsPlain (refl, tt)

abbrev pub rows : List Bytes
rows = (49 ∷ []) ∷ (50 ∷ 50 ∷ []) ∷ []

abbrev pub row : Bytes
row = 51 ∷ []

insert_rows-Contains_example :
    Outcome shard_ops data_view world 4 1 0 0 rows
      (insert_rows shard_ops world rows new_map_shard-Contains_example.0)
insert_rows-Contains_example =
    insert_rows-Contains shard_ops data_view data_laws world 4 world-IsGood 1 (omega arith) rows
      new_map_shard-Contains_example.0 [] [] 0 new_map_shard-Contains_example.2 (omega arith)
      (omega arith) (omega arith, omega arith)

-- Shards of one slot, full, of the numbers 0 to 2.
abbrev pub name_of : ℕ → FileName
name_of n = generate_shard_name (stem ++ (underscore ∷ [])) (sample_id n) n

pub opened :
    (n : ℕ)
    → (s : DataShard SampleId) × (shard_ops.open_shard Platform.posix
          (name_of n)
          []
          one_slot
          (some (sample_id n))
          (sample_id n)
        ≡ ok s)
      × HoldsData 1 s []
      × (s.path ≡ name_of n)
opened n =
    data_laws.open_shard_law (name_of n) one_slot (some (sample_id n)) (sample_id n) tt
      (omega arith, omega arith) (omega arith)

abbrev pub filled : ℕ → Bytes → DataShard SampleId
filled n x = (insert_item (opened n).0 (x ∷ [])).0

pub filled-HoldsData : (n : ℕ) (x : Bytes) → length x < 9 → HoldsData 1 (filled n x) (x ∷ [])
filled-HoldsData n x h =
    (data_laws.insert_item_law 1 (opened n).0 [] (x ∷ []) (opened n).2 (omega arith)
      (omega (arith, length-append x []), omega arith)).0

master-named :
    extract_shard_signature (filled 2 row).path
    ≡ some (2, sample_uuid.to_string (sample_id 2), name_of 2)
master-named =
    ap extract_shard_signature (data_laws.get_path_law (opened 2).0 (row ∷ []) ∙ (opened 2).3)
    ∙ extract_shard_signature-generate_shard_name stem (sample_id 2) 2 stem-IsPlain (omega arith)

-- Three shards, with "1", "22" and "3".
abbrev pub three : MapShard (DataShard SampleId) DataShardConfig
three = record {
  current_master_shard = filled 2 row;
  past_master_shards =
      (sample_uuid.to_string (sample_id 0), filled 0 (49 ∷ []))
      ∷ (sample_uuid.to_string (sample_id 1), filled 1 (50 ∷ 50 ∷ []))
      ∷ [];
  shard_prefix = stem ++ (underscore ∷ []);
  config = one_slot;
}

pub three-Contains :
    Contains shard_ops data_view world 4 1 three
      (((49 ∷ []) ∷ []) ∷ ((50 ∷ 50 ∷ []) ∷ []) ∷ [])
      (row ∷ [])
      2
three-Contains = record {
  past = (
    (filled-HoldsData 0 (49 ∷ []) (omega arith), refl),
    ((filled-HoldsData 1 (50 ∷ 50 ∷ []) (omega arith), refl), tt),
  );
  holds = filled-HoldsData 2 row (omega arith);
  config = refl;
  suits = tt;
  stem = stem;
  prefix = refl;
  plain = stem-IsPlain;
  key = sample_uuid.to_string (sample_id 2);
  path = name_of 2;
  named = master-named;
  key_new = (
    (λ e. sample_ids_distinct 0 2 (omega arith) (omega arith) (sym e)),
    ((λ e. sample_ids_distinct 1 2 (omega arith) (omega arith) (sym e)), tt),
  );
  later_new = λ j h l. (
    sample_ids_distinct 2 j h l,
    (
      (λ e. sample_ids_distinct 0 j (omega arith) l (sym e)),
      ((λ e. sample_ids_distinct 1 j (omega arith) l (sym e)), tt),
    ),
  );
}

get_element-exchanged_example :
    (get_elem? (flatten (((49 ∷ []) ∷ []) ∷ ((50 ∷ 50 ∷ []) ∷ []) ∷ []) ++ (row ∷ [])) 0
      ≡ some (49 ∷ []))
    × (get_element shard_ops three 0 ≡ ok (50 ∷ 50 ∷ []))
    × (get_element shard_ops three 1 ≡ ok (49 ∷ []))
get_element-exchanged_example =
    get_element-exchanged shard_ops data_view data_laws world 4 1 (omega arith) three
      ((49 ∷ []) ∷ []) ((50 ∷ 50 ∷ []) ∷ []) (row ∷ []) 2 0 (49 ∷ []) (50 ∷ 50 ∷ []) three-Contains
      refl refl

get_element-reversed_example : get_element shard_ops three 2 ≡ ok row
get_element-reversed_example =
    get_element-reversed shard_ops data_view data_laws world 4 1 (omega arith) three
      (((49 ∷ []) ∷ []) ∷ ((50 ∷ 50 ∷ []) ∷ []) ∷ []) (row ∷ []) 2 2 row three-Contains refl

-- Two shards, with "1" and "3".
abbrev pub two : MapShard (DataShard SampleId) DataShardConfig
two = record three {
  past_master_shards = (sample_uuid.to_string (sample_id 0), filled 0 (49 ∷ [])) ∷ [];
}

pub two-Contains : Contains shard_ops data_view world 4 1 two (((49 ∷ []) ∷ []) ∷ []) (row ∷ []) 2
two-Contains = record {
  past = ((filled-HoldsData 0 (49 ∷ []) (omega arith), refl), tt);
  holds = filled-HoldsData 2 row (omega arith);
  config = refl;
  suits = tt;
  stem = stem;
  prefix = refl;
  plain = stem-IsPlain;
  key = sample_uuid.to_string (sample_id 2);
  path = name_of 2;
  named = master-named;
  key_new = ((λ e. sample_ids_distinct 0 2 (omega arith) (omega arith) (sym e)), tt);
  later_new = λ j h l.
      (sample_ids_distinct 2 j h l, ((λ e. sample_ids_distinct 0 j (omega arith) l (sym e)), tt));
}

get_element-in_order_example : get_element shard_ops two 1 ≡ ok row
get_element-in_order_example =
    get_element-in_order shard_ops data_view data_laws world 4 1 (omega arith) two
      (((49 ∷ []) ∷ []) ∷ []) (row ∷ []) 2 1 row two-Contains (omega arith) refl

extract_shard_signature-generate_shard_name_example :
    extract_shard_signature (name_of 3) ≡ some (3, sample_uuid.to_string third, name_of 3)
extract_shard_signature-generate_shard_name_example =
    extract_shard_signature-generate_shard_name stem third 3 stem-IsPlain (omega arith)

get_element-insert_rows_example :
    (after : MapShard (DataShard SampleId) DataShardConfig) × (position : ℕ) × (insert_rows
        shard_ops world
        ((52 ∷ []) ∷ [])
        three
      ≡ ok (after, position))
    × (get_element shard_ops after position ≡ ok (52 ∷ []))
get_element-insert_rows_example =
    get_element-insert_rows world 4 world-IsGood 1 (omega arith) (52 ∷ []) three
      (((49 ∷ []) ∷ []) ∷ ((50 ∷ 50 ∷ []) ∷ []) ∷ []) (row ∷ []) 2 three-Contains (omega arith)
      (omega arith)
