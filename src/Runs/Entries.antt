-- ===== src/Runs/Entries.antt =====
-- Key-value shards: the repository's test on entries of one byte, and the theorems at inputs.
use schema_js.Prelude.{ℕ, suc, ◌≡◌, refl, List, [], ◌∷◌, ◌++◌, some, none, arith}
use schema_js.Prelude.Results.{ok, err}
use schema_js.Prelude.Bytes.{Bytes}
use schema_js.Storage.File.{Platform}
use schema_js.Shard.Errors.{ShardErrors}
use schema_js.KvShard.Ops.{
  KvShard, KvShardConfig, open_shard, insert_item, read_item_from_index, shard_ops, swap_elements,
}
use schema_js.KvShard.Layout.{Entries}
use schema_js.KvShard.Swap.{file_of, swap_elements_lem}
use schema_js.KvShard.Read.{read_item_from_index-Entries, read_item_from_index-past}
use schema_js.KvShard.Insert.{insert_item-Entries}
use schema_js.KvShard.Open.{open_shard_new, open_shard-Entries}
use schema_js.KvShard.Laws.{kv_view, kv_laws}
use schema_js.KvShard.InMap.{get_element-insert_entry}
use schema_js.MapShard.Ops
use schema_js.MapShard.Ops.{MapShard, insert_rows}
use schema_js.MapShard.Open.{new_map_shard}
use schema_js.MapShard.State.{Contains}
use schema_js.MapShard.Start.{new_map_shard-Contains}
use schema_js.Uuid.{underscore}
use schema_js.Runs.Maps.{world, world-IsGood, stem, stem-IsPlain}
use schema_js.Runs.Samples.{SampleId, zeroth, first, second, sample_uuid}

abbrev bytes_of_one : KvShardConfig
bytes_of_one = record { value_size = 1; max_capacity = none }

-- "a", "b" and "c"
abbrev letters : List Bytes
letters = (97 ∷ []) ∷ (98 ∷ []) ∷ (99 ∷ []) ∷ []

new_shard :
    (s : KvShard SampleId) × (open_shard Platform.posix [] [] bytes_of_one (some first) second
      ≡ ok s)
    × Entries 0 1 first s []
    × (s.path ≡ [])
new_shard = open_shard_new [] bytes_of_one (some first) second (omega arith) (omega arith)

abbrev lettered : KvShard SampleId
lettered = (insert_item new_shard.0 letters).0

insert_item-Entries_example :
    Entries 0 1 first lettered letters × ((insert_item new_shard.0 letters).1 ≡ ok 3)
insert_item-Entries_example =
    insert_item-Entries 0 1 first new_shard.0 [] letters new_shard.2 (refl, (refl, (refl, tt)))
      (omega arith) (omega arith)

read_item_from_index-Entries_example : read_item_from_index lettered 1 ≡ ok (98 ∷ [])
read_item_from_index-Entries_example =
    read_item_from_index-Entries letters 1 (98 ∷ []) insert_item-Entries_example.0 refl

read_item_from_index-past_example : read_item_from_index lettered 3 ≡ err ShardErrors.unknown_entry
read_item_from_index-past_example =
    read_item_from_index-past letters 3 insert_item-Entries_example.0 (omega arith) (omega arith)
      (omega arith)

open_shard-Entries_example :
    (t : KvShard SampleId) × (open_shard Platform.posix [] lettered.data_handler.file.bytes
        bytes_of_one none second
      ≡ ok t)
    × Entries 0 1 first t letters
    × (t.id ≡ first)
open_shard-Entries_example =
    open_shard-Entries letters [] bytes_of_one none second insert_item-Entries_example.0

swap_elements_lem_example :
    swap_elements lettered (file_of 0 3 1 first letters) 2 (99 ∷ []) (98 ∷ [])
    ≡ ok (file_of 0 3 1 first ((97 ∷ []) ∷ (99 ∷ []) ∷ (98 ∷ []) ∷ []))
swap_elements_lem_example =
    swap_elements_lem 0 3 1 first lettered ((97 ∷ []) ∷ []) (98 ∷ []) (99 ∷ []) [] (99 ∷ [])
      (98 ∷ []) insert_item-Entries_example.0.own_size (refl, tt) refl refl refl refl (omega arith)

-- A map shard of key-value shards with one entry of one byte each.
abbrev one_entry : KvShardConfig
one_entry = record { value_size = 1; max_capacity = some 1 }

entry_shards :
    (m : MapShard (KvShard SampleId) KvShardConfig) × (new_map_shard shard_ops world one_entry []
        (stem ++ (underscore ∷ []))
        zeroth
      ≡ ok m)
    × Contains shard_ops (kv_view 1) world 4 1 m [] [] 0
entry_shards =
    new_map_shard-Contains shard_ops (kv_view 1) (kv_laws 1) world 4 world-IsGood one_entry [] stem
      (refl, omega arith) (omega arith) (tt, omega arith, omega arith, omega arith) stem-IsPlain tt

get_element-insert_entry_example :
    (after : MapShard (KvShard SampleId) KvShardConfig) × (index : ℕ) × (insert_rows shard_ops world
        ((97 ∷ []) ∷ [])
        entry_shards.0
      ≡ ok (after, suc index))
    × (Ops.get_element shard_ops after index ≡ ok (97 ∷ []))
get_element-insert_entry_example =
    get_element-insert_entry world 4 world-IsGood 1 1 (omega arith) (97 ∷ []) entry_shards.0 [] [] 0
      entry_shards.2 (omega arith) ((refl, tt), omega arith, omega arith, omega arith)
