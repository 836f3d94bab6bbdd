-- ===== src/Runs/Shards.antt =====
-- Data shards: the repository's test on a small shard, and the theorems at inputs.
use schema_js.Prelude.{◌+◌, ◌≡◌, refl, List, [], ◌∷◌, some, none, length, flatten, arith}
use schema_js.Prelude.Int.{negsuc}
use schema_js.Prelude.Results.{ok}
use schema_js.Prelude.Bytes.{Bytes, IsU64}
use schema_js.Storage.File.{Platform}
use schema_js.DataShard.Ops.{
  DataShard, open_shard, insert_item, read_item_from_index, get_last_index,
}
use schema_js.DataShard.Layout.{Stored, Stored-length}
use schema_js.DataShard.Insert.{insert_item-Stored}
use schema_js.DataShard.Read.{read_item_from_index-Stored}
use schema_js.DataShard.Unused.{read_item_from_index-unused}
use schema_js.DataShard.Open.{front_of, fresh_shard, fresh_shard-Stored, open_shard_new}
use schema_js.DataShard.Reopen.{open_shard-forgets}
use schema_js.Runs.Samples.{SampleId, first, second, sample_uuid}

-- "Hi", "" and "ok!"
abbrev words : List Bytes
words = (72 ∷ 105 ∷ []) ∷ [] ∷ (111 ∷ 107 ∷ 33 ∷ []) ∷ []

abbrev small_shard : DataShard SampleId
small_shard = fresh_shard [] 5 first

small_shard-Stored : Stored (front_of 5 first) 5 small_shard []
small_shard-Stored = fresh_shard-Stored [] 5 first (omega arith)

words-fit : IsU64 (length small_shard.data_handler.file.bytes + length (flatten words))
words-fit = omega (arith, Stored-length [] small_shard-Stored)

-- `new` at an empty path, as the program runs it.
open_small :
    open_shard Platform.posix [] [] (record { max_offsets = some 5 }) (some first) second
    ≡ ok small_shard
open_small = open_shard_new [] (record { max_offsets = some 5 }) (some first) second

insert_item-Stored_example :
    Stored (front_of 5 first) 2 (insert_item small_shard words).0 words
    × ((insert_item small_shard words).1 ≡ ok 2)
insert_item-Stored_example = insert_item-Stored [] words 2 small_shard-Stored words-fit

read_item_from_index-Stored_example :
    read_item_from_index (insert_item small_shard words).0 2 ≡ ok (111 ∷ 107 ∷ 33 ∷ [])
read_item_from_index-Stored_example =
    read_item_from_index-Stored words 2 insert_item-Stored_example.0 refl

read_item_from_index-unused_example :
    read_item_from_index (insert_item small_shard words).0 3
    ≡ ok (insert_item small_shard words).0.data_handler.file.bytes
read_item_from_index-unused_example =
    read_item_from_index-unused words 3 insert_item-Stored_example.0 (omega arith) (omega arith)

open_shard-forgets_example :
    (t : DataShard SampleId) × (open_shard Platform.posix []
        (insert_item small_shard words).0.data_handler.file.bytes
        (record { max_offsets = some 5 })
        none
        second
      ≡ ok t)
    × (t.id ≡ first)
    × (get_last_index t ≡ negsuc 0)
    × (read_item_from_index t 0 ≡ read_item_from_index (insert_item small_shard words).0 0)
open_shard-forgets_example =
    open_shard-forgets first words insert_item-Stored_example.0 [] (record { max_offsets = some 5 })
      none second 0
