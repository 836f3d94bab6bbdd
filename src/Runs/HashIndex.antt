-- ===== src/Runs/HashIndex.antt =====
-- A hash index that is opened, filled and searched.
use schema_js.Prelude.{
  ℕ, ◌≡◌, ◌≢◌, refl, ap, ◌∙◌, List, [], ◌∷◌, none, replicate, length, map, true, arith,
}
use schema_js.Prelude.Order.{text_cmp, text_cmp-IsOrder}
use schema_js.Prelude.Results.{ok}
use schema_js.Prelude.Bytes.{to_le_bytes, length-to_le_bytes}
use schema_js.Storage.File.{Platform}
use schema_js.MapShard.Ops.{World}
use schema_js.Index.Types.{
  IndexKeySha256, RawIndexValue, from_utf8, index_key_sha256, raw_index_value, IndexKeyType,
}
use schema_js.Index.Shard.State.{Fits}
use schema_js.KvShard.Insert.{insert_item-Entries}
use schema_js.KvShard.Ops.{KvShard, insert_item}
use schema_js.Index.Entry.{get_entry_size, length-build_entry}
use schema_js.Index.Utf8.{is_utf8}
use schema_js.Index.Hash.{HashIndex, new_from_path, get, insert}
use schema_js.Index.Hash.Map.{Stored, Added, IsKey, row_at, get-Stored, insert-Stored}
use schema_js.Index.Hash.Start.{new_from_path-Stored}
use schema_js.Index.Shard.{entry_bytes, raw_binary_search, binary_search}
use schema_js.Index.Shard.Lookup.{Gives, lookup_all, Slot, binary_search-lookup}
use schema_js.Index.Shard.Search.{Searched, raw_binary_search-Searched}
use schema_js.Index.Shard.Room.{HasRoom}
use schema_js.Index.Shard.Insert.{Inserted, insert-Slot}
use schema_js.Runs.Samples.{SampleId, first, sample_uuid, sample_id}
use Prim.Native.Nat.Ordering.{eq}

abbrev world : World SampleId
world = record { platform = Platform.posix; disk = λ path. []; drawn = sample_id }

abbrev key_a : IndexKeySha256
key_a = replicate 64 97

abbrev key_b : IndexKeySha256
key_b = replicate 64 98

key_a-IsKey : IsKey key_a
unfolding is_utf8
key_a-IsKey = record { key_length = refl; utf8 = refl }

key_b-IsKey : IsKey key_b
unfolding is_utf8
key_b-IsKey = record { key_length = refl; utf8 = refl }

new_from_path-Stored_example :
    (h : HashIndex SampleId) × (new_from_path world [] none none first ≡ ok h) × Stored 0 h [] []
new_from_path-Stored_example =
    new_from_path-Stored world refl [] none none first tt refl (omega arith)

-- The index with `key_b`, at row 7.
abbrev pairs : List (IndexKeySha256 × RawIndexValue)
pairs = (key_b, to_le_bytes 7) ∷ []

abbrev new_shard : KvShard SampleId
new_shard = new_from_path-Stored_example.0.index.shards.current_master_shard

abbrev entry_shard : KvShard SampleId
entry_shard = (insert_item new_shard (map (entry_bytes index_key_sha256 raw_index_value) pairs)).0

abbrev index_of_b : HashIndex SampleId
index_of_b = record {
  index = record {
    shards = record {
      current_master_shard = entry_shard;
      past_master_shards = [];
      shard_prefix = [];
      config = record { value_size = 96; max_capacity = none };
    };
    binary_order = true;
    key_size = 64;
    value_size = 8;
  };
}

row-Fits :
    (k : IndexKeySha256) (row : ℕ)
    → IsKey k
    → Fits index_key_sha256 raw_index_value 64 8 (k, to_le_bytes row)
unfolding from_utf8
row-Fits k row is_key = record {
  key_length = is_key.key_length;
  value_length = length-to_le_bytes row;
  key_back = rw is_key.utf8 refl;
  value_back = refl;
}

entry_size : length (entry_bytes index_key_sha256 raw_index_value (key_b, to_le_bytes 7)) ≡ 96
entry_size =
    length-build_entry key_b (to_le_bytes 7) ∙ ap (λ n. get_entry_size 64 n) (length-to_le_bytes 7)

a_before_b : text_cmp key_a key_b ≢ eq
unfolding text_cmp
a_before_b e = cc

b_is_not_a : key_b ≢ key_a
b_is_not_a e = a_before_b (ap (λ k. text_cmp key_a k) e ∙ text_cmp-IsOrder.cmp_self key_a)

entry-Slot : Slot index_key_sha256 raw_index_value 64 8 0 entry_shard pairs
entry-Slot =
    let empty = new_from_path-Stored_example.2.slot in
    record {
      id = empty.id;
      stores = record {
        stored =
            (insert_item-Entries 0 96 empty.id new_shard []
              (map (entry_bytes index_key_sha256 raw_index_value) pairs) empty.stores.stored
              (entry_size, tt) (omega arith) (omega arith)).0;
        fits = (row-Fits key_b 7 key_b-IsKey, tt);
      };
      sorted = (tt, tt);
      distinct = (tt, tt);
      small = omega arith;
    }

entry_Stored : Stored 0 index_of_b pairs []
entry_Stored = record {
  key_size = refl;
  ordered = refl;
  slot = entry-Slot;
  slots = tt;
  alone = λ e. refl;
}

get-Stored_example : get index_of_b (IndexKeyType.sha256 key_b) ≡ ok (row_at pairs [] key_b)
get-Stored_example = get-Stored 0 index_of_b pairs [] key_b entry_Stored

insert-Stored_example :
    (h' : HashIndex SampleId) × (insert world index_of_b (IndexKeyType.sha256 key_a) 5 ≡ ok h')
    × Added 0 index_of_b h' pairs [] key_a 5
insert-Stored_example =
    insert-Stored 0 world index_of_b pairs [] key_a 5 entry_Stored key_a-IsKey (omega arith)
      (b_is_not_a, tt) (HasRoom.unlimited refl) (omega arith) (omega arith) (omega arith)

raw_binary_search-Searched_example :
    Searched index_key_sha256 pairs key_a
      (raw_binary_search index_key_sha256 raw_index_value index_of_b.index entry_shard key_a)
raw_binary_search-Searched_example =
    raw_binary_search-Searched index_key_sha256 raw_index_value text_cmp-IsOrder pairs
      index_of_b.index refl entry-Slot.stores key_a (omega arith)

binary_search-lookup_example :
    Gives
      (binary_search index_key_sha256 raw_index_value index_of_b.index key_a)
      (lookup_all index_key_sha256 (pairs ∷ []) key_a)
binary_search-lookup_example =
    binary_search-lookup index_key_sha256 raw_index_value 64 8 0 text_cmp-IsOrder index_of_b.index
      refl key_a pairs [] entry-Slot tt (λ e. refl)

insert-Slot_example :
    Inserted index_key_sha256 raw_index_value text_cmp-IsOrder 64 8 0 world index_of_b.index pairs
      (key_a, to_le_bytes 3)
insert-Slot_example =
    insert-Slot index_key_sha256 raw_index_value text_cmp-IsOrder 64 8 0 world index_of_b.index
      pairs (key_a, to_le_bytes 3) refl refl entry-Slot (row-Fits key_a 3 key_a-IsKey)
      (a_before_b, tt) (HasRoom.unlimited refl) (omega arith) (omega arith) (omega arith)
