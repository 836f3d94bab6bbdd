-- ===== src/Index/Hash/Start.antt =====
-- `HashIndex::new_from_path` in a folder without the index's files.
use schema_js.Prelude.{ℕ, ◌≡◌, refl, List, [], Option, some, true, false, All, arith}
use schema_js.Prelude.Results.{ok, unwrap_or}
use schema_js.Prelude.Bytes.{IsU64}
use schema_js.Storage.File.{Platform}
use schema_js.Storage.Handler.{FileName}
use schema_js.Uuid.{UuidApi}
use schema_js.KvShard.Ops.{KvShardConfig}
use schema_js.KvShard.Open.{open_shard_new}
use schema_js.MapShard.Names.{generate_shard_name}
use schema_js.MapShard.Ops.{World}
use schema_js.MapShard.Open.{
  starts_with, signatures, sort_by_number, open_past_shards, new_map_shard,
}
use schema_js.MapShard.Start.{none_with_prefix}
use schema_js.Index.Entry.{get_entry_size}
use schema_js.Index.Shard.{index_prefix, new_index_shard}
use schema_js.Index.Hash.{
  HashIndex, hash_index_key_size, hash_index_value_size, default_index_name, new_from_path,
}
use schema_js.Index.Hash.Map.{Stored}

module _ {Uuid : Type 0} ⦃u : UuidApi Uuid⦄ (w : World Uuid)
    (on_posix : w.platform ≡ Platform.posix) where
  -- Opening a hash index in a folder without files of its name, where the first file is empty and
  -- the capacity has 64 bits, gives an index without entries that stores what it should.
  pub new_from_path-Stored :
      (names : List FileName) (index_name : Option (List ℕ)) (capacity : Option ℕ) (id : Uuid)
      → (let prefix = index_prefix (unwrap_or index_name default_index_name) in
          All (λ name. starts_with name prefix ≡ false) names)
      → w.disk (generate_shard_name (index_prefix (unwrap_or index_name default_index_name)) id 0)
        ≡ []
      → IsU64 (unwrap_or capacity 0)
      → (h : HashIndex Uuid) × (new_from_path w names index_name capacity id ≡ ok h)
        × Stored (unwrap_or capacity 0) h [] []
  unfolding new_from_path new_index_shard new_map_shard signatures sort_by_number open_past_shards
  new_from_path-Stored names index_name capacity id no_files empty_disk fits =
      let prefix = index_prefix (unwrap_or index_name default_index_name) in
      let path = generate_shard_name prefix id 0 in
      let config : KvShardConfig = record {
        value_size = get_entry_size hash_index_key_size hash_index_value_size;
        max_capacity = capacity;
      } in
      let (s, opened, held, at) = open_shard_new path config (some id) id fits (omega arith) in
      (
        record {
          index = record {
            shards = record {
              current_master_shard = s;
              past_master_shards = [];
              shard_prefix = prefix;
              config = config;
            };
            binary_order = true;
            key_size = hash_index_key_size;
            value_size = hash_index_value_size;
          };
        },
        rw (none_with_prefix names prefix no_files, on_posix, empty_disk, opened) refl,
        record {
          key_size = refl;
          ordered = refl;
          slot = record {
            id = id;
            stores = record { stored = held; fits = tt };
            sorted = tt;
            distinct = tt;
            small = omega arith;
          };
          slots = tt;
          alone = λ e. refl;
        },
      )
