-- ===== src/KvShard/Header.antt =====
-- crates/data/src/shard/shards/kv/shard_header.rs: `KvShardHeader`.
use schema_js.Prelude.{ℕ, ◌+◌, ◌^◌, [], ◌++◌, Option, some, ltb, ◌==◌, if◌then◌else◌}
use schema_js.Prelude.Results.{Result, ok, err, panic, ◌>>=◌, expect_some, unwrap_or}
use schema_js.Prelude.Bytes.{Bytes, to_le_bytes, from_le_bytes}
use schema_js.Storage.File.{File, file_len, write_all, write_at}
use schema_js.Storage.Handler.{DataHandler, get_bytes, read_pointer, operate}
use schema_js.Shard.Errors.{ShardErrors}
use schema_js.Uuid.{UuidApi}
use schema_js.DataShard.Header.{u64_size, uuid_byte_len}

pub record KvShardHeader (Uuid : Type 0) : Type 0 where
  pub max_capacity : Option ℕ
  pub items_len : ℕ
  pub value_size : ℕ
  pub id : Uuid

abbrev pub header_size : ℕ
header_size = u64_size + u64_size + u64_size + uuid_byte_len

module _ {Uuid : Type 0} where
  abbrev pub new_header : ℕ → Option ℕ → ℕ → Option Uuid → Uuid → KvShardHeader Uuid
  new_header items_len max_capacity value_size uuid drawn = record {
    max_capacity = max_capacity;
    items_len = items_len;
    value_size = value_size;
    id = unwrap_or uuid drawn;
  }

  abbrev pub incremented :
      KvShardHeader Uuid → File → ℕ → (KvShardHeader Uuid × File) × Result ShardErrors ℕ
  incremented h f len =
      if ltb len (2 ^ 64)
      then ((record h { items_len = len }, write_at f (to_le_bytes len) u64_size), ok len)
      else ((h, f), panic)

  -- The sum is one of `u64`: overflow checks make it panic. The new length goes into the file.
  unfoldable pub increment_len :
      KvShardHeader Uuid → Option ℕ → File → (KvShardHeader Uuid × File) × Result ShardErrors ℕ
  increment_len h len f = incremented h f (h.items_len + unwrap_or len 1)

  module _ ⦃u : UuidApi Uuid⦄ where
    -- The header in front of `rest`.
    abbrev pub header_bytes : ℕ → ℕ → ℕ → Uuid → Bytes → Bytes
    header_bytes max_capacity items_len value_size id rest =
        to_le_bytes max_capacity
        ++ (to_le_bytes items_len ++ (to_le_bytes value_size ++ (u.to_bytes_le id ++ rest)))

    unfoldable pub initialize_empty_file :
        KvShardHeader Uuid
        → DataHandler
        → (KvShardHeader Uuid × DataHandler) × Result ShardErrors (Unit {0})
    initialize_empty_file h d =
        operate
          (λ s f. (
            (
              s,
              write_all f
                  (header_bytes (unwrap_or s.max_capacity 0) s.items_len s.value_size s.id []),
            ),
            ok tt,
          ))
          h d

    unfoldable pub read_header :
        KvShardHeader Uuid → DataHandler → Result ShardErrors (KvShardHeader Uuid)
    read_header h d = do
      max_capacity_bytes ← expect_some (get_bytes d 0 u64_size)
      items_len_bytes ← expect_some (read_pointer d u64_size u64_size)
      value_size_bytes ← expect_some (read_pointer d (u64_size + u64_size) u64_size)
      id_bytes ← expect_some (read_pointer d (u64_size + u64_size + u64_size) uuid_byte_len)
      ok (record h {
        max_capacity = some (from_le_bytes max_capacity_bytes);
        items_len = from_le_bytes items_len_bytes;
        value_size = from_le_bytes value_size_bytes;
        id = u.from_bytes_le id_bytes;
      })

    abbrev created :
        (KvShardHeader Uuid × DataHandler) × Result ShardErrors (Unit {0})
        → Result ShardErrors (KvShardHeader Uuid × DataHandler)
    created (p, ok _) = ok p
    created (p, err e) = panic
    created (p, panic) = panic

    unfoldable pub new_from_file :
        DataHandler
        → Option Uuid
        → Option ℕ
        → Option ℕ
        → ℕ
        → Uuid
        → Result ShardErrors (KvShardHeader Uuid × DataHandler)
    new_from_file d uuid items_len max_capacity value_size drawn =
        let header = new_header (unwrap_or items_len 0) max_capacity value_size uuid drawn in
        if file_len d.file == 0
        then created (initialize_empty_file header d)
        else (read_header header d >>= λ h. ok (h, d))
