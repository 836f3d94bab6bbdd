-- ===== src/DataShard/Reopen.antt =====
-- Opening the file of a data shard again.
use schema_js.Prelude.{ℕ, ◌+◌, ◌<◌, ◌≡◌, refl, sym, List, Option, false, length, arith, ◌==◌}
use schema_js.Prelude.Int.{negsuc}
use schema_js.Prelude.Results.{ok, unwrap_or}
use schema_js.Prelude.Bytes.{Bytes}
use schema_js.Storage.File.{Platform}
use schema_js.Storage.Handler.{FileName, new_from_path, get_bytes, len, read_pointer}
use schema_js.Uuid.{UuidApi}
use schema_js.DataShard.Config.{DataShardConfig}
use schema_js.DataShard.Header.{
  default_max_offsets, get_offset_pos_by_index, new_header, new_from_file,
  get_offset_value_from_offset_header,
}
use schema_js.DataShard.Ops.{DataShard, open_shard, get_last_index, read_item, read_item_from_index}
use schema_js.DataShard.Layout.{data_start, Stored, Stored-length}
use schema_js.DataShard.Open.{front_of, read_header_lem}

==_pos : (n : ℕ) → 0 < n → (n == 0) ≡ false
==_pos n h = ground arith

-- What opening a file with items gives: the index of the last one is forgotten.
abbrev pub reopened : {Uuid : Type 0} → FileName → ℕ → Uuid → Bytes → DataShard Uuid
reopened path max_offsets id contents = record {
  path = path;
  header = record {
    max_offsets = max_offsets;
    last_offset_index = negsuc 0;
    max_offset_positions = data_start max_offsets;
    id = id;
  };
  data_handler = record {
    path = path;
    map_len = length contents;
    file = record { platform = Platform.posix; bytes = contents };
  };
  id = id;
}

module _ {Uuid : Type 0} ⦃u : UuidApi Uuid⦄ {free : ℕ} {s : DataShard Uuid} (id : Uuid)
    (items : List Bytes) where
  module _ (st : Stored (front_of (length items + free) id) free s items) where
    pub open_shard_again :
        (path : FileName) (opts : DataShardConfig) (uuid : Option Uuid) (drawn : Uuid)
        → open_shard Platform.posix path s.data_handler.file.bytes opts uuid drawn
          ≡ ok (reopened path (length items + free) id s.data_handler.file.bytes)
    unfolding open_shard new_from_file new_from_path
    open_shard_again path opts uuid drawn =
        let max_offsets = length items + free in
        let size = Stored-length items st in
        rw (
          ==_pos (length s.data_handler.file.bytes) (omega arith),
          read_header_lem (new_header (unwrap_or opts.max_offsets default_max_offsets) uuid drawn)
              (new_from_path Platform.posix path s.data_handler.file.bytes) max_offsets id _ refl
              (omega (arith, st.small)) st.layout,
        )

    reopened_reads :
        (path : FileName) (index : ℕ)
        → read_item_from_index
            (reopened path (length items + free) id s.data_handler.file.bytes)
            index
          ≡ read_item_from_index s index
    unfolding read_item_from_index read_item get_offset_pos_by_index
        get_offset_value_from_offset_header read_pointer get_bytes len
    reopened_reads path index = λ i.
        read_item_from_index
          (record s {
            header = record s.header { max_offset_positions = sym st.positions i };
            data_handler = record s.data_handler {
              map_len = sym st.synced i;
              file = record s.data_handler.file { platform = sym st.on_posix i };
            };
          })
          index

    -- A shard opened again on the file of one that was in use has the same id and answers every
    -- read as before, but takes itself for empty: its last index is -1.
    pub open_shard-forgets :
        (path : FileName) (opts : DataShardConfig) (uuid : Option Uuid) (drawn : Uuid) (index : ℕ)
        → (t : DataShard Uuid) × (open_shard Platform.posix path s.data_handler.file.bytes opts uuid
              drawn
            ≡ ok t)
          × (t.id ≡ id)
          × (get_last_index t ≡ negsuc 0)
          × (read_item_from_index t index ≡ read_item_from_index s index)
    open_shard-forgets path opts uuid drawn index = (
      reopened path (length items + free) id s.data_handler.file.bytes,
      open_shard_again path opts uuid drawn,
      refl,
      refl,
      reopened_reads path index,
    )
