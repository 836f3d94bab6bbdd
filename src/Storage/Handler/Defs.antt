-- ===== src/Storage/Handler/Defs.antt =====
-- crates/data/src/data_handler.rs: `DataHandler` and its methods. The locks around it are left out.
use schema_js.Prelude.{ℕ, ◌+◌, List, Option, length, take, get_range}
use schema_js.Prelude.Results.{Result, ok, err, panic}
use schema_js.Prelude.Bytes.{Bytes}
use schema_js.Storage.File.{File, Platform, file_len}

-- A file's name stands for its path in the shard's folder, as a list of character codes.
abbrev pub FileName : Type 0
FileName = List ℕ

-- `map_len` is `mmap.len()`; the shared map shows what the file holds below that length.
pub record DataHandler : Type 0 where
  pub path : FileName
  pub map_len : ℕ
  pub file : File

-- Opening with `create(true)`: a file that is not there is an empty one.
unfoldable pub new_from_path : Platform → FileName → Bytes → DataHandler
new_from_path platform path contents = record {
  path = path;
  map_len = length contents;
  file = record { platform = platform; bytes = contents };
}

-- `mmap[..]`
abbrev pub mapped : DataHandler → Bytes
mapped h = take h.map_len h.file.bytes

unfoldable pub len : DataHandler → ℕ
len h = h.map_len

unfoldable pub get_bytes : DataHandler → ℕ → ℕ → Option Bytes
get_bytes h from to = get_range (mapped h) from to

unfoldable pub read_pointer : DataHandler → ℕ → ℕ → Option Bytes
unfolding get_bytes
read_pointer h start max_bytes = get_bytes h start (start + max_bytes)

abbrev pub remap : DataHandler → File → DataHandler
remap h f = record h { map_len = file_len f; file = f }

module _ {S E A : Type 0} where
  abbrev pub settle : DataHandler → (S × File) × Result E A → (S × DataHandler) × Result E A
  settle h ((s, f), ok a) = ((s, remap h f), ok a)
  settle h ((s, f), err e) = ((s, record h { file = f }), err e)
  settle h ((s, f), panic) = ((s, record h { file = f }), panic)

  -- The callback changes the file and the state `S` that it captures; the map is made anew only
  -- when it returns `Ok`.
  unfoldable pub operate :
      (S → File → (S × File) × Result E A) → S → DataHandler → (S × DataHandler) × Result E A
  operate callback s h = settle h (callback s h.file)
