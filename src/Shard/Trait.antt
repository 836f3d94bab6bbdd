-- ===== src/Shard/Trait.antt =====
-- crates/data/src/shard/mod.rs: the trait `Shard`, as a record of operations on a state `S`.
use schema_js.Prelude.{ℕ, Bool, List, Option}
use schema_js.Prelude.Int.{ℤ}
use schema_js.Prelude.Results.{Result}
use schema_js.Prelude.Bytes.{Bytes}
use schema_js.Storage.File.{Platform}
use schema_js.Storage.Handler.{FileName}
use schema_js.Shard.Errors.{ShardErrors, AvailableSpace}

-- `open` is the trait's `new`; beside the arguments of the source it is given the platform, what
-- the file at the path holds, and the id that `Uuid::new_v4` would draw.
pub record Shard (S Opts Uuid : Type 0) : Type 0 where
  pub open_shard : Platform → FileName → Bytes → Opts → Option Uuid → Uuid → Result ShardErrors S
  pub has_space : S → Bool
  pub breaking_point : S → Option ℕ
  pub get_path : S → FileName
  pub get_last_index : S → ℤ
  pub read_item_from_index : S → ℕ → Result ShardErrors Bytes
  pub available_space : S → Result ShardErrors AvailableSpace
  pub insert_item : S → List Bytes → S × Result ShardErrors ℕ
