-- ===== src/TempShard/Collection.antt =====
-- crates/data/src/shard/temp_collection.rs: `TempCollection`, which takes its map shards in turn.
use schema_js.Prelude.{
  ℕ, ◌+◌, ◌%◌, ◌^◌, List, none, some, length, get_elem?, replicate, ◌==◌, if◌then◌else◌, Option, [],
  ◌∷◌,
}
use schema_js.Prelude.Results.{Result, ok, panic, ◌>>=◌}
use schema_js.Prelude.Bytes.{Bytes}
use schema_js.Shard.Errors.{ShardErrors}
use schema_js.Shard.Trait.{Shard}
use schema_js.Uuid.{UuidApi}
use schema_js.Storage.Handler.{FileName}
use schema_js.MapShard.Open.{new_map_shard}
use schema_js.MapShard.Ops.{MapShard, World}
use schema_js.TempShard.Ops.{
  Behind, TempMapShard, new_temp_map_shard, set_at, insert_row, reconcile_all,
}

pub record TempCollection (S Opts X : Type 0) : Type 0 where
  pub target_shard : MapShard S Opts
  pub temps : List (TempMapShard S Opts X)
  pub counter : ℕ

module _ {S Opts X : Type 0} where
  abbrev pub new_temp_collection : MapShard S Opts → ℕ → List ℕ → Opts → TempCollection S Opts X
  new_temp_collection target capacity prefix config = record {
    target_shard = target;
    temps = replicate capacity (new_temp_map_shard prefix config);
    counter = 0;
  }

  -- The index of the next shard, and the counter moved on, which wraps; a remainder by 0 panics.
  unfoldable pub get_next_shard :
      TempCollection S Opts X → Result ShardErrors (TempCollection S Opts X × ℕ)
  get_next_shard c =
      if length c.temps == 0
      then panic
      else ok (record c { counter = (c.counter + 1) % 2 ^ 64 }, c.counter % length c.temps)

module _ {S Opts X Uuid : Type 0} ⦃u : UuidApi Uuid⦄ (ops : Shard S Opts Uuid)
    (w : World Uuid) where
  abbrev pub insert_into :
      TempCollection S Opts X
      → X
      → ℕ
      → Uuid
      → Uuid
      → Bytes
      → Option (TempMapShard S Opts X)
      → Result ShardErrors ((TempCollection S Opts X × X) × Result ShardErrors ℕ)
  insert_into c x index name_id own_id row none = panic
  insert_into c x index name_id own_id row (some t) = do
    ((t', b), r) ←
        insert_row ops w t (record { parent_shard = c.target_shard; captured = x }) name_id own_id
          row
    ok (
      (record c { target_shard = b.parent_shard; temps = set_at c.temps index t' }, b.captured),
      r,
    )

  -- `x` is the state of the callbacks.
  unfoldable pub insert :
      TempCollection S Opts X
      → X
      → Uuid
      → Uuid
      → Bytes
      → Result ShardErrors ((TempCollection S Opts X × X) × Result ShardErrors ℕ)
  insert c x name_id own_id row = do
    (c', index) ← get_next_shard c
    insert_into c' x index name_id own_id row (get_elem? c'.temps index)

  -- The loop over the temporary map shards.
  unfoldable pub reconcile_temps :
      List (TempMapShard S Opts X)
      → Behind S Opts X
      → Result ShardErrors (List (TempMapShard S Opts X) × Behind S Opts X)
  reconcile_temps [] b = ok ([], b)
  reconcile_temps (t ∷ ts) b = do
    (t', b') ← reconcile_all ops w t b
    (ts', b'') ← reconcile_temps ts b'
    ok (t' ∷ ts', b'')

  unfoldable pub reconcile_collection :
      TempCollection S Opts X → X → Result ShardErrors (TempCollection S Opts X × X)
  reconcile_collection c x =
      (reconcile_temps c.temps (record { parent_shard = c.target_shard; captured = x }) >>= λ p.
      ok (record c { temps = p.0; target_shard = p.1.parent_shard }, p.1.captured))

-- crates/data/src/shard/shard_collection.rs: a map shard and the temporary shards in front of it.
pub record ShardCollection (S Opts X : Type 0) : Type 0 where
  pub master : MapShard S Opts
  pub temps : TempMapShard S Opts X

module _ {S Opts X Uuid : Type 0} ⦃u : UuidApi Uuid⦄ (ops : Shard S Opts Uuid)
    (w : World Uuid) where
  -- `ShardCollection::new`, on the names that are in the folder and with the id that is drawn.
  unfoldable pub new_shard_collection :
      List FileName → List ℕ → Opts → Opts → Uuid → Result ShardErrors (ShardCollection S Opts X)
  new_shard_collection names prefix config temp_config id =
      (new_map_shard ops w config names prefix id >>= λ m.
      ok (record { master = m; temps = new_temp_map_shard prefix temp_config }))
