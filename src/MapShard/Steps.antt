-- ===== src/MapShard/Steps.antt =====
-- One call of `raw_insert_rows`, by what its parts return.
use schema_js.Prelude.{
  ℕ, suc, ◌+◌, ◌<◌, ◌≤◌, ◌≡◌, List, Bool, true, false, length, take, drop, take_all, min, le→ltb,
  lt→ltb, arith,
}
use schema_js.Prelude.Results.{ok, ◌>>=◌, in_usize_lem}
use schema_js.Prelude.Bytes.{Bytes, IsU64}
use schema_js.Shard.Errors.{AvailableSpace, ShardErrors}
use schema_js.Shard.Trait.{Shard}
use schema_js.Uuid.{UuidApi}
use schema_js.MapShard.Ops.{
  MapShard, World, create_if, is_full, insert_into_current, raw_insert_rows,
}

module _ {S Opts Uuid : Type 0} ⦃u : UuidApi Uuid⦄ (ops : Shard S Opts Uuid) (w : World Uuid) where
  module _ (fuel : ℕ) (items : List Bytes) (create : Bool) (m m₁ : MapShard S Opts) (size : ℕ)
      (made : create_if ops w create m ≡ ok m₁)
      (space : ops.available_space m₁.current_master_shard ≡ ok (AvailableSpace.fixed size)) where
    pub step_full :
        size ≡ 0
        → raw_insert_rows ops w (suc fuel) items create m ≡ raw_insert_rows ops w fuel items true m₁
    unfolding raw_insert_rows
    step_full e = rw (made, space, e)

    pub step_done :
        (m₂ : MapShard S Opts) (position : ℕ)
        → 0 < size
        → length items ≤ size
        → insert_into_current ops w m₁ items ≡ ok (m₂, position)
        → raw_insert_rows ops w (suc fuel) items create m ≡ ok (m₂, position)
    unfolding raw_insert_rows
    step_done m₂ position h all e =
        let whole : min size (length items) ≡ length items = omega arith in
        let open_size : is_full (AvailableSpace.fixed size) ≡ false = ground arith in
        rw (
          made,
          space,
          ◌>>=◌,
          open_size,
          whole,
          take_all (length items) items (omega arith),
          e,
          le→ltb (length items) (length items) (omega arith),
        )

    pub step_more :
        (m₂ m₃ : MapShard S Opts) (position remaining : ℕ)
        → 0 < size
        → size < length items
        → insert_into_current ops w m₁ (take size items) ≡ ok (m₂, position)
        → raw_insert_rows ops w fuel (drop size items) true m₂ ≡ ok (m₃, remaining)
        → IsU64 (position + remaining)
        → raw_insert_rows ops w (suc fuel) items create m ≡ ok (m₃, position + remaining)
    unfolding raw_insert_rows
    step_more m₂ m₃ position remaining h more e f word =
        let part : min size (length items) ≡ size = omega arith in
        let open_size : is_full (AvailableSpace.fixed size) ≡ false = ground arith in
        rw (
          made,
          space,
          ◌>>=◌,
          open_size,
          part,
          e,
          lt→ltb size (length items) more,
          part,
          f,
          in_usize_lem {E = ShardErrors} (position + remaining) word,
        )
