-- ===== src/MapShard/Count.antt =====
-- How many shards a map shard makes.
use schema_js.Prelude.{
  ℕ, ◌+◌, ◌*◌, ◌-◌, ◌/◌, ◌<◌, ◌≤◌, ◌≡◌, sym, ap, ◌∙◌, List, ◌++◌, length, length-append,
  length-flatten, flatten, arith,
}
use schema_js.Prelude.Results.{ok}
use schema_js.Prelude.Bytes.{Bytes}
use schema_js.Shard.Trait.{Shard}
use schema_js.Shard.Laws.{ShardView, ShardLaws}
use schema_js.Uuid.{UuidApi}
use schema_js.MapShard.Ops.{MapShard, World, insert_rows}
use schema_js.MapShard.State.{IsGood, Contains, Pasts-lengths, length-Pasts}
use schema_js.MapShard.Insert.{insert_rows-used}
use native.Mathlib.Nat.{div-eq_of_lt-le}

module _ {S Opts Uuid : Type 0} ⦃u : UuidApi Uuid⦄ (ops : Shard S Opts Uuid) (v : ShardView S Opts)
    (laws : ShardLaws ops v) (w : World Uuid) (limit : ℕ) (good : IsGood w limit) (k : ℕ)
    (some_room : 0 < k) where
  -- After at least one row was inserted, and if positions have 64 bits, there are no more shards
  -- than the rows need: the number of past shards is that of all rows but one, divided by the
  -- capacity of a shard.
  pub insert_rows-shards :
      (rows : List Bytes) (m : MapShard S Opts) (chunks : List (List Bytes)) (current : List Bytes)
      (number : ℕ)
      → Contains ops v w limit k m chunks current number
      → number + length rows + 1 ≤ limit
      → v.Small k (flatten chunks ++ (current ++ rows))
      → 0 < length rows
      → (after : MapShard S Opts) × (position : ℕ) × (insert_rows ops w rows m
          ≡ ok (after, position))
        × (length after.past_master_shards
            ≡ (length (flatten chunks) + length current + length rows - 1) / k)
  insert_rows-shards rows m chunks current number c fits small some_rows =
      let (o, last) =
        insert_rows-used ops v laws w limit good k some_room rows m chunks current number c fits
          some_rows small in
      let past = o.after.past_master_shards in
      let count = length-Pasts ops v w limit k past o.chunks o.contains.past in
      let full =
        length-flatten k o.chunks (Pasts-lengths ops v w limit k past o.chunks o.contains.past) in
      let within = laws.within k o.after.current_master_shard o.current o.contains.holds in
      let total : length (flatten o.chunks) + length o.current
          ≡ length (flatten chunks) + length current + length rows =
        omega (
          arith,
          ap length o.items,
          length-append (flatten o.chunks) o.current,
          length-append (flatten chunks) (current ++ rows),
          length-append current rows,
        ) in
      let all = length (flatten chunks) + length current + length rows in
      let whole : (length o.chunks + 1) * k ≡ length o.chunks * k + k = omega arith in
      let shards : (all - 1) / k ≡ length o.chunks =
        div-eq_of_lt-le {k = length o.chunks} k (omega (arith, full, total, last))
          (omega (arith, full, total, last, within, whole)) in
      (o.after, o.position, o.returns, count ∙ sym shards)
