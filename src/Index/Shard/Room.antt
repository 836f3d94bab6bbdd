-- ===== src/Index/Shard/Room.antt =====
-- A current shard that has room: one row is appended to it.
use schema_js.Prelude.{
  ℕ, zero, suc, ◌+◌, ◌*◌, ◌-◌, sym, subst, length-append, ltb, Bool-cases, inl, inr, ◌^◌, ◌<◌, ◌≡◌,
  refl, ap, ◌∙◌, List, [], ◌∷◌, ◌++◌, false, length, take_all, lt→ltb, le→leb, ◌==◌, arith,
}
use schema_js.Prelude.Int.{as_u64, suc_ℤ}
use schema_js.Prelude.Results.{ok, ◌>>=◌}
use schema_js.Prelude.Bytes.{Bytes, IsU64}
use schema_js.Shard.Errors.{AvailableSpace, ShardErrors}
use schema_js.Uuid.{UuidApi}
use schema_js.KvShard.Ops.{
  KvShard, KvShardConfig, shard_ops, last_of, get_last_index, available_space, breaking_point,
  insert_item,
}
use schema_js.KvShard.Layout.{Entries}
use schema_js.KvShard.Insert.{insert_item-Entries}
use schema_js.MapShard.Ops.{
  MapShard, World, is_full, up_to, global_position, insert_into_current, raw_insert_rows,
  insert_rows,
}
use schema_js.MapShard.Grow.{global_position_lem}

counted : (n : ℕ) → n < 2 ^ 63 → as_u64 (suc_ℤ (last_of n)) ≡ n
counted zero h = refl
counted (suc n) h = rw (lt→ltb n (2 ^ 63) (omega arith)) (omega arith)

-- The shard has room for one more entry; a capacity of 0 stands for none.
pub data HasRoom (capacity count : ℕ) : Type 0 where
  unlimited : capacity ≡ 0 → HasRoom capacity count
  limited : count < capacity → HasRoom capacity count

module _ {Uuid : Type 0} ⦃u : UuidApi Uuid⦄ {capacity size : ℕ} {id : Uuid} (s : KvShard Uuid)
    (items : List Bytes) (st : Entries capacity size id s items)
    (small : length items + 1 < 2 ^ 63) where
  record Room : Type 0 where
    space : AvailableSpace
    returns : available_space s ≡ ok space
    open_space : is_full space ≡ false
    takes_one : up_to space 1 ≡ 1

  room : HasRoom capacity (length items) → Room
  unfolding available_space get_last_index
  room (HasRoom.unlimited e) = record {
    space = AvailableSpace.unlimited;
    returns = rw (st.own_capacity, e) refl;
    open_space = refl;
    takes_one = refl;
  }
  room (HasRoom.limited h) =
      let count =
        ap (λ n. as_u64 (suc_ℤ (last_of n))) st.count
        ∙ counted (length items) (omega (arith, small)) in
      let some_capacity : (capacity == 0) ≡ false = ground arith in
      record {
        space = AvailableSpace.fixed (capacity - length items);
        returns =
            rw
              (
                st.own_capacity,
                some_capacity,
                count,
                le→leb (length items) capacity (omega (arith, h)),
              )
              refl;
        open_space = ground arith;
        takes_one = ground arith;
      }

  -- The position in a map shard of the capacity.
  point_position :
      (t : KvShard Uuid) (past n : ℕ)
      → t.max_capacity ≡ capacity
      → IsU64 (past * capacity + n)
      → (position : ℕ) × (global_position {E = ShardErrors} (breaking_point t) past n ≡ ok position)
  unfolding breaking_point global_position
  point_position t past n own word = elim (Bool-cases (ltb 0 capacity)) [
    | inl some_capacity ↦
        (past * capacity + n, rw (own, some_capacity) (global_position_lem capacity past n word))
    | inr no_capacity ↦ (n, rw (own, no_capacity) refl)
  ]

  -- One row is appended to the current shard.
  pub insert_one :
      (w : World Uuid) (m : MapShard (KvShard Uuid) KvShardConfig) (e : Bytes)
      → m.current_master_shard ≡ s
      → HasRoom capacity (length items)
      → length e ≡ size
      → IsU64 (40 + (length items + 1) * size)
      → IsU64 (length m.past_master_shards * capacity + (length items + 1))
      → (position : ℕ) × (insert_rows shard_ops w (e ∷ []) m
          ≡ ok (record m { current_master_shard = (insert_item s (e ∷ [])).0 }, position))
  unfolding insert_rows raw_insert_rows insert_into_current
  insert_one w m e current has_room fits bytes word =
      let r = room has_room in
      let (done, result) =
        insert_item-Entries capacity size id s items (e ∷ []) st (fits, tt) (omega (arith, small))
          bytes in
      let (position, placed) =
        point_position (insert_item s (e ∷ [])).0 (length m.past_master_shards)
          (length (items ++ (e ∷ []))) done.own_capacity
          (subst (λ n. IsU64 (length m.past_master_shards * capacity + n))
            (sym (length-append items (e ∷ []))) word) in
      (
        position,
        rw
            (
              current,
              r.returns,
              ◌>>=◌,
              r.open_space,
              r.takes_one,
              take_all 1 (e ∷ []) (omega arith),
              current,
              result,
              ◌>>=◌,
              placed,
            )
            refl,
      )
