-- ===== src/MapShard/Ops.antt =====
-- crates/data/src/shard/map_shard.rs: `MapShard`, generic in the kind of shard.
use schema_js.Prelude.{
  ℕ, zero, suc, ◌+◌, ◌*◌, ◌/◌, ◌%◌, List, [], ◌∷◌, ◌++◌, Bool, true, false, Option, none, some, map,
  length, take, drop, get_elem?, min, ltb, ◌==◌, ◌&&◌, if◌then◌else◌,
}
use schema_js.Prelude.Results.{Result, ok, err, panic, ◌>>=◌, expect_some, in_usize, unwrap}
use schema_js.Prelude.Bytes.{Bytes}
use schema_js.Storage.File.{Platform}
use schema_js.Storage.Handler.{FileName}
use schema_js.Shard.Errors.{ShardErrors, AvailableSpace}
use schema_js.Shard.Trait.{Shard}
use schema_js.Uuid.{UuidApi}
use schema_js.MapShard.Names.{extract_shard_signature, generate_shard_name}
use mathlib.Core.List.{reverse}

-- `past_master_shards` is an `IndexMap` from ids to shards: a list in the order of insertion.
pub record MapShard (S Opts : Type 0) : Type 0 where
  pub current_master_shard : S
  pub past_master_shards : List (List ℕ × S)
  pub shard_prefix : List ℕ
  pub config : Opts

-- What the outside supplies: the platform, what the files not yet open hold, and the id that
-- `Uuid::new_v4` draws for the shard of each number.
pub record World (Uuid : Type 0) : Type 0 where
  pub platform : Platform
  pub disk : FileName → Bytes
  pub drawn : ℕ → Uuid

abbrev pub text_eq : List ℕ → List ℕ → Bool
text_eq [] [] = true
text_eq [] (d ∷ ds) = false
text_eq (c ∷ cs) [] = false
text_eq (c ∷ cs) (d ∷ ds) = c == d && text_eq cs ds

-- `IndexMap::insert`: a key that is there keeps its place and gets the new value.
unfoldable pub index_map_insert : {V : Type 0} → List ℕ → V → List (List ℕ × V) → List (List ℕ × V)
index_map_insert key v [] = (key, v) ∷ []
index_map_insert key v ((k, w) ∷ rest) =
    if text_eq k key then (key, v) ∷ rest else (k, w) ∷ index_map_insert key v rest

-- `up_to`: how many of the items go into the current shard.
abbrev pub up_to : AvailableSpace → ℕ → ℕ
up_to (AvailableSpace.fixed size) count = min size count
up_to AvailableSpace.unlimited count = count

abbrev pub is_full : AvailableSpace → Bool
is_full (AvailableSpace.fixed size) = size == 0
is_full AvailableSpace.unlimited = false

-- `items_pos`, from the breaking point, the number of past shards and the index in the shard.
unfoldable pub global_position : {E : Type 0} → Option ℕ → ℕ → ℕ → Result E ℕ
global_position none past local_index = ok local_index
global_position (some breaking_point) past local_index =
    (in_usize (past * breaking_point) >>= λ curr_items. in_usize (curr_items + local_index))

module _ {S Opts Uuid : Type 0} ⦃u : UuidApi Uuid⦄ (ops : Shard S Opts Uuid) (w : World Uuid) where
  -- The first part of `raw_insert_rows`, when `create_new_shard` is set.
  unfoldable pub create_new_shard : MapShard S Opts → Result ShardErrors (MapShard S Opts)
  create_new_shard m = do
    (shard_number, shard_id, _) ←
        expect_some (extract_shard_signature (ops.get_path m.current_master_shard))
    let number = shard_number + 1
    let id = w.drawn number
    let path = generate_shard_name m.shard_prefix id number
    shard ← ops.open_shard w.platform path (w.disk path) m.config (some id) id
    ok (record m {
      current_master_shard = shard;
      past_master_shards = index_map_insert shard_id m.current_master_shard m.past_master_shards;
    })

  abbrev pub create_if : Bool → MapShard S Opts → Result ShardErrors (MapShard S Opts)
  create_if true m = create_new_shard m
  create_if false m = ok m

  -- `insert_item` on the current shard, unwrapped.
  unfoldable pub insert_into_current :
      MapShard S Opts → List Bytes → Result ShardErrors (MapShard S Opts × ℕ)
  insert_into_current m items =
      let (shard, r) = ops.insert_item m.current_master_shard items in
      (unwrap r >>= λ local_index.
      global_position (ops.breaking_point shard) (length m.past_master_shards) local_index
      >>= λ items_pos. ok (record m { current_master_shard = shard }, items_pos))

  -- The recursion is bounded by `fuel`; without it the program would overflow its stack.
  unfoldable pub raw_insert_rows :
      ℕ → List Bytes → Bool → MapShard S Opts → Result ShardErrors (MapShard S Opts × ℕ)
  raw_insert_rows zero items create m = panic
  raw_insert_rows (suc fuel) items create m = do
    m' ← create_if create m
    space ← ops.available_space m'.current_master_shard
    elim (is_full space) [
      | true ↦ raw_insert_rows fuel items true m'
      | false ↦
          (insert_into_current m' (take (up_to space (length items)) items) >>= λ inserted.
          elim (ltb (up_to space (length items)) (length items)) [
            | true ↦
                (raw_insert_rows fuel (drop (up_to space (length items)) items) true inserted.0
                  >>= λ remaining. in_usize (inserted.1 + remaining.1) >>= λ items_pos.
                      ok (remaining.0, items_pos))
            | false ↦ ok inserted
          ])
    ]

  -- Each item may need a new shard, and finding the current one full takes one more call.
  unfoldable pub insert_rows :
      List Bytes → MapShard S Opts → Result ShardErrors (MapShard S Opts × ℕ)
  insert_rows items m = raw_insert_rows (length items + 2) items false m

module _ {S Opts Uuid : Type 0} (ops : Shard S Opts Uuid) where
  abbrev pub shards_reversed : MapShard S Opts → List S
  shards_reversed m = reverse (map (λ p. p.1) m.past_master_shards) ++ (m.current_master_shard ∷ [])

  abbrev pub element_of : Option S → ℕ → Result ShardErrors Bytes
  element_of none local_index = err ShardErrors.out_of_range
  element_of (some shard) local_index = ops.read_item_from_index shard local_index

  -- Division by a breaking point of 0 panics.
  unfoldable pub get_element : MapShard S Opts → ℕ → Result ShardErrors Bytes
  get_element m index = elim (ops.breaking_point m.current_master_shard) [
    | none ↦ ops.read_item_from_index m.current_master_shard index
    | some breaking_point ↦
        if breaking_point == 0
        then panic
        else element_of (get_elem? (shards_reversed m) (index / breaking_point))
            (index % breaking_point)
  ]

  unfoldable pub get_element_from_master : MapShard S Opts → ℕ → Result ShardErrors Bytes
  get_element_from_master m index = ops.read_item_from_index m.current_master_shard index
