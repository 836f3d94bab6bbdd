-- ===== src/Runs/Temps.antt =====
-- Temporary shards in front of a map shard, and their theorems at inputs.
use schema_js.Prelude.{ℕ, ◌<◌, ◌≡◌, refl, List, [], ◌∷◌, ◌++◌, some, length, flatten, false, arith}
use schema_js.Prelude.Results.{Result, ok, ◌>>=◌, unwrap}
use schema_js.DataShard.Config.{DataShardConfig}
use schema_js.DataShard.Ops.{DataShard, has_space, shard_ops}
use schema_js.DataShard.Laws.{has_space-HoldsData, HoldsData, data_view, data_laws}
use schema_js.MapShard.Ops.{MapShard, insert_rows}
use schema_js.MapShard.Count.{insert_rows-shards}
use schema_js.TempShard.Ops.{DataWithIndex, TempMapShard, call_on_reconcile, insert_row}
use schema_js.TempShard.Insert.{in_first}
use schema_js.TempShard.Collection.{TempCollection, get_next_shard, new_temp_collection}
use schema_js.TempShard.Collection
use schema_js.Query.Stored.{after_turn, insert_turn}
use schema_js.TempShard.Moves.{Gained, reports}
use schema_js.TempShard.Reconcile.{with_parent}
use schema_js.TempShard.Full.{insert_row-full}
use schema_js.TempShard.Turns.{none_yet, one_more, get_next_shard-turn}
use schema_js.Runs.Maps.{
  world, world-IsGood, one_slot, stem, opened, filled, filled-HoldsData, two, two-Contains, row,
  three, three-Contains,
}
use schema_js.Runs.Samples.{SampleId, sample_uuid, fourth, first}

insert_rows-shards_example :
    (after : MapShard (DataShard SampleId) DataShardConfig) × (position : ℕ) × (insert_rows
        shard_ops world
        (row ∷ [])
        three
      ≡ ok (after, position))
    × (length after.past_master_shards ≡ 3)
insert_rows-shards_example =
    insert_rows-shards shard_ops data_view data_laws world 4 world-IsGood 1 (omega arith) (row ∷ [])
      three (((49 ∷ []) ∷ []) ∷ ((50 ∷ 50 ∷ []) ∷ []) ∷ []) (row ∷ []) 2 three-Contains
      (omega arith) (omega arith) (omega arith)

-- A callback that remembers what it is told, and a full temporary shard.
abbrev Seen : Type 0
Seen = List DataWithIndex

abbrev remember : List DataWithIndex → Seen → Result (Unit {0}) Seen
remember items seen = ok (seen ++ items)

abbrev full_one : TempMapShard (DataShard SampleId) DataShardConfig Seen
full_one = record {
  prefix = stem;
  temp_shards = filled 0 (49 ∷ []) ∷ [];
  config = one_slot;
  on_reconcile = some remember;
}

full_one-full : has_space (filled 0 (49 ∷ [])) ≡ false
full_one-full =
    has_space-HoldsData 1 (filled 0 (49 ∷ [])) ((49 ∷ []) ∷ [])
      (filled-HoldsData 0 (49 ∷ []) (omega arith)) (omega arith)

insert_row-full_example :
    (after : MapShard (DataShard SampleId) DataShardConfig) × (s' : DataShard SampleId) × Gained
      shard_ops data_view world 4 1
      (flatten (((49 ∷ []) ∷ []) ∷ []) ++ (row ∷ []))
      ((49 ∷ []) ∷ [])
      2
      after
    × HoldsData 1 s' (row ∷ [])
    × ((x : Seen)
        → insert_row shard_ops world full_one (with_parent two x) fourth first row ≡ (
            unwrap (
              call_on_reconcile
                (some remember)
                (reports (length (flatten (((49 ∷ []) ∷ []) ∷ []) ++ (row ∷ []))) ((49 ∷ []) ∷ []))
                x)
            >>= λ x'. ok ((record full_one { temp_shards = s' ∷ [] }, with_parent after x'), ok 0)))
insert_row-full_example =
    insert_row-full shard_ops data_view data_laws world 4 world-IsGood 1 (omega arith) (λ n. refl)
      full_one [] (filled 0 (49 ∷ [])) ((49 ∷ []) ∷ []) row fourth first two (((49 ∷ []) ∷ []) ∷ [])
      (row ∷ []) 2 refl (full_one-full, tt) (filled-HoldsData 0 (49 ∷ []) (omega arith)) tt
      (omega arith) (omega arith) refl two-Contains (omega arith) (omega arith)

-- Two temporary map shards, one of which has a row.
abbrev collection : TempCollection (DataShard SampleId) DataShardConfig Seen
collection = record {
  target_shard = two;
  temps = full_one ∷ record full_one { temp_shards = [] } ∷ [];
  counter = 5;
}

-- Two temporary map shards with an empty shard each; the first one has its turn in one insertion.
abbrev empty_one : TempMapShard (DataShard SampleId) DataShardConfig Seen
empty_one = record full_one { temp_shards = (opened 1).0 ∷ [] }

abbrev waiting_two : TempCollection (DataShard SampleId) DataShardConfig Seen
waiting_two = record collection { temps = empty_one ∷ empty_one ∷ [] }

one_turn :
    (s' : DataShard SampleId) × (position : ℕ) × (Collection.insert shard_ops world waiting_two []
        fourth first row
      ≡ ok ((after_turn waiting_two empty_one (s' ∷ []), []), ok position))
    × HoldsData 1 s' (row ∷ [])
one_turn =
    insert_turn world waiting_two [] fourth first row empty_one [] [] 1 [] refl
      (in_first [] (opened 1).0 [] 1 [] refl tt
        (has_space-HoldsData 1 (opened 1).0 [] (opened 1).2 (omega arith)) (opened 1).2
        (omega arith))
      (omega arith, omega arith)

get_next_shard-turn_example :
    (1 < 2)
    × (later : TempCollection (DataShard SampleId) DataShardConfig Seen) × (get_next_shard
          (after_turn waiting_two empty_one (one_turn.0 ∷ []))
        ≡ ok (later, 0))
get_next_shard-turn_example =
    get_next_shard-turn shard_ops world waiting_two
      (after_turn waiting_two empty_one (one_turn.0 ∷ [])) 0 (omega arith) (omega arith)
      (one_more 0 waiting_two (after_turn waiting_two empty_one (one_turn.0 ∷ []))
        (after_turn waiting_two empty_one (one_turn.0 ∷ [])) [] [] fourth first row (ok one_turn.1)
        one_turn.2 (none_yet (after_turn waiting_two empty_one (one_turn.0 ∷ []))))
