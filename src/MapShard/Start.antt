-- ===== src/MapShard/Start.antt =====
-- A map shard on a folder without shards starts out empty.
use schema_js.Prelude.{ℕ, ◌<◌, ◌≡◌, refl, ap, ◌∙◌, List, [], ◌∷◌, ◌++◌, some, false, All, arith}
use schema_js.Prelude.Results.{ok}
use schema_js.Storage.Handler.{FileName}
use schema_js.Shard.Trait.{Shard}
use schema_js.Shard.Laws.{ShardView, ShardLaws}
use schema_js.Uuid.{UuidApi, IsPlain, underscore}
use schema_js.MapShard.Names.{extract_shard_signature, generate_shard_name}
use schema_js.MapShard.Names.RoundTrip.{extract_shard_signature-generate_shard_name}
use schema_js.MapShard.Ops.{MapShard, World}
use schema_js.MapShard.Open.{
  starts_with, list_files_with_prefix, signatures, sort_by_number, open_past_shards, new_map_shard,
}
use schema_js.MapShard.State.{IsGood, Contains}

pub none_with_prefix :
    (names : List FileName) (prefix : List ℕ)
    → All (λ name. starts_with name prefix ≡ false) names
    → list_files_with_prefix names prefix ≡ []
unfolding list_files_with_prefix
none_with_prefix [] prefix h = refl
none_with_prefix (name ∷ names) prefix h = rw h.0 (none_with_prefix names prefix h.1)

module _ {S Opts Uuid : Type 0} ⦃u : UuidApi Uuid⦄ (ops : Shard S Opts Uuid) (v : ShardView S Opts)
    (laws : ShardLaws ops v) (w : World Uuid) (limit : ℕ) (good : IsGood w limit) where
  -- On a folder in which no file has the prefix, `new` opens an empty shard of number 0, there are no
  -- past shards, and the invariant of insertion holds, if the configuration suits the kind of shard
  -- with a capacity above 0, and the prefix has no full stop and no `'_'` but the one at its end.
  pub new_map_shard-Contains :
      (config : Opts) (names : List FileName) (stem : List ℕ)
      → v.Suits config
      → 0 < v.capacity config
      → v.Small (v.capacity config) []
      → All IsPlain stem
      → All (λ name. starts_with name (stem ++ (underscore ∷ [])) ≡ false) names
      → (m : MapShard S Opts) × (new_map_shard ops w config names
            (stem ++ (underscore ∷ []))
            (w.drawn 0)
          ≡ ok m)
        × Contains ops v w limit (v.capacity config) m [] [] 0
  unfolding new_map_shard signatures sort_by_number open_past_shards
  new_map_shard-Contains config names stem suits room small plain no_files =
      let prefix : List ℕ = stem ++ (underscore ∷ []) in
      let id = w.drawn 0 in
      let path = generate_shard_name prefix id 0 in
      let (s, opened, held, at) = laws.open_shard_law path config (some id) id suits small room in
      (
        record {
          current_master_shard = s;
          past_master_shards = [];
          shard_prefix = prefix;
          config = config;
        },
        rw (none_with_prefix names prefix no_files, good.on_posix, good.empty_disk prefix 0, opened)
            refl,
        record {
          past = tt;
          holds = held;
          config = refl;
          suits = suits;
          stem = stem;
          prefix = refl;
          plain = plain;
          key = u.to_string id;
          path = path;
          named =
              ap extract_shard_signature at
              ∙ extract_shard_signature-generate_shard_name stem id 0 plain (omega arith);
          key_new = tt;
          later_new = λ j h l. (good.distinct 0 j h l, tt);
        },
      )
