-- ===== src/MapShard/Open.antt =====
-- crates/data/src/shard/map_shard.rs: `MapShard::new`, on the files that are in the folder, with
-- crates/data/src/utils/fs.rs: `list_files_with_prefix`.
use schema_js.Prelude.{
  ℕ, List, [], ◌∷◌, Bool, true, false, Option, none, some, leb, ◌==◌, ◌&&◌, if◌then◌else◌,
}
use schema_js.Prelude.Results.{Result, ok, ◌>>=◌, expect_some, unwrap_or}
use schema_js.Storage.Handler.{FileName}
use schema_js.Shard.Errors.{ShardErrors}
use schema_js.Shard.Trait.{Shard}
use schema_js.Uuid.{UuidApi}
use schema_js.MapShard.Names.{extract_shard_signature, generate_shard_name}
use schema_js.MapShard.Ops.{MapShard, World, text_eq, index_map_insert}

-- The number, the id and the path of a shard.
abbrev pub Signature : Type 0
Signature = ℕ × List ℕ × FileName

abbrev pub starts_with : List ℕ → List ℕ → Bool
starts_with text [] = true
starts_with [] (c ∷ cs) = false
starts_with (d ∷ ds) (c ∷ cs) = d == c && starts_with ds cs

-- The names in the folder, in the order in which the system lists them.
unfoldable pub list_files_with_prefix : List FileName → List ℕ → List FileName
list_files_with_prefix [] prefix = []
list_files_with_prefix (name ∷ names) prefix =
    let rest = list_files_with_prefix names prefix in
    if starts_with name prefix then name ∷ rest else rest

-- The loop `for path in shard_files`.
unfoldable pub signatures : List FileName → List Signature
signatures [] = []
signatures (path ∷ paths) =
    let rest = signatures paths in
    elim (extract_shard_signature path) [ none ↦ rest | some signature ↦ signature ∷ rest ]

-- `sort_by_key`, which is stable.
unfoldable pub insert_by_number : Signature → List Signature → List Signature
insert_by_number x [] = x ∷ []
insert_by_number x (y ∷ ys) =
    let rest = insert_by_number x ys in if leb x.0 y.0 then x ∷ (y ∷ ys) else y ∷ rest

unfoldable pub sort_by_number : List Signature → List Signature
sort_by_number [] = []
sort_by_number (x ∷ xs) = insert_by_number x (sort_by_number xs)

abbrev pub last_path : List Signature → Option FileName
last_path [] = none
last_path (x ∷ []) = some x.2
last_path (x ∷ y ∷ ys) = last_path (y ∷ ys)

module _ {S Opts Uuid : Type 0} ⦃u : UuidApi Uuid⦄ (ops : Shard S Opts Uuid) (w : World Uuid)
    (config : Opts) where
  -- One past shard of the loop over the sorted files: all but the current one are opened.
  abbrev pub open_past_shard : Signature → Result ShardErrors S
  open_past_shard (number, id, path) =
      (expect_some (u.parse_str id) >>= λ uuid.
      ops.open_shard w.platform path (w.disk path) config (some uuid) uuid)

  unfoldable pub open_past_shards :
      FileName → List Signature → List (List ℕ × S) → Result ShardErrors (List (List ℕ × S))
  open_past_shards current [] past = ok past
  open_past_shards current (file ∷ files) past = elim (text_eq file.2 current) [
    | true ↦ open_past_shards current files past
    | false ↦
        (open_past_shard file >>= λ shard.
        open_past_shards current files (index_map_insert file.1 shard past))
  ]

  -- `current_master_shard`, the path: the file with the highest number, or a new name.
  abbrev pub current_path : List Signature → List ℕ → Uuid → FileName
  current_path sorted_files prefix id =
      unwrap_or (last_path sorted_files) (generate_shard_name prefix id 0)

  -- `MapShard::new`; `id` is the id that it draws.
  unfoldable pub new_map_shard :
      List FileName → List ℕ → Uuid → Result ShardErrors (MapShard S Opts)
  new_map_shard names prefix id = do
    let sorted_files = sort_by_number (signatures (list_files_with_prefix names prefix))
    let path = current_path sorted_files prefix id
    past ← open_past_shards path sorted_files []
    shard ← ops.open_shard w.platform path (w.disk path) config (some id) id
    ok (record {
      current_master_shard = shard;
      past_master_shards = past;
      shard_prefix = prefix;
      config = config;
    })
