-- ===== src/TempShard/Ops.antt =====
-- crates/data/src/shard/temp_map_shard.rs: `TempMapShard`. Its parent map shard, which it shares with
-- others, is an argument and a result of its operations.
use schema_js.Prelude.{
  ℕ, zero, suc, ◌+◌, List, [], ◌∷◌, ◌++◌, Bool, true, false, Option, none, some, length, get_elem?,
}
use schema_js.Prelude.Int.{ℤ, pos, negsuc}
use schema_js.Prelude.Results.{Result, ok, err, ◌>>=◌, unwrap}
use schema_js.Prelude.Bytes.{Bytes}
use schema_js.Shard.Errors.{ShardErrors}
use schema_js.Shard.Trait.{Shard}
use schema_js.Uuid.{UuidApi}
use schema_js.MapShard.Ops.{MapShard, World, insert_rows}

pub record DataWithIndex : Type 0 where
  pub payload : Bytes
  pub index : ℕ

-- A callback of `OnReconcileCb` changes a state `X` that it captured. `to_config` of the options is a
-- field.
pub record TempMapShard (S Opts X : Type 0) : Type 0 where
  pub prefix : List ℕ
  pub temp_shards : List S
  pub config : Opts
  pub on_reconcile : Option (List DataWithIndex → X → Result (Unit {0}) X)

-- What temporary map shards share with others: their parent shard, and the state of the callbacks.
pub record Behind (S Opts X : Type 0) : Type 0 where
  pub parent_shard : MapShard S Opts
  pub captured : X

-- `iter().position(|i| ..)`
unfoldable pub position : {A : Type 0} → (A → Bool) → List A → Option ℕ
position test [] = none
position test (x ∷ xs) = elim (test x) [
  | true ↦ some 0
  | false ↦ elim (position test xs) [ none ↦ none | some i ↦ some (suc i) ]
]

-- The element at an index is changed in place; `Vec::remove`.
abbrev pub set_at : {A : Type 0} → List A → ℕ → A → List A
set_at [] i y = []
set_at (x ∷ xs) zero y = y ∷ xs
set_at (x ∷ xs) (suc i) y = x ∷ set_at xs i y

abbrev pub remove_at : {A : Type 0} → List A → ℕ → List A
remove_at [] i = []
remove_at (x ∷ xs) zero = xs
remove_at (x ∷ xs) (suc i) = x ∷ remove_at xs i

-- `get_reconciliation_data`: the end of the range of indices.
abbrev pub range_end : ℤ → ℕ
range_end (pos n) = n + 1
range_end (negsuc n) = 0

abbrev pub last_position : ℕ → Option ℕ
last_position zero = none
last_position (suc n) = some n

abbrev pub call_on_reconcile :
    {X : Type 0}
    → Option (List DataWithIndex → X → Result (Unit {0}) X)
    → List DataWithIndex
    → X
    → Result (Unit {0}) X
call_on_reconcile none items x = ok x
call_on_reconcile (some callback) items x = callback items x

module _ {S Opts X : Type 0} where
  -- `TempMapShard::new`
  abbrev pub new_temp_map_shard : List ℕ → Opts → TempMapShard S Opts X
  new_temp_map_shard prefix config = record {
    prefix = prefix;
    temp_shards = [];
    config = config;
    on_reconcile = none;
  }

  abbrev pub set_on_reconcile :
      TempMapShard S Opts X → (List DataWithIndex → X → Result (Unit {0}) X) → TempMapShard S Opts X
  set_on_reconcile t callback = record t { on_reconcile = some callback }

module _ {S Opts Uuid : Type 0} ⦃u : UuidApi Uuid⦄ (ops : Shard S Opts Uuid) (w : World Uuid) where
  -- `name_id` and `own_id` are the ids that are drawn for the name and by the shard.
  unfoldable pub create_shard :
      {X : Type 0} → TempMapShard S Opts X → Uuid → Uuid → Result ShardErrors S
  create_shard t name_id own_id =
      let path = t.prefix ++ u.to_string name_id in
      ops.open_shard w.platform path (w.disk path) t.config none own_id

  -- The loop over the indices of a shard, `count` of them from `index` on.
  unfoldable pub reconcile_items :
      ℕ → ℕ → S → MapShard S Opts → Result ShardErrors (MapShard S Opts × List DataWithIndex)
  reconcile_items zero index shard target = ok (target, [])
  reconcile_items (suc count) index shard target = do
    binary_item ← unwrap (ops.read_item_from_index shard index)
    (target', at) ← insert_rows ops w (binary_item ∷ []) target
    (target'', items) ← reconcile_items count (index + 1) shard target'
    ok (target'', record { payload = binary_item; index = at } ∷ items)

module _ {S Opts X Uuid : Type 0} ⦃u : UuidApi Uuid⦄ (ops : Shard S Opts Uuid)
    (w : World Uuid) where
  unfoldable pub reconcile :
      TempMapShard S Opts X → S → Behind S Opts X → Result ShardErrors (Behind S Opts X)
  reconcile t shard b = do
    (target, items) ←
        reconcile_items ops w (range_end (ops.get_last_index shard)) 0 shard b.parent_shard
    captured' ← unwrap (call_on_reconcile t.on_reconcile items b.captured)
    ok (record { parent_shard = target; captured = captured' })

  -- The loop of `reconcile_all`.
  unfoldable pub reconcile_each :
      TempMapShard S Opts X → List S → Behind S Opts X → Result ShardErrors (Behind S Opts X)
  reconcile_each t [] b = ok b
  reconcile_each t (shard ∷ shards) b = (reconcile t shard b >>= λ b'. reconcile_each t shards b')

  unfoldable pub reconcile_all :
      TempMapShard S Opts X
      → Behind S Opts X
      → Result ShardErrors (TempMapShard S Opts X × Behind S Opts X)
  reconcile_all t b =
      (reconcile_each t t.temp_shards b >>= λ b'. ok (record t { temp_shards = [] }, b'))

  abbrev pub reconcile_at :
      TempMapShard S Opts X
      → Behind S Opts X
      → Option ℕ
      → Result ShardErrors (TempMapShard S Opts X × Behind S Opts X)
  reconcile_at t b none = ok (t, b)
  reconcile_at t b (some index) = elim (get_elem? t.temp_shards index) [
    | none ↦ ok (t, b)
    | some shard ↦
        (reconcile t shard b >>= λ b'.
        ok (record t { temp_shards = remove_at t.temp_shards index }, b'))
  ]

  abbrev pub or_last : TempMapShard S Opts X → Option ℕ → Option ℕ
  or_last t (some index) = some index
  or_last t none = last_position (length t.temp_shards)

  unfoldable pub reconcile_specific :
      TempMapShard S Opts X
      → Behind S Opts X
      → Option ℕ
      → Result ShardErrors (TempMapShard S Opts X × Behind S Opts X)
  reconcile_specific t b shard_position = reconcile_at t b (or_last t shard_position)

  -- `shard_index`: the first shard with space, or a new one after the last one is reconciled.
  abbrev pub usable_shard :
      TempMapShard S Opts X
      → Behind S Opts X
      → Uuid
      → Uuid
      → Option ℕ
      → Result ShardErrors ((TempMapShard S Opts X × Behind S Opts X) × ℕ)
  usable_shard t b name_id own_id (some index) = ok ((t, b), index)
  usable_shard t b name_id own_id none = do
    (t', b') ← reconcile_specific t b none
    shard ← create_shard ops w t' name_id own_id
    ok ((record t' { temp_shards = t'.temp_shards ++ (shard ∷ []) }, b'), length t'.temp_shards)

  abbrev pub insert_at :
      TempMapShard S Opts X → ℕ → Bytes → Option S → TempMapShard S Opts X × Result ShardErrors ℕ
  insert_at t index row none = (t, err ShardErrors.unknown_shard)
  insert_at t index row (some shard) =
      let (shard', r) = ops.insert_item shard (row ∷ []) in
      (record t { temp_shards = set_at t.temp_shards index shard' }, r)

  -- The state after the insertion with what `insert_row` returns; the outer result is for panics.
  unfoldable pub insert_row :
      TempMapShard S Opts X
      → Behind S Opts X
      → Uuid
      → Uuid
      → Bytes
      → Result ShardErrors ((TempMapShard S Opts X × Behind S Opts X) × Result ShardErrors ℕ)
  insert_row t b name_id own_id row = do
    ((t', b'), index) ← usable_shard t b name_id own_id (position ops.has_space t.temp_shards)
    let (t'', r) = insert_at t' index row (get_elem? t'.temp_shards index)
    ok ((t'', b'), r)
