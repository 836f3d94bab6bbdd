-- ===== src/Shard/Laws.antt =====
-- What a kind of shard of bounded capacity promises to the map shard that is made of them.
use schema_js.Prelude.{
  ℕ, suc, ◌*◌, ◌+◌, ◌-◌, ◌<◌, ◌≤◌, ◌≡◌, List, [], ◌++◌, Option, some, length, length-append,
  get_elem?, arith,
}
use schema_js.Prelude.Int.{pos, suc_ℤ}
use schema_js.Prelude.Results.{ok}
use schema_js.Prelude.Bytes.{Bytes, IsU64}
use schema_js.Storage.File.{Platform}
use schema_js.Storage.Handler.{FileName}
use schema_js.Shard.Errors.{AvailableSpace}
use schema_js.Shard.Trait.{Shard}

-- Fewer items have the smaller square.
square_mono : (a b : ℕ) → a ≤ b → a * a ≤ b * b
square_mono a b h = grind arith

pub few_part :
    (front items back : List Bytes)
    → IsU64 (length (front ++ (items ++ back)) * length (front ++ (items ++ back)))
    → IsU64 (length items * length items)
few_part front items back h = omega (
  arith,
  h,
  square_mono (length items) (length (front ++ (items ++ back)))
      (omega (arith, length-append front (items ++ back), length-append items back)),
)

-- How a kind of shard is described: `Holds k s items` says that the shard `s` of capacity `k` holds
-- the items; `Small k items` that they may be stored, keep its file below the limit of the machine, and
-- are so few that their number times itself has 64 bits;
-- `Suits opts` that options are those of the kind; `returned n` is what `insert_item` returns when
-- `n` items are there.
pub record ShardView (S Opts : Type 0) : Type 1 where
  pub Holds : ℕ → S → List Bytes → Type 0
  pub Small : ℕ → List Bytes → Type 0
  pub capacity : Opts → ℕ
  pub Suits : Opts → Type 0
  pub returned : ℕ → ℕ

pub record ShardLaws {S Opts Uuid : Type 0} (ops : Shard S Opts Uuid) (v : ShardView S Opts)
    : Type 0 where
  pub within : (k : ℕ) (s : S) (items : List Bytes) → v.Holds k s items → length items ≤ k
  pub breaking_point_law :
      (k : ℕ) (s : S) (items : List Bytes) → v.Holds k s items → ops.breaking_point s ≡ some k
  pub get_last_index_law :
      (k : ℕ) (s : S) (items : List Bytes)
      → v.Holds k s items
      → suc_ℤ (ops.get_last_index s) ≡ pos (length items)
  pub available_space_law :
      (k : ℕ) (s : S) (items : List Bytes)
      → v.Holds k s items
      → ops.available_space s ≡ ok (AvailableSpace.fixed (k - length items))
  pub insert_item_law :
      (k : ℕ) (s : S) (items new : List Bytes)
      → v.Holds k s items
      → length items + length new ≤ k
      → v.Small k (items ++ new)
      → v.Holds k (ops.insert_item s new).0 (items ++ new)
        × ((ops.insert_item s new).1 ≡ ok (v.returned (length (items ++ new))))
  pub get_path_law :
      (s : S) (new : List Bytes) → ops.get_path (ops.insert_item s new).0 ≡ ops.get_path s
  pub read_item_law :
      (k : ℕ) (s : S) (items : List Bytes) (index : ℕ) (x : Bytes)
      → v.Holds k s items
      → get_elem? items index ≡ some x
      → ops.read_item_from_index s index ≡ ok x
  pub open_shard_law :
      (path : FileName) (opts : Opts) (given : Option Uuid) (id : Uuid)
      → v.Suits opts
      → v.Small (v.capacity opts) []
      → 0 < v.capacity opts
      → (s : S) × (ops.open_shard Platform.posix path [] opts given id ≡ ok s)
        × v.Holds (v.capacity opts) s []
        × (ops.get_path s ≡ path)
  pub small_part :
      (k : ℕ) (front items back : List Bytes)
      → v.Small k (front ++ (items ++ back))
      → v.Small k items
  pub small_few :
      (k : ℕ) (items : List Bytes) → v.Small k items → IsU64 (length items * length items)
  pub returned_law : (n : ℕ) → v.returned (suc n) ≤ suc n
