-- ===== src/Query/Rows.antt =====
-- crates/query/src/managers/single/table_shard.rs: `insert_indexes`, the rows that are put into the
-- indexes of a table once they are reconciled. Hash maps are lists in the order of insertion.
pub mod Pending
pub mod Taken
pub mod Entries
use schema_js.Prelude.{ℕ, List, [], ◌∷◌, ◌++◌, map, Bool, true, false, ◌||◌, not, if◌then◌else◌}
use schema_js.Prelude.Results.{Result, ok, ◌>>=◌, unwrap, unwrap_or, expect_some}
use schema_js.MapShard.Ops.{text_eq, index_map_insert}
use schema_js.TempShard.Ops.{DataWithIndex}
use schema_js.Index.Types.{IndexKeyType}
use schema_js.Index.Hash.{IndexOps}
use schema_js.Primitives.Column.{Text}
use schema_js.Primitives.Table.{Index, Table, lookup, get_column}
use schema_js.Primitives.Value.{DataValue, ValueText, to_string}
use schema_js.Query.Errors.{QueryError}
use schema_js.Query.Row.{Row}

abbrev pub is_null : {Uuid Number : Type 0} → DataValue Uuid Number → Bool
is_null DataValue.null = true
is_null _ = false

-- `index_ordered_items`: what is to be inserted into each index.
abbrev pub Pending : Type 0
Pending = List (Text × List (IndexKeyType × ℕ))

-- The entry behind those of its index, or as the first of it.
unfoldable pub push_item : Text → IndexKeyType × ℕ → Pending → Pending
push_item name item [] = (name, item ∷ []) ∷ []
push_item name item ((other, items) ∷ pending) =
    let rest = push_item name item pending in
    if text_eq other name then (other, items ++ (item ∷ [])) ∷ pending else (other, items) ∷ rest

module _ {T Uuid Number I : Type 0} (print : ValueText Uuid Number) (rows : Row T Uuid Number)
    (index_ops : IndexOps I) where
  -- The values of a row in the columns of an index, null when there is none; an unknown column
  -- panics.
  unfoldable pub member_values :
      Table → T → List Text → Result QueryError (List (Text × DataValue Uuid Number))
  member_values table row [] = ok []
  member_values table row (index_col ∷ members) = do
    column ← expect_some (get_column table index_col)
    val ← rows.get_value row column
    rest ← member_values table row members
    ok ((index_col, unwrap_or val DataValue.null) ∷ rest)

  -- Whether a value is not null.
  unfoldable pub can_index : List (Text × DataValue Uuid Number) → Bool
  can_index [] = false
  can_index ((index_col, val) ∷ vals) = not (is_null val) || can_index vals

  -- The row under one index of the table.
  unfoldable pub add_row :
      Table → List (Text × I) → T → ℕ → Index → Pending → Result QueryError Pending
  add_row table indexes row position index pending =
      (member_values table row index.members >>= λ vals. elim (can_index vals) [
        | false ↦ ok pending
        | true ↦
            (expect_some (lookup index.name indexes) >>= λ real_indx. ok (
              push_item index.name
                (index_ops.to_key real_indx (map (λ v. (v.0, to_string print v.1)) vals), position)
                pending))
      ])

  unfoldable pub add_row_to_all :
      Table → List (Text × I) → T → ℕ → List Index → Pending → Result QueryError Pending
  add_row_to_all table indexes row position [] pending = ok pending
  add_row_to_all table indexes row position (index ∷ rest) pending =
      (add_row table indexes row position index pending >>= λ pending'.
      add_row_to_all table indexes row position rest pending')

  -- The loop over the rows.
  unfoldable pub collect_rows :
      Table → List (Text × I) → List DataWithIndex → Pending → Result QueryError Pending
  collect_rows table indexes [] pending = ok pending
  collect_rows table indexes (item ∷ items) pending = do
    row ← unwrap (rows.from_bytes item.payload)
    pending' ← add_row_to_all table indexes row item.index table.indexes pending
    collect_rows table indexes items pending'

  -- The loop over `index_ordered_items`.
  unfoldable pub insert_pending : List (Text × I) → Pending → Result QueryError (List (Text × I))
  insert_pending indexes [] = ok indexes
  insert_pending indexes ((name, items) ∷ pending) = do
    index ← expect_some (lookup name indexes)
    index' ← unwrap (index_ops.bulk_insert index items)
    insert_pending (index_map_insert name index' indexes) pending

  unfoldable pub insert_indexes :
      Table → List (Text × I) → List DataWithIndex → Result QueryError (List (Text × I))
  insert_indexes table indexes items =
      (collect_rows table indexes items [] >>= insert_pending indexes)
