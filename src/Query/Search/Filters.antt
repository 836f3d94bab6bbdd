-- ===== src/Query/Search/Filters.antt =====
-- The filter of a condition is not looked at when an index serves the condition.
use schema_js.Prelude.{
  ◌≡◌, refl, ap, ap₂, ◌∙◌, List, [], ◌∷◌, Option, some, none, Bool-cases, inl, inr,
}
use schema_js.MapShard.Ops.{text_eq}
use schema_js.Index.Hash.{IndexOps}
use schema_js.Index.Keys.{CompositeKey}
use schema_js.Primitives.Column.{Text}
use schema_js.Primitives.Table.{Index}
use schema_js.Primitives.Value.{ValueText}
use schema_js.Query.Ops.{QueryVal, condition}
use schema_js.Query.TableShard.{TableShard}
use schema_js.Query.Search.{
  is_subset, paired, more_parts, part_of, find_condition, find_index_for_conditions,
  generate_index_key, with_key, find_index_for_query, collect_conditions, execute_query,
}

module _ {Uuid Number : Type 0} (print : ValueText Uuid Number) (cond : QueryVal Uuid Number)
    (filter : Text) where
  abbrev other : QueryVal Uuid Number
  other = record cond { filter_type = filter }

  same_part :
      (member : Text)
      → part_of print (find_condition (other ∷ []) member)
        ≡ part_of print (find_condition (cond ∷ []) member)
  unfolding find_condition
  same_part member = elim (Bool-cases (text_eq cond.key member)) [
    | inl here ↦ rw here refl
    | inr elsewhere ↦ rw elsewhere refl
  ]

  same_key :
      (members : List Text)
      → generate_index_key print members (other ∷ []) ≡ generate_index_key print members (cond ∷ [])
  unfolding generate_index_key
  same_key [] = refl
  same_key (member ∷ members) = ap₂ more_parts (same_part member) (same_key members)

  same_index :
      (indexes : List Index)
      → find_index_for_conditions (other ∷ []) indexes
        ≡ find_index_for_conditions (cond ∷ []) indexes
  unfolding find_index_for_conditions
  same_index [] = refl
  same_index (index ∷ indexes) = elim (Bool-cases (is_subset (cond.key ∷ []) index.members)) [
    | inl inside ↦ rw inside refl
    | inr outside ↦ rw outside (same_index indexes)
  ]

  same_found : (o : Option Index) → with_key print (other ∷ []) o ≡ with_key print (cond ∷ []) o
  same_found none = refl
  same_found (some index) = ap (λ key. paired index key) (same_key index.members)

  same_query :
      (indexes : List Index)
      → find_index_for_query print (condition other) indexes
        ≡ find_index_for_query print (condition cond) indexes
  unfolding find_index_for_query collect_conditions
  same_query indexes =
      ap (with_key print (other ∷ [])) (same_index indexes)
      ∙ same_found (find_index_for_conditions (cond ∷ []) indexes)

  module _ {Ident I : Type 0} (index_ops : IndexOps I) (tbl : TableShard Ident I) where
    -- A condition that an index of the table serves is answered in the same way with any other
    -- filter, such as `!=`.
    pub execute_query-filter :
        (found : Index × CompositeKey)
        → find_index_for_query print (condition cond) tbl.table.indexes ≡ some found
        → execute_query print index_ops tbl (condition (record cond { filter_type = filter }))
          ≡ execute_query print index_ops tbl (condition cond)
    unfolding execute_query
    execute_query-filter found e = rw (same_query tbl.table.indexes, e) refl
