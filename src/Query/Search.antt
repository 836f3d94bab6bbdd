-- ===== src/Query/Search.antt =====
-- crates/query/src/search/search_manager.rs: `QuerySearchManager`. The indexes are those of any
-- implementation of the trait `Index`. The elements of a hash set are listed in one of the orders
-- that they may have.
pub mod Meaning
pub mod Keys
pub mod Sets
pub mod Whole
pub mod Sound
pub mod Filters
use schema_js.Prelude.{
  ℕ, List, [], ◌∷◌, ◌++◌, map, Bool, true, false, ◌&&◌, Option, none, some, ◌==◌, if◌then◌else◌,
}
use schema_js.Prelude.Results.{Result, ok, err, panic, ◌>>=◌, unwrap, unwrap_or, expect_some}
use schema_js.Prelude.Bytes.{Bytes}
use schema_js.MapShard.Ops.{MapShard, text_eq}
use schema_js.Index.Entry.{NoEntry}
use schema_js.Index.Keys.{CompositeKey}
use schema_js.Index.Hash.{IndexOps}
use schema_js.Primitives.Column.{Text}
use schema_js.Primitives.Table.{Index, Table, lookup}
use schema_js.Primitives.Value.{ValueText, to_string}
use schema_js.Query.TableShard.{TableShard}
use schema_js.Query.Ops.{QueryVal, QueryOps, and, or, condition, QueryList, no_ops, more_ops}

-- `contains` of a set of numbers.
abbrev pub contains : ℕ → List ℕ → Bool
contains x [] = false
contains x (y ∷ ys) = let rest = contains x ys in if x == y then true else rest

-- `into_iter().collect::<HashSet<u64>>()`
abbrev pub distinct : List ℕ → List ℕ
distinct [] = []
distinct (x ∷ xs) = let rest = distinct xs in if contains x rest then rest else x ∷ rest

-- The numbers that are, or are not, in the other list.
abbrev pub select : Bool → List ℕ → List ℕ → List ℕ
select wanted [] b = []
select wanted (x ∷ a) b =
    let rest = select wanted a b in
    if contains x b
    then (if wanted then x ∷ rest else rest)
    else (if wanted then rest else x ∷ rest)

abbrev pub intersect_indices : List ℕ → List ℕ → List ℕ
intersect_indices a b = select true (distinct a) b

abbrev pub union_indices : List ℕ → List ℕ → List ℕ
union_indices a b = distinct a ++ select false (distinct b) a

-- A string in a list of strings.
abbrev pub contains_text : Text → List Text → Bool
contains_text t [] = false
contains_text t (s ∷ ss) = let rest = contains_text t ss in if text_eq s t then true else rest

-- `is_subset`
abbrev pub is_subset : List Text → List Text → Bool
is_subset [] index_keys = true
is_subset (key ∷ keys) index_keys =
    let rest = is_subset keys index_keys in if contains_text key index_keys then rest else false

-- `members.len() == 1 && members[0] == key`
abbrev pub is_only_member : List Text → Text → Bool
is_only_member [] key = false
is_only_member (member ∷ []) key = text_eq member key
is_only_member (member ∷ _ ∷ _) key = false

-- `Option::map` with a pair beside.
abbrev pub paired : {A B : Type 0} → A → Option B → Option (A × B)
paired a none = none
paired a (some b) = some (a, b)

module _ {Uuid Number : Type 0} where
  -- The search for an index of the whole query.
  unfoldable pub find_index_for_conditions : List (QueryVal Uuid Number) → List Index → Option Index
  find_index_for_conditions conditions [] = none
  find_index_for_conditions conditions (index ∷ indexes) =
      let rest = find_index_for_conditions conditions indexes in
      if is_subset (map (λ cond. cond.key) conditions) index.members then some index else rest

  unfoldable pub get_index_for_condition : QueryVal Uuid Number → List Index → Option Index
  get_index_for_condition cond [] = none
  get_index_for_condition cond (index ∷ indexes) =
      let rest = get_index_for_condition cond indexes in
      if is_only_member index.members cond.key then some index else rest

  abbrev pub appended :
      Option (List (QueryVal Uuid Number))
      → Option (List (QueryVal Uuid Number))
      → Option (List (QueryVal Uuid Number))
  appended (some child_conditions) (some conditions) = some (child_conditions ++ conditions)
  appended (some child_conditions) none = none
  appended none conditions = none

  -- `conditions.iter().find(|c| &c.key == member)`
  unfoldable pub find_condition : List (QueryVal Uuid Number) → Text → Option (QueryVal Uuid Number)
  find_condition [] member = none
  find_condition (cond ∷ conditions) member =
      let rest = find_condition conditions member in
      if text_eq cond.key member then some cond else rest

unfoldable mutual
  pub collect_conditions :
      {Uuid Number : Type 0} → QueryOps Uuid Number → Option (List (QueryVal Uuid Number))
  collect_conditions (condition cond) = some (cond ∷ [])
  collect_conditions (and ops) = collect_all ops
  collect_conditions (or ops) = none

  -- The loop over the parts of an `And`.
  pub collect_all :
      {Uuid Number : Type 0} → QueryList Uuid Number → Option (List (QueryVal Uuid Number))
  collect_all no_ops = some []
  collect_all (more_ops op ops) = appended (collect_conditions op) (collect_all ops)

-- `key_parts`, or `None` once a member has no condition.
abbrev pub more_parts : Option (Text × Text) → Option CompositeKey → Option CompositeKey
more_parts (some part) (some parts) = some (part ∷ parts)
more_parts (some part) none = none
more_parts none parts = none

module _ {Uuid Number : Type 0} (print : ValueText Uuid Number) where
  -- The key and the text of a condition's value.
  abbrev pub key_part : QueryVal Uuid Number → Text × Text
  key_part cond = (cond.key, to_string print cond.value)

  abbrev pub part_of : Option (QueryVal Uuid Number) → Option (Text × Text)
  part_of none = none
  part_of (some cond) = some (key_part cond)

  -- `generate_index_key`, the loop over the members.
  unfoldable pub generate_index_key : List Text → List (QueryVal Uuid Number) → Option CompositeKey
  generate_index_key [] conditions = some []
  generate_index_key (member ∷ members) conditions =
      more_parts (part_of (find_condition conditions member))
        (generate_index_key members conditions)

  abbrev pub with_key : List (QueryVal Uuid Number) → Option Index → Option (Index × CompositeKey)
  with_key conditions none = none
  with_key conditions (some index) = paired index (generate_index_key index.members conditions)

  abbrev pub index_query :
      Option (List (QueryVal Uuid Number)) → List Index → Option (Index × CompositeKey)
  index_query none indexes = none
  index_query (some conditions) indexes =
      with_key conditions (find_index_for_conditions conditions indexes)

  unfoldable pub find_index_for_query :
      QueryOps Uuid Number → List Index → Option (Index × CompositeKey)
  find_index_for_query query indexes = index_query (collect_conditions query) indexes

abbrev pub to_list : Option ℕ → List ℕ
to_list none = []
to_list (some pointer) = pointer ∷ []

-- `results` of the `And`, with the next result.
abbrev pub and_next : Option (List ℕ) → List ℕ → List ℕ
and_next none res = res
and_next (some existing) res = intersect_indices existing res

module _ {Ident Uuid Number I : Type 0} (print : ValueText Uuid Number) (ops : IndexOps I)
    (tbl : TableShard Ident I) where
  -- The row of a key in an index.
  abbrev pub pointers : I → CompositeKey → Result NoEntry (List ℕ)
  pointers indx key = ops.get indx (ops.to_key indx key) >>= λ pointer. ok (to_list pointer)

  -- The lookup with an index that serves the whole query.
  abbrev pub indexed : Index × CompositeKey → Result NoEntry (List ℕ)
  indexed (index, key) = elim (lookup index.name tbl.indexes) [
    | some indx ↦ pointers indx key
    | none ↦ ok []
  ]

  -- With an index for the whole query, or else by its parts.
  abbrev pub served :
      Option (Index × CompositeKey) → Result NoEntry (List ℕ) → Result NoEntry (List ℕ)
  served none parts = parts
  served (some found) parts = indexed found

  abbrev pub condition_pointers : QueryVal Uuid Number → Option Index → Result NoEntry (List ℕ)
  condition_pointers cond none = ok []
  condition_pointers cond (some index) =
      (expect_some (lookup index.name tbl.indexes) >>= λ indx.
      pointers indx (key_part print cond ∷ []))

  -- Only `=` is supported.
  unfoldable pub evaluate_condition : QueryVal Uuid Number → Result NoEntry (List ℕ)
  evaluate_condition cond =
      if text_eq cond.filter_type (61 ∷ [])
      then condition_pointers cond (get_index_for_condition cond tbl.table.indexes)
      else ok []

unfoldable mutual
  pub execute_query :
      {Ident Uuid Number I : Type 0}
      → ValueText Uuid Number
      → IndexOps I
      → TableShard Ident I
      → QueryOps Uuid Number
      → Result NoEntry (List ℕ)
  execute_query print index_ops tbl (condition cond) =
      served print index_ops tbl (find_index_for_query print (condition cond) tbl.table.indexes)
        (evaluate_condition print index_ops tbl cond)
  execute_query print index_ops tbl (and ops) =
      served print index_ops tbl (find_index_for_query print (and ops) tbl.table.indexes)
        (and_results print index_ops tbl none ops)
  execute_query print index_ops tbl (or ops) =
      served print index_ops tbl (find_index_for_query print (or ops) tbl.table.indexes)
        (or_results print index_ops tbl [] ops)

  -- The loop of the `And`.
  pub and_results :
      {Ident Uuid Number I : Type 0}
      → ValueText Uuid Number
      → IndexOps I
      → TableShard Ident I
      → Option (List ℕ)
      → QueryList Uuid Number
      → Result NoEntry (List ℕ)
  and_results print index_ops tbl results no_ops = ok (unwrap_or results [])
  and_results print index_ops tbl results (more_ops op ops) =
      (execute_query print index_ops tbl op >>= λ res.
      and_results print index_ops tbl (some (and_next results res)) ops)

  -- The loop of the `Or`.
  pub or_results :
      {Ident Uuid Number I : Type 0}
      → ValueText Uuid Number
      → IndexOps I
      → TableShard Ident I
      → List ℕ
      → QueryList Uuid Number
      → Result NoEntry (List ℕ)
  or_results print index_ops tbl results no_ops = ok results
  or_results print index_ops tbl results (more_ops op ops) =
      (execute_query print index_ops tbl op >>= λ res.
      or_results print index_ops tbl (union_indices results res) ops)
