-- ===== src/Primitives/Table.antt =====
-- crates/primitives/src/table/mod.rs and index/mod.rs. The module id of a table is left out.
use schema_js.Prelude.{
  ◌≡◌, refl, sym, subst, List, [], ◌∷◌, ◌++◌, true, false, Option, none, some, map, if◌then◌else◌,
  ==_refl, Bool-cases, inl, inr, ◌⊎◌,
}
use schema_js.Prelude.Results.{Result, ok, panic}
use schema_js.MapShard.Ops.{text_eq, index_map_insert}
use schema_js.MapShard.State.{text_eq→eq}
use schema_js.Primitives.Column.{Text, DataTypes, Column, new_column, set_required, set_primary_key}

pub data IndexType : Type 0 where
  hash : IndexType

pub record Index : Type 0 where
  pub name : Text
  pub members : List Text
  pub index_type : IndexType

-- `columns` is a hash map from names, as a list.
pub record Table : Type 0 where
  pub name : Text
  pub columns : List (Text × Column)
  pub indexes : List Index
  pub primary_key : Text

-- `_uid` and `uidindx`
abbrev pub uid_name : Text
uid_name = 95 ∷ 117 ∷ 105 ∷ 100 ∷ []

abbrev pub uid_index_name : Text
uid_index_name = 117 ∷ 105 ∷ 100 ∷ 105 ∷ 110 ∷ 100 ∷ 120 ∷ []

abbrev pub get_internal_uid : Column
get_internal_uid = set_primary_key (set_required (new_column uid_name DataTypes.uuid) true) true

abbrev pub get_internal_uid_index : Index
get_internal_uid_index = record {
  name = uid_index_name;
  members = uid_name ∷ [];
  index_type = IndexType.hash;
}

abbrev pub new_table : Text → Table
new_table name = record {
  name = name;
  columns = (uid_name, get_internal_uid) ∷ [];
  indexes = get_internal_uid_index ∷ [];
  primary_key = uid_name;
}

unfoldable pub init : Table → Table
init t = record t {
  columns = index_map_insert uid_name get_internal_uid t.columns;
  indexes = t.indexes ++ (get_internal_uid_index ∷ []);
}

abbrev pub add_index : Table → Index → Table
add_index t index = record t { indexes = t.indexes ++ (index ∷ []) }

abbrev pub with_column : Table → Column → Table
with_column t column = record t { columns = index_map_insert column.name column t.columns }

-- A second primary key meets a `todo!`.
unfoldable pub add_column : {E : Type 0} → Table → Column → Result E Table
add_column t column =
    if column.primary_key
    then (if text_eq t.primary_key uid_name
        then ok (record (with_column t column) { primary_key = column.name })
        else panic)
    else ok (with_column t column)

unfoldable pub lookup : {V : Type 0} → Text → List (Text × V) → Option V
lookup key [] = none
lookup key ((k, v) ∷ rest) = let other = lookup key rest in if text_eq k key then some v else other

abbrev pub get_column : Table → Text → Option Column
get_column t name = lookup name t.columns

abbrev pub list_columns : Table → List Text
list_columns t = map (λ p. p.0) t.columns

pub text_eq_refl : (t : Text) → text_eq t t ≡ true
text_eq_refl [] = refl
text_eq_refl (c ∷ cs) = rw (==_refl c, text_eq_refl cs) refl

pub lookup-index_map_insert :
    {V : Type 0} (key : Text) (v : V) (l : List (Text × V))
    → lookup key (index_map_insert key v l) ≡ some v
unfolding lookup index_map_insert
lookup-index_map_insert key v [] = rw (text_eq_refl key) refl
lookup-index_map_insert key v ((k, w) ∷ l) = elim (Bool-cases (text_eq k key)) [
  | inl same ↦ rw (same, text_eq_refl key) refl
  | inr other ↦ rw (other, lookup, other) (lookup-index_map_insert key v l)
]

-- Another key keeps its value.
pub lookup_other-index_map_insert :
    {V : Type 0} (key other : Text) (v : V) (l : List (Text × V))
    → text_eq key other ≡ false
    → lookup other (index_map_insert key v l) ≡ lookup other l
unfolding lookup index_map_insert
lookup_other-index_map_insert key other v [] differ = rw differ refl
lookup_other-index_map_insert key other v ((k, w) ∷ l) differ =
    let rest = lookup_other-index_map_insert key other v l differ in
    elim (Bool-cases (text_eq k key)) [
      | inl same ↦
          let also : text_eq k other ≡ false =
            subst (λ t. text_eq t other ≡ false) (sym (text_eq→eq k key same)) differ in
          rw (same, lookup, differ, also) refl
      | inr unlike ↦ elim (Bool-cases (text_eq k other)) [
        | inl here ↦ rw (unlike, lookup, here) refl
        | inr elsewhere ↦ rw (unlike, lookup, elsewhere) rest
      ]
    ]

-- A column that is added is found under its name, whatever column had the name before: a column
-- that is no primary key, or any column as long as the table has its own internal primary key.
pub get_column-add_column :
    (E : Type 0) (t : Table) (column : Column)
    → (column.primary_key ≡ false) ⊎ (text_eq t.primary_key uid_name ≡ true)
    → (t' : Table) × (add_column {E = E} t column ≡ ok t')
      × (get_column t' column.name ≡ some column)
unfolding add_column
get_column-add_column E t column (inl plain) =
    (with_column t column, rw plain refl, lookup-index_map_insert column.name column t.columns)
get_column-add_column E t column (inr internal) = elim (Bool-cases column.primary_key) [
  | inl primary ↦ (
    record (with_column t column) { primary_key = column.name },
    rw (primary, internal) refl,
    lookup-index_map_insert column.name column t.columns,
  )
  | inr plain ↦
      (with_column t column, rw plain refl, lookup-index_map_insert column.name column t.columns)
]
