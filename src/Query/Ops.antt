-- ===== src/Query/Ops.antt =====
-- crates/query/src/ops/query_ops.rs: `QueryOps` and its parts.
use schema_js.Prelude.{[], ◌∷◌}
use schema_js.Primitives.Column.{Text}
use schema_js.Primitives.Value.{DataValue}

pub data FilterType : Type 0 where
  equal greater_than lower_than greater_or_equal_to lower_or_equal_to not_equal : FilterType

-- `Display`
abbrev pub filter_text : FilterType → Text
filter_text FilterType.equal = 61 ∷ []
filter_text FilterType.greater_than = 62 ∷ []
filter_text FilterType.lower_than = 60 ∷ []
filter_text FilterType.greater_or_equal_to = 62 ∷ 61 ∷ []
filter_text FilterType.lower_or_equal_to = 60 ∷ 61 ∷ []
filter_text FilterType.not_equal = 33 ∷ 61 ∷ []

pub record QueryVal (Uuid Number : Type 0) : Type 0 where
  pub key : Text
  pub filter_type : Text
  pub value : DataValue Uuid Number

-- A query, with the list of its parts as a data type of its own.
mutual
  pub data QueryOps (Uuid Number : Type 0) : Type 0 where
    and : QueryList Uuid Number → QueryOps Uuid Number
    or : QueryList Uuid Number → QueryOps Uuid Number
    condition : QueryVal Uuid Number → QueryOps Uuid Number

  pub data QueryList (Uuid Number : Type 0) : Type 0 where
    no_ops : QueryList Uuid Number
    more_ops : QueryOps Uuid Number → QueryList Uuid Number → QueryList Uuid Number
