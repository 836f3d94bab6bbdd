-- ===== src/Primitives/Column.antt =====
-- crates/primitives/src/column/mod.rs, with `DataTypes` of column/types.rs.
use schema_js.Prelude.{ℕ, List, Bool, false, Option, none, some}

-- A string, as a list of character codes.
abbrev pub Text : Type 0
Text = List ℕ

pub data DataTypes : Type 0 where
  null uuid string boolean number : DataTypes

pub record Column : Type 0 where
  pub name : Text
  pub data_type : DataTypes
  pub default_value : Option Text
  pub required : Bool
  pub comment : Option Text
  pub primary_key : Bool

abbrev pub new_column : Text → DataTypes → Column
new_column name data_type = record {
  name = name;
  data_type = data_type;
  default_value = none;
  required = false;
  comment = none;
  primary_key = false;
}

abbrev pub set_primary_key : Column → Bool → Column
set_primary_key c primary_key = record c { primary_key = primary_key }

abbrev pub set_required : Column → Bool → Column
set_required c required = record c { required = required }

abbrev pub set_default_value : Column → Text → Column
set_default_value c default_value = record c { default_value = some default_value }

abbrev pub set_comment : Column → Text → Column
set_comment c comment = record c { comment = some comment }
