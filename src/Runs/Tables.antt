-- ===== src/Runs/Tables.antt =====
-- Tables and columns at inputs.
use schema_js.Prelude.{◌≡◌, refl, [], ◌∷◌, true, some, inr}
use schema_js.Prelude.Results.{ok}
use schema_js.Shard.Errors.{ShardErrors}
use schema_js.Primitives.Column.{Column, DataTypes, new_column, set_primary_key}
use schema_js.Primitives.Table.{Table, new_table, add_column, get_column, get_column-add_column}

-- A primary key "id".
abbrev id_column : Column
id_column = set_primary_key (new_column (105 ∷ 100 ∷ []) DataTypes.number) true

get_column-add_column_example :
    (t : Table) × (add_column {E = ShardErrors} (new_table (116 ∷ [])) id_column ≡ ok t)
    × (get_column t (105 ∷ 100 ∷ []) ≡ some id_column)
get_column-add_column_example =
    get_column-add_column ShardErrors (new_table (116 ∷ [])) id_column (inr refl)
