-- ===== src/Runs/Schema.antt =====
-- Reading the schema of a database from its folder.
use schema_js.Prelude.{ℕ, ◌≡◌, refl, List, [], ◌∷◌, true, Option, none, some, ◌==◌, if◌then◌else◌}
use schema_js.Primitives.Column.{Text}
use schema_js.Engine.{SchemeJsEngine}
use schema_js.Engine.Schema.{Files, sources}

-- What follows the first point.
abbrev after_point : Text → Option Text
after_point [] = none
after_point (c ∷ cs) = let rest = after_point cs in if c == 46 then some cs else rest

abbrev last_part : List Text → Option Text
last_part [] = none
last_part (name ∷ folders) = some name

abbrev extension_of : List Text → Option Text
extension_of [] = none
extension_of (name ∷ folders) = after_point name

-- A path is its parts, the last one first; a folder has "a.ts", an entry that cannot be read, and
-- "b.md".
abbrev disk : Files (List Text) (List Text)
disk = record {
  exists = λ path. true;
  file_name = last_part;
  join = λ path name. name ∷ path;
  canonicalize = some;
  walk = λ path.
      some ((97 ∷ 46 ∷ 116 ∷ 115 ∷ []) ∷ path)
      ∷ none
      ∷ some ((98 ∷ 46 ∷ 109 ∷ 100 ∷ []) ∷ path)
      ∷ [];
  extension = extension_of;
  from_file_path = some;
}

abbrev shop : Text
shop = 115 ∷ []

abbrev tables_of_shop : List Text
tables_of_shop = (116 ∷ 97 ∷ 98 ∷ 108 ∷ 101 ∷ 115 ∷ []) ∷ shop ∷ []

abbrev no_databases : SchemeJsEngine ℕ
no_databases = record { databases = [] }

sources_of_shop :
    sources disk (disk.walk tables_of_shop) ≡ ((97 ∷ 46 ∷ 116 ∷ 115 ∷ []) ∷ tables_of_shop) ∷ []
unfolding schema_js.Engine.Schema.is_js_or_ts
sources_of_shop = refl
