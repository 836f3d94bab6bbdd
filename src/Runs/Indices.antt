-- ===== src/Runs/Indices.antt =====
-- Entries and keys of indices at inputs.
use schema_js.Prelude.{◌≡◌, refl, [], ◌∷◌, ◌++◌, some, length, replicate, arith}
use schema_js.Prelude.Results.{ok}
use schema_js.Prelude.Bytes.{Bytes}
use schema_js.Storage.File.{Platform}
use schema_js.Storage.Handler.{DataHandler}
use schema_js.Index.Unit.{new_unit, into_bytes, from_data_handler, from_data_handler-into_bytes}
use schema_js.Index.Entry.{build_entry, build_entry_from_vec, build_entry_from_vec-build_entry}
use schema_js.Index.Keys.{key_from_composite, key_from_composite-moved}

-- "ab" and the number 7 as 8 bytes
abbrev short_key : Bytes
short_key = 97 ∷ 98 ∷ []

abbrev seven : Bytes
seven = 7 ∷ replicate 7 0

build_entry_from_vec-build_entry_example :
    build_entry_from_vec 2 (into_bytes (build_entry short_key seven))
    ≡ ok (new_unit short_key, new_unit seven, into_bytes (build_entry short_key seven))
build_entry_from_vec-build_entry_example =
    build_entry_from_vec-build_entry 2 short_key seven refl (omega arith)

abbrev unit_file : DataHandler
unit_file = record {
  path = [];
  map_len = length (short_key ++ (into_bytes (new_unit seven) ++ short_key));
  file = record {
    platform = Platform.posix;
    bytes = short_key ++ (into_bytes (new_unit seven) ++ short_key);
  };
}

from_data_handler-into_bytes_example : from_data_handler 2 unit_file ≡ ok (some (new_unit seven))
from_data_handler-into_bytes_example =
    from_data_handler-into_bytes unit_file short_key seven short_key refl (omega arith) refl

-- A column "a" with the value "bb" has the key of a column "ab" with the value "b".
key_from_composite-moved_example :
    key_from_composite (λ b. b) (((97 ∷ []) ++ (98 ∷ []), 98 ∷ []) ∷ [])
    ≡ key_from_composite (λ b. b) ((97 ∷ [], (98 ∷ []) ++ (98 ∷ [])) ∷ [])
key_from_composite-moved_example =
    key_from_composite-moved (λ b. b) (97 ∷ []) (98 ∷ []) (98 ∷ []) []
