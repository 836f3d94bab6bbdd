-- ===== src/Runs/Reconciled.antt =====
-- A reconciled row that goes into a hash index.
use schema_js.Prelude.{
  ℕ, ◌≡◌, ◌≢◌, refl, sym, ap, subst, ◌∙◌, List, [], ◌∷◌, none, some, true, replicate, Bool-cases,
  inl, inr, arith,
}
use schema_js.Prelude.Results.{Result, ok, err, panic}
use schema_js.Prelude.Bytes.{Bytes}
use schema_js.Index.Types.{IndexKeyType}
use schema_js.Index.Entry.{NoEntry}
use schema_js.Index.Keys.{key_from_composite}
use schema_js.Index.Utf8.{is_utf8}
use schema_js.Index.Hash.{HashIndex, new_from_path, bulk_insert, hash_ops}
use schema_js.Index.Hash.Map.{Stored, Added, IsKey, insert-Stored}
use schema_js.Index.Hash.Start.{new_from_path-Stored}
use schema_js.Index.Shard.Room.{HasRoom}
use schema_js.MapShard.Ops.{World, text_eq}
use schema_js.Storage.File.{Platform}
use schema_js.Primitives.Column.{Text, DataTypes, new_column}
use schema_js.Primitives.Table.{Index, Table, lookup}
use schema_js.Primitives.Value.{DataValue}
use schema_js.Query.Row.{Row}
use schema_js.Query.Rows.{insert_indexes, member_values}
use schema_js.Query.Rows.Entries.{entries_of, insert_indexes-entries}
use schema_js.Query.Rows.Taken.{taking}
use schema_js.TempShard.Ops.{DataWithIndex}
use schema_js.Runs.Queries.{print, column_a, one_text, table_a}
use schema_js.Runs.Samples.{SampleId, first, sample_id, sample_uuid}

-- Rows that are texts.
abbrev texts : Row Text SampleId ℕ
texts = record {
  get_value = λ row column. ok (some (DataValue.string row));
  get_table_name = λ row. column_a;
  validate = λ row. ok true;
  serialize = λ row. ok row;
  deserialize = λ row bytes. ok bytes;
  from_bytes = λ bytes. ok bytes;
}

abbrev with_a : Table
with_a = record table_a.table { columns = (column_a, new_column column_a DataTypes.string) ∷ [] }

abbrev items : List DataWithIndex
items = record { payload = one_text; index = 4 } ∷ []

abbrev payload_of : DataWithIndex → Text
payload_of item = item.payload

abbrev text_values : DataWithIndex → Index → List (Text × DataValue SampleId ℕ)
text_values item index = (column_a, DataValue.string item.payload) ∷ []

abbrev world : World SampleId
world = record { platform = Platform.posix; disk = λ path. []; drawn = sample_id }

-- A digest of 32 bytes.
abbrev digest : Bytes → Bytes
digest bytes = replicate 32 10

empty_index :
    (h : HashIndex SampleId) × (new_from_path world [] none none first ≡ ok h) × Stored 0 h [] []
empty_index = new_from_path-Stored world refl [] none none first tt refl (omega arith)

abbrev key : Bytes
key = key_from_composite digest ((column_a, one_text) ∷ [])

key-IsKey : IsKey key
unfolding is_utf8 key_from_composite schema_js.Index.Keys.sha256_to_string
key-IsKey = record { key_length = refl; utf8 = refl }

abbrev or_same : HashIndex SampleId → Result NoEntry (HashIndex SampleId) → HashIndex SampleId
or_same h (ok h') = h'
or_same h (err e) = h
or_same h panic = h

abbrev taken : HashIndex SampleId → List (IndexKeyType × ℕ) → HashIndex SampleId
taken h new = or_same h (bulk_insert world h new)

added :
    (h' : HashIndex SampleId) × (schema_js.Index.Hash.insert world empty_index.0
        (IndexKeyType.sha256 key)
        4
      ≡ ok h')
    × Added 0 empty_index.0 h' [] [] key 4
added =
    insert-Stored 0 world empty_index.0 [] [] key 4 empty_index.2 key-IsKey (omega arith) tt
      (HasRoom.unlimited refl) (omega arith) (omega arith) (omega arith)

abbrev entry : List (IndexKeyType × ℕ)
entry = (IndexKeyType.sha256 key, 4) ∷ []

bulk_added : bulk_insert world empty_index.0 entry ≡ ok added.0
unfolding bulk_insert schema_js.Index.Hash.hashed_rows schema_js.Index.Hash.insert
bulk_added = added.1

takes_entry : bulk_insert world empty_index.0 entry ≡ ok (taken empty_index.0 entry)
takes_entry = bulk_added ∙ ap (λ r. ok (or_same empty_index.0 r)) (sym bulk_added)

abbrev indexes : List (Text × HashIndex SampleId)
indexes = (column_a, empty_index.0) ∷ []

abbrev entries : Text → List (IndexKeyType × ℕ)
entries name =
    entries_of print texts (hash_ops world digest) with_a indexes payload_of text_values
      (λ index. empty_index.0) name items

only_entry : (name : Text) → text_eq column_a name ≡ true → entries name ≡ entry
unfolding schema_js.Query.Rows.can_index schema_js.Primitives.Value.to_string
only_entry name here = rw here refl

accepts :
    (name : Text) (h : HashIndex SampleId)
    → lookup name indexes ≡ some h
    → entries name ≢ []
    → bulk_insert world h (entries name) ≡ ok (taken h (entries name))
unfolding lookup
accepts name h there some_entries = elim (Bool-cases (text_eq column_a name)) [
  | inl here ↦
      let found : some empty_index.0 ≡ some h = rw here at there in
      let same : empty_index.0 ≡ h = cc in
      subst (λ l. bulk_insert world h l ≡ ok (taken h l)) (sym (only_entry name here))
        (subst (λ g. bulk_insert world g entry ≡ ok (taken g entry)) same takes_entry)
  | inr other ↦ absurd (some_entries (rw other refl))
]

insert_indexes-entries_example :
    (after : List (Text × HashIndex SampleId)) × (insert_indexes print texts
        (hash_ops world digest)
        with_a
        indexes
        items
      ≡ ok after)
    × ((name : Text)
        → lookup name after
          ≡ taking taken
              (entries_of print texts
                (hash_ops world digest)
                with_a
                indexes
                payload_of
                text_values
                (λ index. empty_index.0)
                name
                items)
              (lookup name indexes))
unfolding lookup member_values
insert_indexes-entries_example =
    insert_indexes-entries print texts (hash_ops world digest) with_a indexes payload_of text_values
      (λ index. empty_index.0) taken items accepts ((refl, ((refl, refl), tt)), tt)
