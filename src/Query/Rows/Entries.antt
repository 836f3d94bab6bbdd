-- ===== src/Query/Rows/Entries.antt =====
-- The entries that reconciled rows put into the indexes of their table.
use schema_js.Prelude.{
  ℕ, ◌≡◌, ◌≢◌, subst, refl, sym, ap, ◌∙◌, List, [], ◌∷◌, ◌++◌, append_assoc, append-nil, map, Bool,
  some, true, false, All, Bool-cases, inl, inr, if◌then◌else◌,
}
use schema_js.Prelude.Results.{Result, ok, ◌>>=◌, unwrap_or}
use schema_js.MapShard.Ops.{text_eq}
use schema_js.MapShard.State.{text_eq→eq}
use schema_js.TempShard.Ops.{DataWithIndex}
use schema_js.Index.Types.{IndexKeyType}
use schema_js.Index.Hash.{IndexOps}
use schema_js.Primitives.Column.{Text}
use schema_js.Primitives.Table.{Index, Table, lookup}
use schema_js.Primitives.Value.{DataValue, ValueText, to_string}
use schema_js.Query.Errors.{QueryError}
use schema_js.Query.Row.{Row}
use schema_js.Query.Rows.{
  Pending, can_index, member_values, push_item, add_row, add_row_to_all, collect_rows,
  insert_indexes,
}
use schema_js.Query.Rows.Pending.{lookup-push_item}
use schema_js.Query.Rows.Taken.{
  Accepts, Distinct, Filled, lookup-Filled, Served, push_item-Distinct, push_item-Served, take_all,
  taking, after_taking-taking,
}

-- The entries of a name, none if it has not been seen.
abbrev pub waiting_for : Text → Pending → List (IndexKeyType × ℕ)
waiting_for name pending = unwrap_or (lookup name pending) []

waiting_for-push_item :
    (added : Text) (item : IndexKeyType × ℕ) (name : Text) (pending : Pending)
    → waiting_for name (push_item added item pending)
      ≡ waiting_for name pending ++ (if text_eq added name then item ∷ [] else [])
waiting_for-push_item added item name pending =
    rw (lookup-push_item added item name pending) (elim (Bool-cases (text_eq added name)) [
      | inl same ↦
          rw same
            (ap (λ n. unwrap_or (lookup n pending) [] ++ (item ∷ [])) (text_eq→eq added name same))
      | inr other ↦ rw other (sym (append-nil (waiting_for name pending)))
    ])

Filled-some : (l : List (IndexKeyType × ℕ)) → Filled l → l ≢ []
Filled-some [] f = absurd f
Filled-some (item ∷ l) f = λ e. absurd (cc)

if_none : {A : Type 0} (b : Bool) → (if◌then◌else◌ {A = List A} b [] []) ≡ []
if_none true = refl
if_none false = refl

module _ {T Uuid Number I : Type 0} (print : ValueText Uuid Number) (rows : Row T Uuid Number)
    (index_ops : IndexOps I) (table : Table) (indexes : List (Text × I))
    (row_at : DataWithIndex → T)
    (vals_of : DataWithIndex → Index → List (Text × DataValue Uuid Number))
    (real_of : Index → I) where
  abbrev pub key_of : DataWithIndex → Index → IndexKeyType × ℕ
  key_of item index = (
    index_ops.to_key (real_of index) (map (λ v. (v.0, to_string print v.1)) (vals_of item index)),
    item.index,
  )

  -- The entry of a row under an index: none if all its values are null.
  abbrev pub entry_of : DataWithIndex → Index → List (IndexKeyType × ℕ)
  entry_of item index =
      if can_index print rows index_ops (vals_of item index) then key_of item index ∷ [] else []

  -- The entries of one row, and of all rows, under the indexes of a name.
  abbrev pub row_entries : Text → DataWithIndex → List Index → List (IndexKeyType × ℕ)
  row_entries name item [] = []
  row_entries name item (index ∷ rest) =
      (if text_eq index.name name then entry_of item index else []) ++ row_entries name item rest

  abbrev pub entries_of : Text → List DataWithIndex → List (IndexKeyType × ℕ)
  entries_of name [] = []
  entries_of name (item ∷ items) = row_entries name item table.indexes ++ entries_of name items

  -- Under an index of the table the row has the values, and the index is there.
  abbrev pub Under : DataWithIndex → Index → Type 0
  Under item index =
      (member_values print rows index_ops table (row_at item) index.members
        ≡ ok (vals_of item index))
      × (lookup index.name indexes ≡ some (real_of index))

  -- The bytes are those of the row.
  abbrev pub Readable : DataWithIndex → Type 0
  Readable item = (rows.from_bytes item.payload ≡ ok (row_at item)) × All (Under item) table.indexes

  record Adds (pending : Pending) (added : Text → List (IndexKeyType × ℕ))
      (r : Result QueryError Pending) : Type 0 where
    after : Pending
    returns : r ≡ ok after
    entries : (name : Text) → waiting_for name after ≡ waiting_for name pending ++ added name
    ready : Distinct pending → Served indexes pending → Distinct after × Served indexes after

  add_one :
      (item : DataWithIndex) (index : Index) (pending : Pending)
      → Under item index
      → Adds pending
          (λ name. if text_eq index.name name then entry_of item index else [])
          (add_row print rows index_ops table indexes (row_at item) item.index index pending)
  unfolding add_row
  add_one item index pending (values, there) =
      elim (Bool-cases (can_index print rows index_ops (vals_of item index))) [
        | inl indexed ↦ record {
          after = push_item index.name (key_of item index) pending;
          returns = rw (values, ◌>>=◌, indexed, there) refl;
          entries = λ name.
              rw indexed (waiting_for-push_item index.name (key_of item index) name pending);
          ready = λ d s. (
            push_item-Distinct index.name (key_of item index) pending d,
            push_item-Served indexes index.name (key_of item index) pending (real_of index) there s,
          );
        }
        | inr all_null ↦ record {
          after = pending;
          returns = rw (values, ◌>>=◌, all_null) refl;
          entries = λ name.
              rw (all_null, if_none (text_eq index.name name))
                (sym (append-nil (waiting_for name pending)));
          ready = λ d s. (d, s);
        }
      ]

  add_all :
      (item : DataWithIndex) (is : List Index) (pending : Pending)
      → All (Under item) is
      → Adds pending
          (λ name. row_entries name item is)
          (add_row_to_all print rows index_ops table indexes (row_at item) item.index is pending)
  unfolding add_row_to_all
  add_all item [] pending under = record {
    after = pending;
    returns = refl;
    entries = λ name. sym (append-nil (waiting_for name pending));
    ready = λ d s. (d, s);
  }
  add_all item (index ∷ is) pending under =
      let one = add_one item index pending under.0 in
      let rest = add_all item is one.after under.1 in
      record {
        after = rest.after;
        returns = rw (one.returns, ◌>>=◌, rest.returns) refl;
        entries = λ name.
            rest.entries name
            ∙ ap (λ l. l ++ row_entries name item is) (one.entries name)
            ∙ append_assoc (waiting_for name pending) _ (row_entries name item is);
        ready = λ d s. let both = one.ready d s in rest.ready both.0 both.1;
      }

  collect :
      (items : List DataWithIndex) (pending : Pending)
      → All Readable items
      → Adds pending
          (λ name. entries_of name items)
          (collect_rows print rows index_ops table indexes items pending)
  unfolding collect_rows
  collect [] pending readable = record {
    after = pending;
    returns = refl;
    entries = λ name. sym (append-nil (waiting_for name pending));
    ready = λ d s. (d, s);
  }
  collect (item ∷ items) pending readable =
      let one = add_all item table.indexes pending readable.0.1 in
      let rest = collect items one.after readable.1 in
      record {
        after = rest.after;
        returns = rw (readable.0.0, ◌>>=◌, one.returns, ◌>>=◌, rest.returns) refl;
        entries = λ name.
            rest.entries name
            ∙ ap (λ l. l ++ entries_of name items) (one.entries name)
            ∙ append_assoc (waiting_for name pending) _ (entries_of name items);
        ready = λ d s. let both = one.ready d s in rest.ready both.0 both.1;
      }

  -- Reconciled rows that can be read, whose values and indexes are there: if the bulk insertion of its
  -- entries into each index that has some succeeds, each index takes, in that one bulk insertion, the
  -- entries of the rows in their order under the indexes of its name, without those whose values are
  -- all null; an index without entries, or of another name, stays.
  pub insert_indexes-entries :
      (taken : I → List (IndexKeyType × ℕ) → I) (items : List DataWithIndex)
      → ((name : Text) (i : I)
          → lookup name indexes ≡ some i
          → entries_of name items ≢ []
          → index_ops.bulk_insert i (entries_of name items) ≡ ok (taken i (entries_of name items)))
      → All Readable items
      → (after : List (Text × I)) × (insert_indexes print rows index_ops table indexes items
          ≡ ok after)
        × ((name : Text)
            → lookup name after ≡ taking taken (entries_of name items) (lookup name indexes))
  unfolding insert_indexes lookup
  insert_indexes-entries taken items accepts readable =
      let all = collect items [] readable in
      let (distinct, served) = all.ready tt tt in
      let accepted : Accepts print rows index_ops taken indexes all.after =
        λ name its i waits there.
          let same : its ≡ entries_of name items =
            ap (λ o. unwrap_or o []) (sym waits) ∙ all.entries name in
          let filled = lookup-Filled indexes all.after name its served waits in
          subst (λ l. index_ops.bulk_insert i l ≡ ok (taken i l)) (sym same)
            (accepts name i there
              (Filled-some (entries_of name items) (subst Filled same filled))) in
      let takes = take_all print rows index_ops taken indexes all.after accepted distinct served in
      (
        takes.after,
        rw (all.returns, ◌>>=◌) takes.returns,
        λ name.
            takes.lookups name
            ∙ after_taking-taking taken indexes all.after name (lookup name indexes) served
            ∙ ap (λ l. taking taken l (lookup name indexes)) (all.entries name),
      )
