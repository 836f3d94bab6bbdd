-- ===== src/Query/Search/Meaning.antt =====
-- What a query asks of a row, and what it asks of the indexes.
use schema_js.Prelude.{ℕ, ◌≡◌, List, [], ◌∷◌, map, Option, none, some, All, ◌⊎◌}
use schema_js.Prelude.Results.{Result, ok}
use schema_js.Index.Entry.{NoEntry}
use schema_js.Index.Keys.{CompositeKey}
use schema_js.Index.Hash.{IndexOps}
use schema_js.Primitives.Column.{Text}
use schema_js.Primitives.Table.{Index, lookup}
use schema_js.Primitives.Value.{ValueText, to_string}
use schema_js.Query.Ops.{QueryVal, QueryOps, and, or, condition, QueryList, no_ops, more_ops}
use schema_js.Query.TableShard.{TableShard}
use schema_js.Query.Search.{key_part, to_list, collect_all}

module _ {Uuid Number : Type 0} (print : ValueText Uuid Number) where
  -- Conditions on one column ask for the same text.
  abbrev pub Agree : List (QueryVal Uuid Number) → Type 0
  Agree conditions =
      All
        (λ c.
          All (λ d. c.key ≡ d.key → to_string print c.value ≡ to_string print d.value) conditions)
        conditions

  abbrev pub AgreeIn : Option (List (QueryVal Uuid Number)) → Type 0
  AgreeIn none = Unit {0}
  AgreeIn (some conditions) = Agree conditions

  abbrev mutual
    -- Every filter is `=`, and the conditions under one `And` do not contradict each other.
    pub IsPlainQuery : QueryOps Uuid Number → Type 0
    IsPlainQuery (condition cond) = cond.filter_type ≡ 61 ∷ []
    IsPlainQuery (and ops) = AgreeIn (collect_all ops) × AllPlain ops
    IsPlainQuery (or ops) = AllPlain ops

    pub AllPlain : QueryList Uuid Number → Type 0
    AllPlain no_ops = Unit {0}
    AllPlain (more_ops op ops) = IsPlainQuery op × AllPlain ops

module _ {Uuid Number : Type 0} (print : ValueText Uuid Number)
    (text_at : ℕ → Text → Option Text) where
  -- The row `n` has the text of a part in its column.
  abbrev pub HasPart : ℕ → Text × Text → Type 0
  HasPart n (column, text) = text_at n column ≡ some text

  abbrev mutual
    -- The row `n` meets a query, every filter of which is read as an equation.
    pub Meets : ℕ → QueryOps Uuid Number → Type 0
    Meets n (condition cond) = HasPart n (key_part print cond)
    Meets n (and ops) = MeetsAll n ops
    Meets n (or ops) = MeetsSome n ops

    pub MeetsAll : ℕ → QueryList Uuid Number → Type 0
    MeetsAll n no_ops = Unit {0}
    MeetsAll n (more_ops op ops) = Meets n op × MeetsAll n ops

    pub MeetsSome : ℕ → QueryList Uuid Number → Type 0
    MeetsSome n no_ops = ⊥
    MeetsSome n (more_ops op ops) = Meets n op ⊎ MeetsSome n ops

  module _ {Ident I : Type 0} (index_ops : IndexOps I) (tbl : TableShard Ident I) where
    -- A lookup answers with rows that have the parts of the key.
    pub record Answers (r : Result NoEntry (Option ℕ)) (key : CompositeKey) : Type 0 where
      pub pointer : Option ℕ
      pub returns : r ≡ ok pointer
      pub rows : All (λ n. All (HasPart n) key) (to_list pointer)

    -- An index of the table is open, and answers for keys of its columns.
    pub record Serves (index : Index) : Type 0 where
      pub indx : I
      pub registered : lookup index.name tbl.indexes ≡ some indx
      pub answers :
          (key : CompositeKey)
          → map (λ part. part.0) key ≡ index.members
          → Answers (index_ops.get indx (index_ops.to_key indx key)) key
