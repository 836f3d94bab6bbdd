-- ===== src/Query/Search/Sound.antt =====
-- The rows that a query returns meet it.
use schema_js.Prelude.{
  ℕ, ◌≡◌, refl, sym, ap, List, [], ◌∷◌, Option, none, some, true, inl, inr, All, Option-cases,
}
use schema_js.Prelude.Results.{Result}
use schema_js.MapShard.Ops.{text_eq}
use schema_js.Index.Entry.{NoEntry}
use schema_js.Index.Hash.{IndexOps}
use schema_js.Primitives.Column.{Text}
use schema_js.Primitives.Value.{ValueText}
use schema_js.Query.Ops.{QueryVal, QueryOps, and, or, condition, QueryList, no_ops, more_ops}
use schema_js.Query.TableShard.{TableShard}
use schema_js.Query.Search.{
  key_part, intersect_indices, union_indices, get_index_for_condition, find_index_for_query,
  collect_conditions, served, evaluate_condition, execute_query, and_results, or_results,
}
use schema_js.Query.Search.Meaning.{
  HasPart, Meets, MeetsAll, MeetsSome, AgreeIn, IsPlainQuery, AllPlain, Serves,
}
use schema_js.Query.Search.Sets.{intersect_indices-All, union_indices-All}
use schema_js.Query.Search.Whole.{Returns, rows_of, whole_query, get_index_for_condition-All}

All-map : {P Q : ℕ → Type 0} (xs : List ℕ) → ((n : ℕ) → P n → Q n) → All P xs → All Q xs
All-map [] f h = tt
All-map (x ∷ xs) f h = (f x h.0, All-map xs f h.1)

module _ {Ident Uuid Number I : Type 0} (print : ValueText Uuid Number) (index_ops : IndexOps I)
    (tbl : TableShard Ident I) (text_at : ℕ → Text → Option Text)
    (serve : All (Serves print text_at index_ops tbl) tbl.table.indexes) where
  evaluate_condition-HasPart :
      (cond : QueryVal Uuid Number)
      → cond.filter_type ≡ 61 ∷ []
      → Returns print index_ops tbl text_at
          (λ n. HasPart print text_at n (key_part print cond))
          (evaluate_condition print index_ops tbl cond)
  unfolding evaluate_condition
  evaluate_condition-HasPart cond plain =
      let indexes = tbl.table.indexes in
      let supported : text_eq cond.filter_type (61 ∷ []) ≡ true =
        ap (λ f. text_eq f (61 ∷ [])) plain in
      elim (Option-cases (get_index_for_condition cond indexes)) [
        | inl none_there ↦ record {
          rows = [];
          returns = rw (supported, none_there) refl;
          all_meet = tt;
        }
        | inr (index, found) ↦
            let (serves, members) =
              get_index_for_condition-All (Serves print text_at index_ops tbl) cond indexes index
                serve found in
            let r =
              rows_of print index_ops tbl text_at
                (λ n. HasPart print text_at n (key_part print cond)) serves.indx
                (key_part print cond ∷ []) (serves.answers (key_part print cond ∷ []) (sym members))
                (λ n has. has.0) in
            record {
              rows = r.rows;
              returns = rw (supported, found, serves.registered) r.returns;
              all_meet = r.all_meet;
            }
      ]

  abbrev Meeting : (ℕ → Type 0) → Result NoEntry (List ℕ) → Type 0
  Meeting P r = Returns print index_ops tbl text_at P r

  abbrev MeetsQuery : QueryOps Uuid Number → ℕ → Type 0
  MeetsQuery query n = Meets print text_at n query

  abbrev MeetsEach : QueryList Uuid Number → ℕ → Type 0
  MeetsEach ops n = MeetsAll print text_at n ops

  -- What is found with one index, or by parts.
  by_index :
      (query : QueryOps Uuid Number) (parts : Result NoEntry (List ℕ))
      → AgreeIn print (collect_conditions query)
      → Meeting (MeetsQuery query) parts
      → Meeting
          (MeetsQuery query)
          (served print index_ops tbl (find_index_for_query print query tbl.table.indexes) parts)
  by_index query parts agree h =
      elim (Option-cases (find_index_for_query print query tbl.table.indexes)) [
        | inl none_there ↦ rw none_there h
        | inr (found, e) ↦ rw e (whole_query print index_ops tbl text_at query found serve agree e)
      ]

  mutual
    unfolding execute_query collect_conditions

    query-Meets :
        (query : QueryOps Uuid Number)
        → IsPlainQuery print query
        → Returns print index_ops tbl text_at
            (λ n. Meets print text_at n query)
            (execute_query print index_ops tbl query)
    query-Meets (condition cond) plain =
        by_index (condition cond) (evaluate_condition print index_ops tbl cond)
          ((λ e. refl, tt), tt) (evaluate_condition-HasPart cond plain)
    query-Meets (and ops) plain =
        by_index (and ops) (and_results print index_ops tbl none ops) plain.0
          (first_results-MeetsAll ops plain.1)
    query-Meets (or ops) plain =
        by_index (or ops) (or_results print index_ops tbl [] ops) tt
          (or_results-MeetsSome ops [] ops plain tt (λ n h. h))

    first_results-MeetsAll :
        (ops : QueryList Uuid Number)
        → AllPlain print ops
        → Meeting (MeetsEach ops) (and_results print index_ops tbl none ops)
    first_results-MeetsAll no_ops plain = record { rows = []; returns = refl; all_meet = tt }
    first_results-MeetsAll (more_ops op ops) plain =
        let first = query-Meets op plain.0 in
        let done = All-map first.rows (λ n m. (m, tt)) first.all_meet in
        let rest = and_results-MeetsAll (more_ops op no_ops) first.rows ops plain.1 done in
        record {
          rows = rest.rows;
          returns = rw first.returns rest.returns;
          all_meet = All-map rest.rows (λ n m. (m.0.0, m.1)) rest.all_meet;
        }

    -- The rows so far meet the parts that are done.
    and_results-MeetsAll :
        (done : QueryList Uuid Number) (ids : List ℕ) (ops : QueryList Uuid Number)
        → AllPlain print ops
        → All (MeetsEach done) ids
        → Meeting
            (λ n. MeetsEach done n × MeetsEach ops n)
            (and_results print index_ops tbl (some ids) ops)
    and_results-MeetsAll done ids no_ops plain h = record {
      rows = ids;
      returns = refl;
      all_meet = All-map ids (λ n m. (m, tt)) h;
    }
    and_results-MeetsAll done ids (more_ops op ops) plain h =
        let first = query-Meets op plain.0 in
        let ids' = intersect_indices ids first.rows in
        let both =
          intersect_indices-All (MeetsEach done) (MeetsQuery op) ids first.rows h first.all_meet in
        let rest =
          and_results-MeetsAll (more_ops op done) ids' ops plain.1
            (All-map ids' (λ n m. (m.1, m.0)) both) in
        record {
          rows = rest.rows;
          returns = rw first.returns rest.returns;
          all_meet = All-map rest.rows (λ n m. (m.0.1, (m.0.0, m.1))) rest.all_meet;
        }

    or_results-MeetsSome :
        (whole : QueryList Uuid Number) (ids : List ℕ) (ops : QueryList Uuid Number)
        → AllPlain print ops
        → All (MeetsQuery (or whole)) ids
        → ((n : ℕ) → MeetsSome print text_at n ops → MeetsSome print text_at n whole)
        → Meeting (MeetsQuery (or whole)) (or_results print index_ops tbl ids ops)
    or_results-MeetsSome whole ids no_ops plain h f = record {
      rows = ids;
      returns = refl;
      all_meet = h;
    }
    or_results-MeetsSome whole ids (more_ops op ops) plain h f =
        let first = query-Meets op plain.0 in
        let here = All-map first.rows (λ n m. f n (inl m)) first.all_meet in
        let rest =
          or_results-MeetsSome whole (union_indices ids first.rows) ops plain.1
            (union_indices-All (MeetsQuery (or whole)) ids first.rows h here)
            (λ n m. f n (inr m)) in
        record {
          rows = rest.rows;
          returns = rw first.returns rest.returns;
          all_meet = rest.all_meet;
        }

  -- A query whose filters are all `=`, and whose conditions under one `And` agree, is answered
  -- without a panic, if the indexes of the table are open and answer with rows that have the
  -- parts of the key; every row that is returned meets the query.
  pub execute_query-Meets :
      (query : QueryOps Uuid Number)
      → IsPlainQuery print query
      → Returns print index_ops tbl text_at
          (λ n. Meets print text_at n query)
          (execute_query print index_ops tbl query)
  execute_query-Meets query plain = query-Meets query plain
