-- ===== src/Database/Query/Laws.antt =====
-- What the collector relies on in the result of a query.
use ch_diag.Artifact.{Column, collection_statuses}
use ch_diag.Artifact.Check.{validate_result}
use ch_diag.Collector.Services.{Execution}
use ch_diag.Database.Errors.{Failure, classify_error, failure_kind, kind_is}
use ch_diag.Database.Query.{
  Settings, descriptors, execution_of, failed_execution, public_column, public_row, public_rows,
  read_execution, status_of, table_of,
}
use ch_diag.Database.Schema.{Descriptor, column_descriptor-validates}
use ch_diag.Database.Session.{Answer, Reply, gave, threw}
use ch_diag.Prelude.{
  Bool, List, Option, String, [], arith, false, map, not, refl, sym, true, ◌==◌, ◌∙◌, ◌∷◌, ◌≡◌,
}
use ch_diag.Prelude.Lists.{All, All-mono, any, elem, length}
use ch_diag.Prelude.Results.{ok}
use ch_diag.Prelude.Tests.{if_both, ltb, nat_eq}

-- the rows of an answer have a value for each column, and the columns have names
abbrev pub IsRectangular : Answer → Type 0
IsRectangular a =
    All (λ (column : String × String). (column.0 == "") ≡ false) a.columns
    × All (λ (row : List String). length row ≡ length a.columns) a.rows

abbrev pub AnswersWell : Reply Answer → Type 0
AnswersWell (threw e) = Unit
AnswersWell (gave a) = IsRectangular a

length-descriptors :
    (columns : List (String × String)) → length (descriptors columns) ≡ length columns
unfolding descriptors
length-descriptors [] = refl
length-descriptors ((name, type) ∷ columns) = omega (arith, length-descriptors columns)

length-public_columns : (ds : List Descriptor) → length (map public_column ds) ≡ length ds
length-public_columns [] = refl
length-public_columns (d ∷ ds) = omega (arith, length-public_columns ds)

any-invalid :
    (columns : List (String × String))
    → All (λ (column : String × String). (column.0 == "") ≡ false) columns
    → any (λ (c : Column). not c.is_valid) (map public_column (descriptors columns)) ≡ false
unfolding descriptors public_column
any-invalid [] h = refl
any-invalid ((name, type) ∷ columns) h =
    rw (column_descriptor-validates name type h.0) (any-invalid columns h.1)

length-public_row :
    (s : Settings) (ds : List Descriptor) (row : List String)
    → length row ≡ length ds
    → length (public_row s ds row) ≡ length ds
unfolding public_row
length-public_row s [] row h = refl
length-public_row s (d ∷ ds) [] h = h
length-public_row s (d ∷ ds) (cell ∷ row) h =
    let e : length row ≡ length ds = omega arith in omega (arith, length-public_row s ds row e)

any-malformed :
    (s : Settings) (ds : List Descriptor) (rows : List (List String))
    → All (λ (row : List String). length row ≡ length ds) rows
    → any
        (λ (row : List String). not (nat_eq (length row) (length (map public_column ds))))
        (public_rows s ds rows)
      ≡ false
unfolding public_rows
any-malformed s ds [] h = refl
any-malformed s ds (row ∷ rows) h =
    ground
      (arith, length-public_row s ds row h.0, length-public_columns ds, any-malformed s ds rows h.1)

validate_result-table :
    (id : String) (columns : List Column) (rows : List (List String))
    → any (λ (c : Column). not c.is_valid) columns ≡ false
    → any (λ (row : List String). not (nat_eq (length row) (length columns))) rows ≡ false
    → validate_result id (table_of columns rows) ≡ ok tt
unfolding validate_result
validate_result-table id columns rows h k = rw (h, k) (ground arith)

classify_error-IsStatus :
    (e : Failure) (optional : Bool) → elem (classify_error e optional) collection_statuses ≡ true
unfolding classify_error
classify_error-IsStatus e optional = if_both Q (kind_is "query_timeout" k) _ _ refl (
    if_both Q (kind_is "permission_denied" k) _ _ refl
      (if_both Q (kind_is "unsupported_capability" k) _ _ refl refl))
  where
    Q : String → Type 0
    Q s = elem s collection_statuses ≡ true

    k : Option (String × String)
    k = failure_kind e optional

abbrev pub IsAccepted : String → Execution → Type 0
IsAccepted id x =
    (validate_result id x.result ≡ ok tt) × (elem x.collection_status collection_statuses ≡ true)

read_execution-IsAccepted :
    (id : String) (s : Settings) (rendered : String) (a : Answer)
    → IsRectangular a
    → IsAccepted id (read_execution s rendered a)
unfolding read_execution
read_execution-IsAccepted id s rendered a h =
    if_both (IsAccepted id) (ltb s.max_result_bytes (s.encoded_size rows)) _ _
      (validate_result-table id columns [] valid refl, refl)
      (validate_result-table id columns rows valid formed, status rows)
  where
    columns : List Column
    columns = map public_column (descriptors a.columns)

    rows : List (List String)
    rows = public_rows s (descriptors a.columns) a.rows

    valid : any (λ (c : Column). not c.is_valid) columns ≡ false
    valid = any-invalid a.columns h.0

    same :
        (row : List String)
        → length row ≡ length a.columns
        → length row ≡ length (descriptors a.columns)
    same row e = e ∙ sym (length-descriptors a.columns)

    formed : any (λ (row : List String). not (nat_eq (length row) (length columns))) rows ≡ false
    formed = any-malformed s (descriptors a.columns) a.rows (All-mono _ _ a.rows same h.1)

    status : (rs : List (List String)) → elem (status_of rs) collection_statuses ≡ true
    status [] = refl
    status (r ∷ rs) = refl

-- Whatever the driver answers or raises, what `execute_query` returns has a status that artifacts
-- know and a result that their validation accepts, for answers whose columns have names and whose
-- rows have a value for each column.
pub execution_of-IsAccepted :
    (id : String) (s : Settings) (rendered : String) (optional : Bool) (r : Reply Answer)
    → AnswersWell r
    → IsAccepted id (execution_of s rendered optional r)
unfolding execution_of failed_execution
execution_of-IsAccepted id s rendered optional (threw e) h =
    (validate_result-table id [] [] refl refl, classify_error-IsStatus e optional)
execution_of-IsAccepted id s rendered optional (gave a) h =
    read_execution-IsAccepted id s rendered a h
