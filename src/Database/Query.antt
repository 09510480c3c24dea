-- ===== src/Database/Query.antt =====
-- `execute_query` of ch_diag/clickhouse.py. The redaction of an exception's text, the size of rows
-- as JSON, the conversion of a cell and the time that a query takes are arguments. Of a diagnostic,
-- the evidence of its kind and the type of the exception beside a limit are left out.
pub mod Tests
pub mod Laws
pub mod Failures
use ch_diag.Artifact.{Column, Diagnostic, Payload, no_result}
use ch_diag.Collector.Services.{Execution}
use ch_diag.Database.Errors.{Failure, classify_error, failure_kind, query_limit_code}
use ch_diag.Database.Reconnect.{execute_with_reconnect}
use ch_diag.Database.Schema.{Descriptor, column_descriptor, validate_column_descriptor}
use ch_diag.Database.Session.{Answer, Driver, Reply, Step, gave, threw}
use ch_diag.Prelude.{Bool, List, Option, String, [], false, map, none, some, true, ℕ, ◌∷◌}
use ch_diag.Prelude.Lists.{length}
use ch_diag.Prelude.Results.{Result, err, ok}
use ch_diag.Prelude.Tests.{if◌then◌else◌, ltb}

pub record Settings : Type 0 where
  pub reconnect_attempts : ℕ
  pub has_delay : Bool
  pub max_result_bytes : ℕ
  pub redact_error : Failure → String
  pub encoded_size : List (List String) → ℕ
  pub json_safe : Descriptor → String → String
  pub timing_ms : ℕ

abbrev pub is_ok : Result (Unit {0}) → Bool
is_ok (err e) = false
is_ok (ok done) = true

unfoldable pub descriptors : List (String × String) → List Descriptor
unfolding column_descriptor
descriptors [] = []
descriptors ((name, type) ∷ columns) = column_descriptor name type ∷ descriptors columns

unfoldable pub public_column : Descriptor → Column
unfolding validate_column_descriptor
public_column d = record { name = d.name; is_valid = is_ok (validate_column_descriptor d) }

-- `[json_safe(value, public_columns[index]) for index, value in enumerate(row)]`; the driver gives
-- each row a value for each column, and values beyond the columns, an `IndexError`, are left out
unfoldable pub public_row : Settings → List Descriptor → List String → List String
public_row s [] row = []
public_row s (d ∷ ds) [] = []
public_row s (d ∷ ds) (cell ∷ row) = s.json_safe d cell ∷ public_row s ds row

unfoldable pub public_rows : Settings → List Descriptor → List (List String) → List (List String)
unfolding public_row
public_rows s ds [] = []
public_rows s ds (row ∷ rows) = public_row s ds row ∷ public_rows s ds rows

abbrev pub table_of : List Column → List (List String) → Payload
table_of columns rows = record no_result {
  kind = "table";
  columns = columns;
  rows = rows;
  row_count = some (length rows);
}

abbrev pub or_type_name : Option String → Failure → String
or_type_name none e = e.type_name
or_type_name (some limit) e = limit

abbrev pub is_given : Option String → Bool
is_given none = false
is_given (some s) = true

abbrev pub kind_only : Option (String × String) → Option String
kind_only none = none
kind_only (some k) = some k.0

-- the diagnostic and the result of an exception
unfoldable pub failure_diagnostic : Settings → Failure → Bool → Diagnostic
unfolding query_limit_code failure_kind
failure_diagnostic s e optional =
    let limit_code = query_limit_code e in
    record {
      level = "error";
      code = some (or_type_name limit_code e);
      failure_kind = kind_only (failure_kind e optional);
      coverage_incomplete = is_given limit_code;
      message = s.redact_error e;
    }

unfoldable pub failed_execution : Settings → String → Failure → Bool → Execution
unfolding classify_error failure_diagnostic
failed_execution s rendered e optional = record {
  collection_status = classify_error e optional;
  reason = some (s.redact_error e);
  timing_ms = some s.timing_ms;
  result = table_of [] [];
  diagnostics = failure_diagnostic s e optional ∷ [];
  source_text = some rendered;
}

abbrev pub size_message : String
size_message = "ClickHouse result is above the limit of bytes"

abbrev pub size_diagnostic : Diagnostic
size_diagnostic = record {
  level = "error";
  code = some "result_size_limit";
  failure_kind = some "result_limit";
  coverage_incomplete = true;
  message = size_message;
}

-- `"ok" if public_rows else "empty"`
abbrev pub status_of : List (List String) → String
status_of [] = "empty"
status_of (row ∷ rows) = "ok"

-- the result of rows that were read
unfoldable pub read_execution : Settings → String → Answer → Execution
unfolding descriptors public_column public_rows
read_execution s rendered a =
    let ds = descriptors a.columns in
    let columns = map public_column ds in
    let rows = public_rows s ds a.rows in
    if ltb s.max_result_bytes (s.encoded_size rows)
    then record {
      collection_status = "error";
      reason = some size_message;
      timing_ms = some s.timing_ms;
      result = table_of columns [];
      diagnostics = size_diagnostic ∷ [];
      source_text = some rendered;
    }
    else record {
      collection_status = status_of rows;
      reason = none;
      timing_ms = some s.timing_ms;
      result = table_of columns rows;
      diagnostics = [];
      source_text = some rendered;
    }

-- `execute_query`, from the SQL that `render_target_sql` gives; its exception comes out
unfoldable pub execution_of : Settings → String → Bool → Reply Answer → Execution
unfolding failed_execution read_execution
execution_of s rendered optional (threw e) = failed_execution s rendered e optional
execution_of s rendered optional (gave a) = read_execution s rendered a

unfoldable pub execute_rendered : Settings → Driver → Bool → String → Step Execution
unfolding execute_with_reconnect execution_of
execute_rendered s driver optional rendered a =
    let (later, reply) =
      execute_with_reconnect s.reconnect_attempts s.has_delay driver rendered a in
    (later, gave (execution_of s rendered optional reply))

unfoldable pub execute_query : Settings → Driver → Bool → Reply String → Step Execution
unfolding execute_rendered
execute_query s driver optional (threw e) a = (a, threw e)
execute_query s driver optional (gave rendered) a = execute_rendered s driver optional rendered a
