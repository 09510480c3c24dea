-- ===== src/Database/Tests.antt =====
-- Runs of the adapter on a small driver, and the theorems at concrete values.
use ch_diag.Database.Capabilities.{
  Catalog, Requires, check_name, column_key, find_missing, object_exists, supports_requirements,
  table_key,
}
use ch_diag.Database.Capabilities.Cached.{Agrees, plain_supports, supports_requirements-Agrees}
use ch_diag.Database.Errors.{
  Failure, failure_kind, is_transport_disconnect, limit_or_other, other_kind, query_limit_code,
}
use ch_diag.Database.Evidence.{IsFounded, failure_kind-IsFounded}
use ch_diag.Database.Reconnect.{
  attempt_again, context_of, context_sql, database_identity, execute_with_reconnect, is_retried,
  read_runtime_context, readonly_sql, readonly_value, remember_or_verify, retry, seen_version,
  verify_reconnect_identity,
}
use ch_diag.Database.Reconnect.Closed.{Cancels, close-stops}
use ch_diag.Database.Reconnect.Moves.{Moves}
use ch_diag.Database.Reconnect.Rounds.{Settles, execute_with_reconnect-Settles}
use ch_diag.Database.Reconnect.Same.{execute_with_reconnect-Moves}
use ch_diag.Database.Session.{
  Adapter, Answer, Client, Driver, Identity, Reply, asked, check_answer, close, closed_error, error,
  execute_raw, gave, identity_changed, identity_context, in_time, ran, run_client, run_opened,
  same_identity, slept, threw, verify_database_identity, zip_get,
}
use ch_diag.Database.Sql.{
  cluster_target, quote_clickhouse_string, resolve_targets, select_clusters, split_qualified_name,
}
use ch_diag.Database.Sql.Quoted.{literal, literal-quote}
use ch_diag.Planner.Requirements.{cluster}
use ch_diag.Prelude.{List, String, [], false, refl, some, suc, true, zero, ◌++◌, ◌==◌, ◌∷◌, ◌≡◌}
use ch_diag.Prelude.Lists.{All}
use ch_diag.Prelude.Tests.{if◌then◌else◌}
use ch_diag.Prelude.Text.{Text, codes}
use ch_diag.Versioning.{dotted, match_version, parse}

abbrev here : Identity
here = record { current_database = "default"; server_version = "24.8.1"; database_hostname = "ch1" }

abbrev identity_answer : String → Answer
identity_answer server = record {
  columns =
      ("server_version", "String")
      ∷ ("current_database", "String")
      ∷ ("current_user", "String")
      ∷ ("server_hostname", "String")
      ∷ [];
  rows = ("24.8.1" ∷ "default" ∷ "reader" ∷ server ∷ []) ∷ [];
}

abbrev pub one_row : String → Answer
one_row value = record { columns = ("value", "UInt64") ∷ []; rows = (value ∷ []) ∷ [] }

abbrev pub reset : Failure
reset = record (error "Error" "Connection reset by peer") { code = some 210 }

abbrev replies : String → String → Reply Answer
replies server sql =
    if sql == context_sql
    then gave (identity_answer server)
    else if sql == readonly_sql
    then gave (one_row "2")
    else gave (one_row "7")

abbrev healthy : String → Client
healthy server = record {
  identify = gave (identity_answer server);
  execute = replies server;
  timing = in_time;
}

-- the first connection is reset, and the next ones go to the server
abbrev driver_to : String → Driver
driver_to server zero = gave (record (healthy "ch1") { execute = λ sql. threw reset })
driver_to server (suc n) = gave (healthy server)

abbrev started : Adapter
started = record { identity = some here; closed = false; opened = 0; clients = []; trace = [] }

-- the query is tried again, after two queries about the identity
retried : execute_with_reconnect 1 true (driver_to "ch1") "SELECT 7" started ≡ (
  record started {
    opened = 4;
    trace =
        asked 0
        ∷ ran 0 "SELECT 7"
        ∷ slept
        ∷ asked 1
        ∷ ran 1 context_sql
        ∷ asked 2
        ∷ ran 2 readonly_sql
        ∷ asked 3
        ∷ ran 3 "SELECT 7"
        ∷ [];
  },
  gave (one_row "7"),
)
unfolding execute_with_reconnect execute_raw run_opened run_client check_answer identity_context
    zip_get verify_database_identity same_identity is_transport_disconnect failure_kind
    limit_or_other query_limit_code other_kind retry attempt_again verify_reconnect_identity
    read_runtime_context seen_version parse match_version dotted context_of readonly_value
    remember_or_verify database_identity
retried = refl

-- another server answers: the query is not tried again
refused :
    (execute_with_reconnect 1 true (driver_to "ch2") "SELECT 7" started).1 ≡ threw identity_changed
unfolding execute_with_reconnect execute_raw run_opened run_client check_answer identity_context
    zip_get verify_database_identity same_identity is_transport_disconnect failure_kind
    limit_or_other query_limit_code other_kind retry attempt_again verify_reconnect_identity
    read_runtime_context is_retried
refused = refl

execute_with_reconnect-Moves_example :
    Moves
      (driver_to "ch1")
      here
      4
      started
      (execute_with_reconnect 1 true (driver_to "ch1") "SELECT 7" started).0
execute_with_reconnect-Moves_example =
    execute_with_reconnect-Moves (driver_to "ch1") here 1 true "SELECT 7" started refl

execute_with_reconnect-Settles_example :
    Settles
      (driver_to "ch1")
      true
      "SELECT 7"
      1
      started
      (execute_raw (driver_to "ch1") "SELECT 7" started)
      (execute_with_reconnect 1 true (driver_to "ch1") "SELECT 7" started)
execute_with_reconnect-Settles_example =
    execute_with_reconnect-Settles (driver_to "ch1") true "SELECT 7" 1 started

abbrev quoted_name : Text
quoted_name = codes "it's \\"

literal-quote_example :
    literal (quote_clickhouse_string quoted_name ++ codes " )") ≡ some (quoted_name, codes " )")
literal-quote_example = literal-quote quoted_name (codes " )") refl

failure_kind-IsFounded_example : IsFounded reset false (failure_kind reset false)
failure_kind-IsFounded_example = failure_kind-IsFounded reset false

abbrev catalog : Catalog
catalog (table_key names) = gave true
catalog (column_key names) = gave false

abbrev required : Requires
required = record {
  tables = "system.tables" ∷ "system.tables" ∷ [];
  columns = "system.tables.shiny" ∷ [];
}

missing_column :
    (supports_requirements catalog required []).1
    ≡ gave (false, some "missing ClickHouse capability")
unfolding supports_requirements find_missing check_name split_qualified_name object_exists
missing_column = refl

supports_requirements-Agrees_example :
    Agrees catalog
      (supports_requirements catalog required ((table_key ("system" ∷ "tables" ∷ []), true) ∷ []))
      (plain_supports catalog required)
supports_requirements-Agrees_example =
    supports_requirements-Agrees catalog required
      ((table_key ("system" ∷ "tables" ∷ []), true) ∷ []) (refl, tt)

abbrev two_clusters : List String
two_clusters = "main" ∷ "spare" ∷ []

all_clusters :
    resolve_targets cluster (some "ALL") (gave two_clusters)
    ≡ gave (cluster_target "main" ∷ cluster_target "spare" ∷ [])
unfolding resolve_targets select_clusters
all_clusters = refl

abbrev with_stuck : Adapter
with_stuck = record started { opened = 2; clients = 1 ∷ [] }

close-stops_example :
    All (Cancels (close with_stuck).trace) (1 ∷ [])
    × (execute_with_reconnect 1 true (driver_to "ch1") "SELECT 7" (close with_stuck)
        ≡ (close with_stuck, threw closed_error))
close-stops_example = close-stops 1 true (driver_to "ch1") "SELECT 7" with_stuck refl
