-- ===== src/Database/Reconnect.antt =====
-- `detect_runtime_context`, `_verify_reconnect_identity` and `_execute_with_reconnect` of
-- ch_diag/clickhouse.py.
pub mod Moves
pub mod Same
pub mod Rounds
pub mod Closed
use ch_diag.Database.Errors.{Failure, is_transport_disconnect}
use ch_diag.Database.Session.{
  Adapter, Answer, Driver, Identity, Reply, Step, error, execute_raw, from_option, gave, pure,
  slept, threw, verify_database_identity, zip_get, ◌>>=◌, ◌>>◌,
}
use ch_diag.Prelude.{
  Bool, List, String, [], false, none, not, some, suc, true, zero, ℕ, ◌&&◌, ◌++◌, ◌==◌, ◌∷◌,
}
use ch_diag.Prelude.Lists.{elem}
use ch_diag.Prelude.Results.{Result, err, ok}
use ch_diag.Prelude.Tests.{if◌then◌else◌}
use ch_diag.Prelude.Text.{codes}
use ch_diag.Versioning.{Version, VersionValue, parse, text}

pub record RuntimeContext : Type 0 where
  pub server_version : String
  pub version : Version
  pub current_database : String
  pub current_user : String
  pub database_hostname : String
  pub read_only : String

abbrev pub context_sql : String
context_sql =
    "SELECT version() AS server_version, currentDatabase() AS current_database, currentUser() AS current_user, hostName() AS server_hostname"

abbrev pub readonly_sql : String
readonly_sql = "SELECT value FROM system.settings WHERE name = 'readonly'"

abbrev pub no_context : Failure
no_context = error "ClickHouseConnectionError" "ClickHouse runtime context query returned no rows"

abbrev pub not_read_only : Failure
not_read_only =
    error "ClickHouseConnectionError" "ClickHouse connection did not confirm read-only mode"

abbrev pub key_error_of : String → Failure
key_error_of k = error "KeyError" k

-- `str(readonly_rows[0][0]) if readonly_rows else "unknown"`
unfoldable pub readonly_value : Answer → Reply String
readonly_value a = elim a.rows [
  | [] ↦ gave "unknown"
  | row ∷ rest ↦ elim row [ [] ↦ threw (error "IndexError" "") | cell ∷ more ↦ gave cell ]
]

abbrev pub parsed_version : String → Result Version → Reply Version
parsed_version raw (err e) = threw (error "ValueError" raw)
parsed_version raw (ok v) = gave v

abbrev pub of_reply {ℓ} : {A : Type ℓ} → Reply A → Step A
of_reply r a = (a, r)

-- what follows in the code, of calls that do not touch the adapter
abbrev pub and_then {ℓ κ} : {A : Type ℓ} {B : Type κ} → Reply A → (A → Reply B) → Reply B
and_then (threw e) next = threw e
and_then (gave a) next = next a

abbrev pub value_at : String → Answer → List String → Reply String
value_at k a row = from_option (key_error_of k) (zip_get k a.columns row)

-- the first row of the answer, `raw_version` and `parsed`
unfoldable pub seen_version : Answer → Reply (List String × String × Version)
unfolding zip_get parse
seen_version a = elim a.rows [
  | [] ↦ threw no_context
  | row ∷ rest ↦ and_then (value_at "server_version" a row) λ raw.
      and_then (parsed_version raw (parse (VersionValue.text (codes raw)))) λ v. gave (row, raw, v)
]

abbrev pub confirm_read_only : String → Reply (Unit {0})
confirm_read_only readonly =
    if not (elem readonly ("1" ∷ "2" ∷ [])) then threw not_read_only else gave tt

-- the rest of `_read_runtime_context`, after its two queries
unfoldable pub context_of : Answer → List String → String → Version → Answer → Reply RuntimeContext
unfolding readonly_value zip_get
context_of a row raw v settings = and_then (readonly_value settings) λ readonly.
    and_then (confirm_read_only readonly) λ checked.
      and_then (value_at "current_database" a row) λ current.
        and_then (value_at "current_user" a row) λ user.
          and_then (value_at "server_hostname" a row) λ hostname. gave (record {
            server_version = raw;
            version = v;
            current_database = current;
            current_user = user;
            database_hostname = hostname;
            read_only = readonly;
          })

-- `_read_runtime_context`
unfoldable pub read_runtime_context : Driver → Step RuntimeContext
unfolding execute_raw seen_version context_of
read_runtime_context driver = do
  answer ← execute_raw driver context_sql
  seen ← of_reply (seen_version answer)
  settings ← execute_raw driver readonly_sql
  of_reply (context_of answer seen.0 seen.1 seen.2 settings)

-- `_database_identity`
unfoldable pub database_identity : RuntimeContext → Identity
database_identity c = record {
  current_database = c.current_database;
  server_version = c.server_version;
  database_hostname = c.database_hostname;
}

-- the identity is kept when it is first seen, and compared later
unfoldable pub remember_or_verify : RuntimeContext → Step (Unit {0})
unfolding database_identity verify_database_identity
remember_or_verify c a = elim a.identity [
  | none ↦ (record a { identity = some (database_identity c) }, gave tt)
  | some expected ↦ (a, verify_database_identity expected (database_identity c))
]

-- `detect_runtime_context`
unfoldable pub detect_runtime_context : Driver → Step RuntimeContext
unfolding read_runtime_context remember_or_verify
detect_runtime_context driver = do c ← read_runtime_context driver; remember_or_verify c; pure c

-- `_verify_reconnect_identity`
unfoldable pub verify_reconnect_identity : Driver → Step (Unit {0})
unfolding read_runtime_context remember_or_verify
verify_reconnect_identity driver = do c ← read_runtime_context driver; remember_or_verify c

-- the body of the loop: one more attempt
unfoldable pub attempt_again : Driver → String → Step Answer
unfolding verify_reconnect_identity execute_raw
attempt_again driver sql = do verify_reconnect_identity driver; execute_raw driver sql

-- `asyncio.sleep`, if the delay is not zero
abbrev pub pause : Bool → Adapter → Adapter
pause delayed a = if delayed then record a { trace = a.trace ++ (slept ∷ []) } else a

abbrev pub is_identity_changed : Failure → Bool
is_identity_changed e = e.type_name == "ClickHouseIdentityChangedError"

-- an exception after which the loop goes on
unfoldable pub is_retried : Failure → Bool
unfolding is_transport_disconnect
is_retried e = not (is_identity_changed e) && is_transport_disconnect e

-- `except`: an exception that passes the test leads to another attempt
abbrev pub on_failure :
    (Failure → Bool) → (Failure → Step Answer) → Adapter × Reply Answer → Adapter × Reply Answer
on_failure test next (a, gave answer) = (a, gave answer)
on_failure test next (a, threw e) = elim (test e) [ true ↦ next e a | false ↦ (a, threw e) ]

-- the loop over the attempts that are left
unfoldable pub retry : ℕ → Driver → Bool → String → Failure → Step Answer
unfolding attempt_again is_retried
retry zero driver delayed sql last a = (a, threw last)
retry (suc n) driver delayed sql last a =
    on_failure is_retried (retry n driver delayed sql) (attempt_again driver sql (pause delayed a))

-- `_execute_with_reconnect`, of the number of attempts and whether there is a delay
unfoldable pub execute_with_reconnect : ℕ → Bool → Driver → String → Step Answer
unfolding execute_raw retry is_transport_disconnect
execute_with_reconnect attempts delayed driver sql a =
    on_failure is_transport_disconnect (retry attempts driver delayed sql)
      (execute_raw driver sql a)
