-- ===== src/Database/Session.antt =====
-- The state of `ClickHouseAdapter` in ch_diag/clickhouse.py, `_execute_raw`, and the identity of the
-- server that a collection talks to. Each call of `_execute_raw` opens a client of its own: the
-- driver, an argument, says what the client of each number answers. One query runs at a time.
use ch_diag.Database.Errors.{Failure}
use ch_diag.Prelude.{
  Bool, List, Option, String, [], false, none, some, suc, true, ℕ, ◌&&◌, ◌++◌, ◌==◌, ◌∷◌,
}
use ch_diag.Prelude.Tests.{if◌then◌else◌}

-- rows with the names and types of their columns
pub record Answer : Type 0 where
  pub columns : List (String × String)
  pub rows : List (List String)

pub data Reply {ℓ} (A : Type ℓ) : Type ℓ where
  threw : Failure → Reply A
  gave : A → Reply A

-- `asyncio.wait_for` of the call: the call ends in time, ends within a second of being cancelled, or
-- does not end
pub data Timing : Type 0 where
  in_time late stuck : Timing

pub record Client : Type 0 where
  pub identify : Reply Answer
  pub execute : String → Reply Answer
  pub timing : Timing

abbrev pub Driver : Type 0
Driver = ℕ → Reply Client

-- what `_database_identity` keeps of a context
pub record Identity : Type 0 where
  pub current_database : String
  pub server_version : String
  pub database_hostname : String

-- the client of a number is asked for its identity, runs a query, or is cancelled; and the pause
-- before a query is tried again
pub data Event : Type 0 where
  asked cancelled : ℕ → Event
  ran : ℕ → String → Event
  slept : Event

pub record Adapter : Type 0 where
  pub identity : Option Identity
  pub closed : Bool
  pub opened : ℕ
  pub clients : List ℕ
  pub trace : List Event

abbrev pub Step {ℓ} : Type ℓ → Type ℓ
Step A = Adapter → Adapter × Reply A

abbrev pub continue {ℓ κ} :
    {A : Type ℓ} {B : Type κ} → Adapter × Reply A → (A → Step B) → Adapter × Reply B
continue (s, gave a) k = k a s
continue (s, threw e) k = (s, threw e)

infixl 5 ◌>>=◌ ◌>>◌
abbrev pub ◌>>=◌ {ℓ κ} : {A : Type ℓ} {B : Type κ} → Step A → (A → Step B) → Step B
(m >>= k) s = continue (m s) k

abbrev pub ◌>>◌ {ℓ} : {B : Type ℓ} → Step (Unit {0}) → Step B → Step B
m >> k = m >>= λ _. k

abbrev pub pure {ℓ} : {A : Type ℓ} → A → Step A
pure a s = (s, gave a)

abbrev pub error : String → String → Failure
error name message = record {
  is_timeout = false;
  is_disconnect = false;
  type_name = name;
  text = message;
  code = none;
}

abbrev pub throw {ℓ} : {A : Type ℓ} → Failure → Step A
throw e s = (s, threw e)

abbrev pub from_option {ℓ} : {A : Type ℓ} → Failure → Option A → Reply A
from_option e none = threw e
from_option e (some a) = gave a

abbrev pub identity_changed : Failure
identity_changed =
    error "ClickHouseIdentityChangedError"
      "ClickHouse identity changed after reconnect; refusing to merge samples"

abbrev pub no_identity : Failure
no_identity = error "ClickHouseConnectionError" "ClickHouse identity query returned no rows"

abbrev pub closed_error : Failure
closed_error = error "RuntimeError" "ClickHouse adapter is closed"

abbrev pub timeout_error : Failure
timeout_error = record (error "TimeoutError" "ClickHouse query timed out") { is_timeout = true }

-- `dict(zip((name for name, _type in columns), row)).get(key)`: of two columns of one name, the last
unfoldable pub zip_get : String → List (String × String) → List String → Option String
zip_get k [] row = none
zip_get k (column ∷ columns) [] = none
zip_get k ((name, type) ∷ columns) (cell ∷ row) = elim (zip_get k columns row) [
  | none ↦ if name == k then some cell else none
  | some later ↦ some later
]

abbrev pub or_empty : Option String → String
or_empty none = ""
or_empty (some s) = s

-- `_identity_context`; a value that is missing is the empty text here
unfoldable pub identity_context : Answer → Reply Identity
unfolding zip_get
identity_context a = elim a.rows [
  | [] ↦ threw no_identity
  | row ∷ rest ↦ gave (record {
    current_database = or_empty (zip_get "current_database" a.columns row);
    server_version = or_empty (zip_get "server_version" a.columns row);
    database_hostname = or_empty (zip_get "server_hostname" a.columns row);
  })
]

-- `_verify_database_identity`
unfoldable pub same_identity : Identity → Identity → Bool
same_identity expected actual =
    expected.current_database == actual.current_database
    && (expected.server_version == actual.server_version
        && expected.database_hostname == actual.database_hostname)

unfoldable pub verify_database_identity : Identity → Identity → Reply (Unit {0})
unfolding same_identity
verify_database_identity expected actual =
    if same_identity expected actual then gave tt else threw identity_changed

unfoldable pub check_answer : Identity → Reply Answer → Reply (Unit {0})
unfolding identity_context verify_database_identity
check_answer expected (threw e) = threw e
check_answer expected (gave a) = elim (identity_context a) [
  | threw e ↦ threw e
  | gave actual ↦ verify_database_identity expected actual
]

-- `execute`, the function that a worker runs: its events, and its result
unfoldable pub run_client : Option Identity → Client → ℕ → String → List Event × Reply Answer
unfolding check_answer
run_client none c n sql = (ran n sql ∷ [], c.execute sql)
run_client (some expected) c n sql = elim (check_answer expected c.identify) [
  | threw e ↦ (asked n ∷ [], threw e)
  | gave done ↦ (asked n ∷ ran n sql ∷ [], c.execute sql)
]

-- The branch for `asyncio.TimeoutError`: the call has not ended in time, or it raised a `TimeoutError`
-- of its own, which is the same class since Python 3.11.
abbrev pub is_out_of_time : Timing → Reply Answer → Bool
is_out_of_time in_time (gave answer) = false
is_out_of_time in_time (threw e) = e.is_timeout
is_out_of_time late r = true
is_out_of_time stuck r = true

abbrev pub in_time_or : Timing → Reply Answer → Reply Answer
in_time_or t r = if is_out_of_time t r then threw timeout_error else r

-- and the client of the call is cancelled
abbrev pub cancels : Timing → Reply Answer → ℕ → List Event
cancels t r n = if is_out_of_time t r then cancelled n ∷ [] else []

-- the worker removes its client when it ends
abbrev pub registered : Timing → ℕ → List ℕ
registered in_time n = []
registered late n = []
registered stuck n = n ∷ []

unfoldable pub run_opened : Client → String → Step Answer
unfolding run_client
run_opened c sql a =
    let run = run_client a.identity c a.opened sql in
    (
      record a {
        opened = suc a.opened;
        clients = a.clients ++ registered c.timing a.opened;
        trace = a.trace ++ (run.0 ++ cancels c.timing run.1 a.opened);
      },
      in_time_or c.timing run.1,
    )

-- `_execute_raw`
unfoldable pub execute_raw : Driver → String → Step Answer
unfolding run_opened
execute_raw driver sql a = if a.closed then (a, threw closed_error) else elim (driver a.opened) [
  | threw e ↦ (record a { opened = suc a.opened }, threw e)
  | gave c ↦ run_opened c sql a
]

-- `close`, up to the stop of the workers
abbrev pub cancel_all : List ℕ → List Event
cancel_all [] = []
cancel_all (n ∷ ns) = cancelled n ∷ cancel_all ns

unfoldable pub close : Adapter → Adapter
close a =
    if a.closed then a else record a { closed = true; trace = a.trace ++ cancel_all a.clients }
