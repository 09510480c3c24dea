-- ===== src/Database/Errors.antt =====
-- `_query_limit_code`, `failure_kind` and `classify_error` of ch_diag/clickhouse.py.
use ch_diag.Prelude.{
  Bool, List, Option, String, [], false, none, some, true, ℕ, ◌&&◌, ◌==◌, ◌||◌, ◌∷◌,
}
use ch_diag.Prelude.Lists.{any}
use ch_diag.Prelude.Strings.{casefold_eq, mentions}
use ch_diag.Prelude.Tests.{if◌then◌else◌, nat_eq}

-- An exception as these functions see it: whether it is a `TimeoutError`, whether it is a
-- `ConnectionError`, an `EOFError` or a `BrokenPipeError`, the name of its class, its text and its
-- code.
pub record Failure : Type 0 where
  pub is_timeout : Bool
  pub is_disconnect : Bool
  pub type_name : String
  pub text : String
  pub code : Option ℕ

-- `code == number`
abbrev pub has_code : Option ℕ → ℕ → Bool
has_code none n = false
has_code (some c) n = nat_eq c n

-- `any(token in text for token in tokens)`
abbrev pub mentions_any : String → List String → Bool
mentions_any s tokens = any (λ token. mentions token s) tokens

abbrev pub read_limit_markers : List String
read_limit_markers =
    "max_rows_to_read" ∷ "max_bytes_to_read" ∷ "limit for rows to read exceeded"
    ∷ "limit for bytes to read exceeded" ∷ []

unfoldable pub query_limit_code : Failure → Option String
query_limit_code e =
    if mentions_any e.text read_limit_markers
    then some "query_read_limit_exceeded"
    else if mentions_any e.text ("max_result_rows" ∷ "max_result_bytes" ∷ [])
    then some "query_result_limit_exceeded"
    else if has_code e.code 158
    then some "query_limit_exceeded"
    else none

abbrev pub has_timed_out : Failure → Bool
has_timed_out e =
    has_code e.code 159
    || (casefold_eq e.type_name "sockettimeouterror"
        || mentions_any e.text
            ("timeout exceeded" ∷ "max_execution_time exceeded" ∷ "query timed out" ∷ []))

abbrev pub timeout_evidence : Failure → String
timeout_evidence e =
    if has_code e.code 159
    then "server_code"
    else if casefold_eq e.type_name "sockettimeouterror"
    then "exception_type"
    else "server_message"

abbrev pub is_canceled : Failure → Bool
is_canceled e =
    mentions_any e.text ("query was cancelled" ∷ "query was canceled" ∷ []) || has_code e.code 394

abbrev pub is_denied : Failure → Bool
is_denied e =
    mentions_any e.text ("not enough privileges" ∷ "access denied" ∷ "permission denied" ∷ [])

abbrev pub optional_tokens : List String
optional_tokens =
    "doesn't exist" ∷ "does not exist" ∷ "unknown table" ∷ "unknown identifier" ∷ "unknown function"
    ∷ "no zookeeper configuration" ∷ "there is no keeper configuration"
    ∷ "no hosts passed to zookeeper constructor" ∷ []

abbrev pub has_optional_code : Failure → Bool
has_optional_code e = has_code e.code 46 || (has_code e.code 47 || has_code e.code 60)

abbrev pub lacks_capability : Failure → Bool
lacks_capability e = has_optional_code e || mentions_any e.text optional_tokens

abbrev pub has_disconnect_type : Failure → Bool
has_disconnect_type e =
    casefold_eq e.type_name "networkerror" || casefold_eq e.type_name "connectionerror"

abbrev pub disconnect_tokens : List String
disconnect_tokens =
    "connection reset" ∷ "connection closed" ∷ "connection was closed" ∷ "connection lost"
    ∷ "broken pipe" ∷ "unexpected eof" ∷ "network is unreachable" ∷ "connection refused" ∷ []

abbrev pub by_code : Bool → String
by_code b = if b then "server_code" else "server_message"

abbrev pub has_any_code : Option ℕ → Bool
has_any_code none = false
has_any_code (some c) = true

-- `"result" in limit_code`
abbrev pub limit_kind : String → String
limit_kind limit = if mentions "result" limit then "result_limit" else "read_limit"

-- the kind and its evidence; the pair of two `None` is `none`. The tests after the one of the
-- query limits:
unfoldable pub other_kind : Failure → Bool → Option (String × String)
other_kind e optional =
    if is_canceled e
    then some ("query_canceled", by_code (has_code e.code 394))
    else if is_denied e
    then some ("permission_denied", "server_message")
    else if optional && lacks_capability e
    then some ("unsupported_capability", by_code (has_optional_code e))
    else if has_disconnect_type e || mentions_any e.text disconnect_tokens
    then some (
      "transport_disconnect",
      if has_disconnect_type e then "exception_type" else "server_message",
    )
    else none

unfoldable pub limit_or_other : Failure → Bool → Option String → Option (String × String)
unfolding other_kind
limit_or_other e optional none = other_kind e optional
limit_or_other e optional (some limit) = some (limit_kind limit, by_code (has_any_code e.code))

unfoldable pub failure_kind : Failure → Bool → Option (String × String)
unfolding limit_or_other query_limit_code
failure_kind e optional =
    if e.is_timeout
    then some ("query_timeout", "exception_type")
    else if e.is_disconnect
    then some ("transport_disconnect", "exception_type")
    else if has_timed_out e
    then some ("query_timeout", timeout_evidence e)
    else limit_or_other e optional (query_limit_code e)

abbrev pub kind_is : String → Option (String × String) → Bool
kind_is k none = false
kind_is k (some (kind, evidence)) = kind == k

unfoldable pub classify_error : Failure → Bool → String
unfolding failure_kind
classify_error e optional =
    let k = failure_kind e optional in
    if kind_is "query_timeout" k
    then "timeout"
    else if kind_is "permission_denied" k
    then "permission_denied"
    else if kind_is "unsupported_capability" k
    then "unsupported"
    else "error"

-- `failure_kind(exc)[0] == "transport_disconnect"`
unfoldable pub is_transport_disconnect : Failure → Bool
unfolding failure_kind
is_transport_disconnect e = kind_is "transport_disconnect" (failure_kind e false)
