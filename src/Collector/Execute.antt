-- ===== src/Collector/Execute.antt =====
-- `_execute_item` and `_mark_declared_result_limit` of ch_diag/collector.py.
use ch_diag.Artifact.{
  CollectedItem, Diagnostic, Payload, item_from_plan, no_result, successful_statuses,
}
use ch_diag.Collector.Services.{
  Adapter, Call, CommandResult, Execution, ScriptRun, Services, exception, failed, finished,
  invalid, or_key_error, raised, returned, table, timed_out, ◌>>=◌,
}
use ch_diag.Content.{Content, Query, Script, find_key}
use ch_diag.Planner.Plan.{Planned}
use ch_diag.Planner.Requirements.{SourceKind, metric, query, script}
use ch_diag.Prelude.{
  Bool, List, Option, String, [], false, none, some, true, ℕ, ◌&&◌, ◌++◌, ◌==◌, ◌∷◌,
}
use ch_diag.Prelude.Lists.{elem, length}
use ch_diag.Prelude.Strings.{strip_text}
use ch_diag.Prelude.Tests.{if◌then◌else◌, leb, nat_eq}

abbrev pub warning : String → String → Option String → Bool → Diagnostic
warning code message failure incomplete = record {
  level = "warning";
  code = some code;
  failure_kind = failure;
  coverage_incomplete = incomplete;
  message = message;
}

abbrev pub failure : String → String → Option String → Diagnostic
failure code message kind = record {
  level = "error";
  code = some code;
  failure_kind = kind;
  coverage_incomplete = false;
  message = message;
}

-- the early returns of `_mark_declared_result_limit`, negated
unfoldable pub reaches_limit : Query → Execution → Bool
reaches_limit q e = elim q.row_limit [
  | none ↦ false
  | some limit ↦
      elem e.collection_status successful_statuses
      && (e.result.kind == "table"
          && elim e.result.row_count [ none ↦ false | some n ↦ leb limit n ])
]

unfoldable pub mark_declared_result_limit : Query → Execution → Execution
unfolding reaches_limit
mark_declared_result_limit q e =
    if reaches_limit q e
    then record e {
      diagnostics =
          e.diagnostics
          ++ (warning "declared_result_limit_reached" "the declared maximum of rows was returned"
                none true
              ∷ []);
    }
    else e

abbrev pub empty_table : Payload
empty_table = record no_result { kind = "table"; row_count = some 0 }

abbrev pub or_message : Option String → String → String
or_message none d = d
or_message (some s) d = if s == "" then d else s

unfoldable pub unsupported_item : Planned → String → Option String → CollectedItem
unfolding item_from_plan
unsupported_item p sql reason =
    item_from_plan p "unsupported" empty_table reason none
      (warning "unsupported_capability" (or_message reason "missing ClickHouse capability")
          (some "unsupported_capability") false
        ∷ [])
      (some sql) (some "sql")

unfoldable pub query_item : Services → Planned → Query → Execution → CollectedItem
unfolding mark_declared_result_limit item_from_plan
query_item svc p q execution =
    let e = mark_declared_result_limit q execution in
    item_from_plan p e.collection_status
      (if q.sensitivity == "sensitive" then svc.sanitize e.result else e.result) e.reason
      e.timing_ms e.diagnostics e.source_text (some "sql")

unfoldable pub run_query : Services → Planned → Query → String → Adapter → Call CollectedItem
unfolding unsupported_item query_item
run_query svc p q sql adapter = do
  (supported, reason) ← adapter.supports_requirements q
  if supported
      then (do execution ← adapter.execute_query sql q; returned (query_item svc p q execution))
      else returned (unsupported_item p sql reason)

unfoldable pub execute_query_item : Services → Content → Planned → Call CollectedItem
unfolding run_query find_key
execute_query_item svc content p = elim svc.adapter [
  | none ↦ raised (exception "ChDiagError" "database adapter is unavailable for a query item")
  | some adapter ↦ do
    sql ← svc.read_sql p.sql_file
    q ← or_key_error p.source_id (find_key p.source_id content.queries)
    run_query svc p q sql adapter
]

abbrev pub plain_text : String → Payload
plain_text body = record no_result { kind = "plain_text"; body = body }

unfoldable pub script_status : ℕ → String
script_status code =
    if nat_eq code 0 then "ok" else if nat_eq code 3 then "unsupported" else "error"

-- `stderr.strip() or "exit code ..."`
unfoldable pub script_reason : CommandResult → Option String
unfolding script_status
script_reason r =
    if script_status r.returncode == "ok"
    then none
    else some (or_message (some (strip_text r.stderr)) "nonzero exit code")

unfoldable pub stderr_diagnostics : CommandResult → List Diagnostic
unfolding script_status
stderr_diagnostics r =
    if strip_text r.stderr == ""
    then []
    else if script_status r.returncode == "ok"
    then warning "stderr" r.stderr none false ∷ []
    else failure "stderr" r.stderr none ∷ []

-- status, reason, payload and diagnostics after the decoding of a `table_json` output
pub record Decoded : Type 0 where
  pub status : String
  pub reason : Option String
  pub payload : Payload
  pub diagnostics : List Diagnostic

unfoldable pub decode_output : Services → Planned → Script → CommandResult → Decoded
unfolding script_status script_reason stderr_diagnostics
decode_output svc p s r =
    let status = script_status r.returncode in
    let plain : Decoded = record {
      status = status;
      reason = script_reason r;
      payload = plain_text r.stdout;
      diagnostics = stderr_diagnostics r;
    } in
    if status == "ok" && s.output == "table_json"
    then elim (svc.parse_table p.source_id r.stdout) [
      | invalid message ↦ record plain {
        status = "error";
        reason = some message;
        diagnostics = stderr_diagnostics r ++ (failure "invalid_json" message none ∷ []);
      }
      | table columns rows ↦ record plain {
        status = elim rows [ [] ↦ "empty" | _ ∷ _ ↦ "ok" ];
        payload = record no_result {
          kind = "table";
          columns = columns;
          rows = rows;
          row_count = some (length rows);
        };
      }
    ]
    else plain

unfoldable pub script_item : Services → Planned → Script → String → ScriptRun → Call CollectedItem
unfolding decode_output item_from_plan
script_item svc p s source (finished r) =
    let d = decode_output svc p s r in
    returned (
      item_from_plan p d.status d.payload d.reason (some r.timing_ms) d.diagnostics (some source)
        (some "bash"))
script_item svc p s source (timed_out message timing) = returned (
    item_from_plan p "timeout" (plain_text "") (some message) (some timing)
      (failure "shell_timeout" message (some "shell_timeout") ∷ []) (some source) (some "bash"))
script_item svc p s source (failed e) = raised e

unfoldable pub execute_script_item : Services → Content → Planned → Call CollectedItem
unfolding script_item item_from_plan find_key
execute_script_item svc content p = elim svc.host_runner [
  | none ↦ returned (
      item_from_plan p "skipped" no_result (some "host collection is unavailable") none [] none
        none)
  | some runner ↦ do
    s ← or_key_error p.source_id (find_key p.source_id content.scripts)
    source ← svc.load_script s
    script_item svc p s source (runner.run_script source)
]

unfoldable pub execute_by_kind : Services → Content → Planned → SourceKind → Call CollectedItem
unfolding execute_query_item execute_script_item item_from_plan
execute_by_kind svc content p query = execute_query_item svc content p
execute_by_kind svc content p script = execute_script_item svc content p
execute_by_kind svc content p metric = returned (
    item_from_plan p "skipped" no_result (some "metric collection is unavailable in one-shot mode")
      none [] none none)

unfoldable pub execute_item : Services → Content → Planned → Call CollectedItem
unfolding execute_by_kind
execute_item svc content p = execute_by_kind svc content p p.source_kind
