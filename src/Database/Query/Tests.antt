-- ===== src/Database/Query/Tests.antt =====
-- Results of queries, and the theorems at concrete values.
use ch_diag.Collector.Execute.{query_item}
use ch_diag.Collector.Fallback.{fallback_trigger}
use ch_diag.Collector.Services.{Services, invalid, returned}
use ch_diag.Content.{Query}
use ch_diag.Database.Errors.{failure_kind, limit_or_other, other_kind, query_limit_code}
use ch_diag.Database.Query.{Settings, execution_of}
use ch_diag.Database.Query.Failures.{failed_execution-triggers}
use ch_diag.Database.Query.Laws.{IsAccepted, execution_of-IsAccepted}
use ch_diag.Database.Session.{gave, threw}
use ch_diag.Planner.Plan.{Planned, planned}
use ch_diag.Planner.Requirements.{database, node, query}
use ch_diag.Prelude.{[], false, none, refl, some, true, ◌*◌, ◌∷◌, ◌≡◌}
use ch_diag.Prelude.Lists.{length}
use ch_diag.Database.Tests.{one_row, reset}

abbrev settings : Settings
settings = record {
  reconnect_attempts = 1;
  has_delay = true;
  max_result_bytes = 100;
  redact_error = λ e. e.text;
  encoded_size = λ rows. 9 * length rows;
  json_safe = λ d value. value;
  timing_ms = 3;
}

execution_of-IsAccepted_example :
    IsAccepted "memory.total" (execution_of settings "SELECT 7" false (gave (one_row "7")))
execution_of-IsAccepted_example =
    execution_of-IsAccepted "memory.total" settings "SELECT 7" false (gave (one_row "7"))
      ((refl, tt), (refl, tt))

abbrev quiet_services : Services
quiet_services = record {
  adapter = none;
  host_runner = none;
  read_sql = λ file. returned "SELECT 7";
  load_script = λ script. returned "";
  parse_table = λ id out. invalid "not JSON";
  redact = λ s. s;
  sanitize = λ payload. payload;
}

abbrev any_plan : Planned
any_plan = record {
  item_id = "memory.total";
  section_id = "memory";
  item_key = "total";
  title = "Total memory";
  source_kind = query;
  source_id = "memory_total";
  status = planned;
  state = "";
  reason = none;
  variant_id = none;
  sql_file = none;
  script_file = none;
  target = database;
  metadata = record {
    tags = [];
    execution_scope = node;
    instructions = none;
    sensitivity = none;
    source_language = none;
    fallback_policy = none;
  };
}

abbrev any_query : Query
any_query = record {
  title = "Total memory";
  variants = [];
  optional = false;
  sensitivity = "public";
  row_limit = some 10;
  collection_scope = "node";
}

failed_execution-triggers_example :
    fallback_trigger
      (query_item quiet_services any_plan any_query
        (execution_of settings "SELECT 7" false (threw reset)))
      ("query_timeout" ∷ "transport_disconnect" ∷ [])
    ≡ some "transport_disconnect"
unfolding failure_kind limit_or_other query_limit_code other_kind
failed_execution-triggers_example =
    failed_execution-triggers quiet_services any_plan any_query settings "SELECT 7" reset false
      ("query_timeout" ∷ "transport_disconnect" ∷ []) "transport_disconnect" "server_message" refl
      refl
