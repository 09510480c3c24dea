-- ===== src/Collector/Tests.antt =====
-- The theorems of ch_diag/collector.py on items and plans, for the example plan and an adapter whose
-- query times out.
use ch_diag.Artifact.{FallbackUse, is_successful, item_from_plan, no_result}
use ch_diag.Artifact.Check.{validate_artifact}
use ch_diag.Artifact.Validate.{IsReferenced}
use ch_diag.Collector.Execute.{execute_item, failure}
use ch_diag.Collector.Fallback.{allows, caught, execute_item_safely}
use ch_diag.Collector.Fallback.Laws.{IsAllowedUse, execute_item_safely-IsAllowedUse, primary}
use ch_diag.Collector.Services.{
  Call, Execution, Services, exception, finished, invalid, raised, returned,
}
use ch_diag.Collector.Target.{
  Collected, Metrics, ProgressEvent, State, assemble, collect_all, collect_target, metric_phase,
  start,
}
use ch_diag.Collector.Target.FailFast.{progress_complete, waits}
use ch_diag.Collector.Target.References.{collect_target-IsReferenced}
use ch_diag.Collector.Target.Total.{collection_total}
use ch_diag.Planner.Build.Items.{ids}
use ch_diag.Planner.Build.Sections.{Distinct}
use ch_diag.Planner.Example.{example_content, example_plan, example_version, is_built}
use ch_diag.Planner.Filters.{available_item_ids}
use ch_diag.Planner.Plan.{Planned, PlannedItem, skipped}
use ch_diag.Planner.Requirements.{database, local, node, query, snapshots}
use ch_diag.Prelude.{
  Bool, List, String, [], false, inl, map, none, not, refl, some, true, ◌++◌, ◌∷◌, ◌≡◌, ◌⊎◌,
}
use ch_diag.Prelude.Lists.{Any, Uniq, keep}
use ch_diag.Prelude.Results.{err, ok}
use ch_diag.Snapshots.Items.{Gathered, metric_items, metric_items-Covers}

abbrev timed_out_execution : Execution
timed_out_execution = record {
  collection_status = "timeout";
  reason = some "query timed out";
  timing_ms = some 5000;
  result = no_result;
  diagnostics = failure "query_timeout" "query timed out" (some "timeout") ∷ [];
  source_text = none;
}

abbrev services : Services
services = record {
  adapter = some (record {
    supports_requirements = λ q. returned (true, none);
    execute_query = λ sql q. returned timed_out_execution;
  });
  host_runner = some (record {
    run_script =
        λ source. finished (record { stdout = "6.1"; stderr = ""; returncode = 0; timing_ms = 2 });
  });
  read_sql = λ file. returned "SELECT uptime()";
  load_script = λ s. returned "uname -r";
  parse_table = λ id out. invalid "not JSON";
  redact = λ s. s;
  sanitize = λ p. p;
}

-- the same services, with a query that succeeds
abbrev good_services : Services
good_services = record services {
  adapter = some (record {
    supports_requirements = λ q. returned (true, none);
    execute_query = λ sql q.
        returned (record timed_out_execution {
          collection_status = "ok";
          reason = none;
          diagnostics = [];
        });
  });
}

abbrev metrics : List PlannedItem → Call Metrics
metrics ps = raised (exception "RuntimeError" "sampling failed")

abbrev no_item : PlannedItem
no_item = record {
  plan = record {
    item_id = "";
    section_id = "";
    item_key = "";
    title = "";
    source_kind = query;
    source_id = "";
    status = skipped;
    state = "";
    reason = none;
    variant_id = none;
    sql_file = none;
    script_file = none;
    target = database;
    metadata = record {
      tags = [];
      execution_scope = node;
      instructions = none;
      sensitivity = none;
      source_language = none;
      fallback_policy = none;
    };
  };
  fallback_on = [];
  fallback_item = none;
}

-- the planned item of the query
unfoldable first_item : PlannedItem
unfolding example_plan
first_item = elim example_plan.items [ [] ↦ no_item | p ∷ ps ↦ p ]

abbrev call_value {ℓ} : {A : Type ℓ} → Call A → A → A
call_value (returned a) d = a
call_value (raised e) d = d

unfoldable collected_state : Bool → Services → State
unfolding collect_all example_plan
collected_state fail_fast svc =
    call_value (collect_all svc example_content fail_fast example_plan.items start) start

is_collected :
    collect_all services example_content false example_plan.items start
    ≡ returned (collected_state false services)
unfolding collect_all example_plan collected_state
is_collected = refl

is_collected_good :
    collect_all good_services example_content true example_plan.items start
    ≡ returned (collected_state true good_services)
unfolding collect_all example_plan collected_state
is_collected_good = refl

unfoldable whole : Collected
unfolding metric_phase collected_state collect_all example_plan
whole =
    call_value (metric_phase services false metrics (collected_state false services))
      (record { state = start; snapshots = 0; diagnostics = [] })

is_whole : metric_phase services false metrics (collected_state false services) ≡ returned whole
unfolding metric_phase collected_state collect_all example_plan whole
is_whole = refl

test_events :
    map {B = String × String} (λ (e : ProgressEvent). (e.item_id, e.status)) whole.state.events
    ≡ ("server.uptime", "timeout") ∷ ("host.kernel", "ok") ∷ ("server.load", "error") ∷ []
unfolding metric_phase collected_state collect_all example_plan whole
test_events = refl

-- the fallback of the query is used

is_bad : is_successful (primary services example_content first_item) ≡ false
unfolding caught execute_item item_from_plan first_item example_plan is_successful
is_bad = refl

is_good : is_successful (primary good_services example_content first_item) ≡ true
unfolding caught execute_item item_from_plan first_item example_plan is_successful
is_good = refl

is_named :
    Any
      (λ d.
        (allows first_item.fallback_on d.failure_kind ≡ true)
        ⊎ (allows first_item.fallback_on d.code ≡ true))
      (primary services example_content first_item).diagnostics
unfolding caught execute_item item_from_plan first_item example_plan
is_named = inl (inl refl)

unfoldable fallback_plan : Planned
unfolding first_item example_plan
fallback_plan = elim first_item.fallback_item [ none ↦ no_item.plan | some q ↦ q ]

is_fallback : first_item.fallback_item ≡ some fallback_plan
unfolding first_item example_plan fallback_plan
is_fallback = refl

unfoldable fallback_use : FallbackUse
unfolding execute_item_safely first_item example_plan
fallback_use = elim (execute_item_safely services example_content first_item).metadata.fallback [
  | none ↦ record {
    trigger = "";
    on = [];
    parent_item_id = "";
    fallback_item_id = "";
    primary_source_kind = query;
    primary_source_id = "";
    primary_reason = none;
    primary_timing_ms = 0;
    fallback_timing_ms = 0;
    primary_diagnostics = [];
  }
  | some u ↦ u
]

is_used :
    (execute_item_safely services example_content first_item).metadata.fallback ≡ some fallback_use
unfolding execute_item_safely first_item example_plan fallback_use
is_used = refl

execute_item_safely-IsAllowedUse_example :
    IsAllowedUse services example_content first_item fallback_use
execute_item_safely-IsAllowedUse_example =
    execute_item_safely-IsAllowedUse services example_content first_item fallback_use is_used

is_Distinct : Distinct example_content.sections
is_Distinct = ((refl, tt), (tt, tt))

is_unique : Uniq (available_item_ids example_content)
unfolding available_item_ids
is_unique = (refl, (refl, (refl, tt)))

collect_target-IsReferenced_example : IsReferenced (assemble example_plan true whole)
collect_target-IsReferenced_example =
    collect_target-IsReferenced services example_content false true metrics (some example_version)
      snapshots local node none none example_plan (collected_state false services) whole is_Distinct
      is_unique is_built is_collected is_whole

abbrev gather : PlannedItem → Gathered
gather p = record {
  result = record no_result { kind = "chart"; series_count = some 2 };
  has_samples = true;
  required_fields = [];
  is_observed = true;
  errors = [];
  further = [];
  source_text = none;
  source_language = "bash";
}

abbrev metrics_of : List PlannedItem → Call Metrics
metrics_of ps =
    returned (record { items = metric_items gather ps []; snapshots = 3; diagnostics = [] })

collection_total_example :
    (s : State) × (c : Collected) × (collect_all services example_content false example_plan.items
        start
      ≡ returned s)
    × (metric_phase services false metrics_of s ≡ returned c)
    × (collect_target services example_content false metrics_of example_plan true
        ≡ elim (validate_artifact (assemble example_plan true c)) [
          | ok done ↦ returned (assemble example_plan true c)
          | err e ↦ raised (exception "ChDiagError" "validate_artifact")
        ])
collection_total_example =
    collection_total services example_content metrics_of example_plan true
      (metric_items-Covers gather 3 [])

progress_complete_example :
    map (λ (e : ProgressEvent). e.item_id) whole.state.events
    ≡ ids (keep (λ p. not (waits p)) example_plan.items) ++ ids (keep waits example_plan.items)
progress_complete_example =
    progress_complete services example_content false metrics example_plan
      (collected_state false services) whole is_collected is_whole
