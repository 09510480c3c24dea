-- ===== src/Collector/Target.antt =====
-- `_collect_target` of ch_diag/collector.py, up to the files that it writes: the loop over the plan,
-- the metric items, and the artifact. Progress output is the list of the calls of `progress.item`.
pub mod References
pub mod FailFast
pub mod Total
use ch_diag.Artifact.{Artifact, CollectedItem, Diagnostic, create_artifact, is_failed, put_item}
use ch_diag.Artifact.Check.{validate_artifact}
use ch_diag.Artifact.Finish.{
  finalize_collection_summary, omit_uncollected_items, strip_artifact_metadata,
}
use ch_diag.Collector.Fallback.{execute_item_safely, item_error_from_exception}
use ch_diag.Collector.Services.{
  Call, Exception, Services, exception, finished, or_key_error, raised, returned, ◌>>=◌, ◌>>◌,
}
use ch_diag.Content.{Content, find_key}
use ch_diag.Planner.Build.{ExecutionPlan}
use ch_diag.Planner.Plan.{PlanStatus, PlannedItem, planned, skipped}
use ch_diag.Planner.Requirements.{is_metric}
use ch_diag.Prelude.{Bool, List, String, [], false, not, true, ℕ, ◌&&◌, ◌++◌, ◌==◌, ◌∷◌}
use ch_diag.Prelude.Results.{Result, err, ok}
use ch_diag.Prelude.Tests.{if◌then◌else◌}

pub record ProgressEvent : Type 0 where
  pub item_id : String
  pub status : String

-- the variables of the loops
pub record State : Type 0 where
  pub items : List (String × CollectedItem)
  pub omitted : List String
  pub metric_items : List PlannedItem
  pub events : List ProgressEvent

abbrev pub start : State
start = record { items = []; omitted = []; metric_items = []; events = [] }

unfoldable pub omit : String → String → State → State
omit id status s = record s {
  omitted = s.omitted ++ (id ∷ []);
  events = s.events ++ (record { item_id = id; status = status } ∷ []);
}

-- `_raise_if_fail_fast`
unfoldable pub raise_if_fail_fast : Bool → CollectedItem → Call (Unit {0})
unfolding is_failed
raise_if_fail_fast enabled i =
    if enabled && is_failed i then raised (exception "ChDiagError" i.item_id) else returned tt

unfoldable pub store : String → CollectedItem → State → State
unfolding put_item
store id i s = record s {
  items = put_item id i s.items;
  events = s.events ++ (record { item_id = id; status = i.collection_status } ∷ []);
}

-- what both loops do with a collected item
unfoldable pub record_item : Bool → String → CollectedItem → State → Call State
unfolding omit store raise_if_fail_fast
record_item fail_fast id i s =
    if i.collection_status == "unsupported"
    then returned (omit id "unsupported" s)
    else raise_if_fail_fast fail_fast i >> returned (store id i s)

abbrev pub is_planned : PlanStatus → Bool
is_planned planned = true
is_planned skipped = false

-- the body of the loop over `plan.items`
unfoldable pub collect_planned : Services → Content → Bool → PlannedItem → State → Call State
unfolding record_item execute_item_safely omit
collect_planned svc content fail_fast p s =
    if not (is_planned p.plan.status)
    then returned (omit p.plan.item_id "skipped" s)
    else if is_metric p.plan.source_kind
    then returned (record s { metric_items = s.metric_items ++ (p ∷ []) })
    else record_item fail_fast p.plan.item_id (execute_item_safely svc content p) s

unfoldable pub collect_all : Services → Content → Bool → List PlannedItem → State → Call State
unfolding collect_planned
collect_all svc content fail_fast [] s = returned s
collect_all svc content fail_fast (p ∷ ps) s = do
  next ← collect_planned svc content fail_fast p s
  collect_all svc content fail_fast ps next

-- what `collect_metric_items` returns
pub record Metrics : Type 0 where
  pub items : List (String × CollectedItem)
  pub snapshots : ℕ
  pub diagnostics : List Diagnostic

-- the comprehension over the metric items: of equal keys the last stays
unfoldable pub metric_errors :
    Services
    → Exception
    → List PlannedItem
    → List (String × CollectedItem)
    → List (String × CollectedItem)
unfolding item_error_from_exception put_item
metric_errors svc e [] errors = errors
metric_errors svc e (p ∷ ps) errors =
    metric_errors svc e ps (put_item p.plan.item_id (item_error_from_exception svc p.plan e) errors)

-- `try: ... except Exception` round `collect_metric_items`
unfoldable pub metrics_or_errors : Services → List PlannedItem → Call Metrics → Metrics
unfolding metric_errors
metrics_or_errors svc ps (returned m) = m
metrics_or_errors svc ps (raised e) = record {
  items = metric_errors svc e ps [];
  snapshots = 0;
  diagnostics = [];
}

-- the second loop
unfoldable pub collect_metrics :
    Bool → List (String × CollectedItem) → List PlannedItem → State → Call State
unfolding record_item find_key
collect_metrics fail_fast collected [] s = returned s
collect_metrics fail_fast collected (p ∷ ps) s = do
  i ← or_key_error p.plan.item_id (find_key p.plan.item_id collected)
  next ← record_item fail_fast p.plan.item_id i s
  collect_metrics fail_fast collected ps next

pub record Collected : Type 0 where
  pub state : State
  pub snapshots : ℕ
  pub diagnostics : List Diagnostic

-- `if metric_items:` with both branches
unfoldable pub metric_phase :
    Services → Bool → (List PlannedItem → Call Metrics) → State → Call Collected
unfolding metrics_or_errors collect_metrics
metric_phase svc fail_fast collect s = elim s.metric_items [
  | [] ↦ returned (record { state = s; snapshots = 0; diagnostics = [] })
  | p ∷ ps ↦
      let m = metrics_or_errors svc (p ∷ ps) (collect (p ∷ ps)) in
      do
        next ← collect_metrics fail_fast m.items (p ∷ ps) s
        returned (record { state = next; snapshots = m.snapshots; diagnostics = m.diagnostics })
]

-- the artifact before it is validated
unfoldable pub assemble : ExecutionPlan → Bool → Collected → Artifact
unfolding create_artifact omit_uncollected_items finalize_collection_summary strip_artifact_metadata
assemble plan strip_meta c =
    let filled = record (create_artifact plan) {
      items = c.state.items;
      snapshots = c.snapshots;
      diagnostics = c.diagnostics;
    } in
    let finished = finalize_collection_summary (omit_uncollected_items filled c.state.omitted) in
    if strip_meta then strip_artifact_metadata finished else finished

-- `validate_artifact` raises `ChDiagError`
abbrev pub validated : Artifact → Result (Unit {0}) → Call Artifact
validated a (ok u) = returned a
validated a (err e) = raised (exception "ChDiagError" "validate_artifact")

unfoldable pub collect_target :
    Services
    → Content
    → Bool
    → (List PlannedItem → Call Metrics)
    → ExecutionPlan
    → Bool
    → Call Artifact
unfolding collect_all metric_phase assemble validate_artifact
collect_target svc content fail_fast collect plan strip_meta = do
  s ← collect_all svc content fail_fast plan.items start
  c ← metric_phase svc fail_fast collect s
  let a = assemble plan strip_meta c
  validated a (validate_artifact a)
