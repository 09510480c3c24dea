-- ===== src/Planner/Plan.antt =====
-- The planned item of ch_diag/planner.py and the parts of it that the source decides. Of the
-- metadata the copies of the manifests' `render`, `display` and `chart` documents are left out.
use ch_diag.Content.{Content, Metric, Query, at_key, find_key}
use ch_diag.Planner.Requirements.{
  CollectionMode, RunMode, Scope, SourceKind, Target, is_db_only, is_snapshots, metric, query,
  scope_name, script,
}
use ch_diag.Prelude.{List, Option, String, none, not, some, ◌&&◌, ◌==◌}
use ch_diag.Prelude.Results.{Result, ok, ◌>>=◌}
use ch_diag.Prelude.Tests.{if◌then◌else◌}
use ch_diag.Versioning.{Variant, Version, select_variant}

pub data PlanStatus : Type 0 where
  planned skipped : PlanStatus

-- the texts of `reason`
pub data SkipReason : Type 0 where
  no_variant : Scope → Version → SkipReason
  host_unavailable requires_snapshots sampling_unavailable : SkipReason

pub record Metadata : Type 0 where
  pub tags : List String
  pub execution_scope : Scope
  pub instructions : Option String
  pub sensitivity : Option String
  pub source_language : Option String
  pub fallback_policy : Option (String × List String)

pub record Planned : Type 0 where
  pub item_id : String
  pub section_id : String
  pub item_key : String
  pub title : String
  pub source_kind : SourceKind
  pub source_id : String
  pub status : PlanStatus
  pub state : String
  pub reason : Option SkipReason
  pub variant_id : Option String
  pub sql_file : Option String
  pub script_file : Option String
  pub target : Target
  pub metadata : Metadata

pub record PlannedItem : Type 0 where
  pub plan : Planned
  pub fallback_on : List String
  pub fallback_item : Option Planned

-- what the branch on the source kind assigns
pub record Outcome : Type 0 where
  pub status : PlanStatus
  pub reason : Option SkipReason
  pub variant_id : Option String
  pub sql_file : Option String
  pub script_file : Option String
  pub sensitivity : Option String
  pub source_language : Option String

abbrev pub plain : PlanStatus → Option SkipReason → Outcome
plain status reason = record {
  status = status;
  reason = reason;
  variant_id = none;
  sql_file = none;
  script_file = none;
  sensitivity = none;
  source_language = none;
}

unfoldable pub variant_outcome : Query → Scope → Version → Option Variant → Outcome
variant_outcome q scope v none = plain skipped (some (no_variant scope v))
variant_outcome q scope v (some r) = record {
  status = planned;
  reason = none;
  variant_id = some r.id;
  sql_file = some r.sql_file;
  script_file = none;
  sensitivity = some (if q.sensitivity == "" then "normal" else q.sensitivity);
  source_language = none;
}

unfoldable pub query_outcome : Content → Scope → Version → String → Result Outcome
unfolding at_key select_variant variant_outcome
query_outcome content scope v id = do
  q ← at_key id content.queries
  r ← select_variant q.variants v (scope_name scope) (some content.supported_lts_versions)
  ok (variant_outcome q scope v r)

unfoldable pub script_outcome : Content → CollectionMode → String → Result Outcome
unfolding at_key
script_outcome content cmode id = do
  s ← at_key id content.scripts
  ok (record {
    status = if is_db_only cmode then skipped else planned;
    reason = if is_db_only cmode then some host_unavailable else none;
    variant_id = none;
    sql_file = none;
    script_file = some s.file;
    sensitivity = none;
    source_language = some "bash";
  })

abbrev pub metric_result : RunMode → CollectionMode → Metric → Outcome
metric_result mode cmode m =
    if not (is_snapshots mode)
    then plain skipped (some requires_snapshots)
    else if is_db_only cmode && not (m.source_sampler == "")
    then plain skipped (some sampling_unavailable)
    else plain planned none

unfoldable pub metric_outcome : Content → RunMode → CollectionMode → String → Result Outcome
unfolding at_key
metric_outcome content mode cmode id = do
  m ← at_key id content.metrics
  ok (metric_result mode cmode m)

-- `{...}[source_kind][source_id].get("title")`
unfoldable pub manifest_title : Content → SourceKind → String → Result String
unfolding at_key
manifest_title content query id = do m ← at_key id content.queries; ok m.title
manifest_title content script id = do m ← at_key id content.scripts; ok m.title
manifest_title content metric id = do m ← at_key id content.metrics; ok m.title

-- `str(own or manifest title or key)`: the manifest is read only where the own title is empty
unfoldable pub item_title : Content → SourceKind → String → String → String → Result String
unfolding manifest_title
item_title content kind id own key =
    if own == ""
    then (do t ← manifest_title content kind id; ok (if t == "" then key else t))
    else ok own

-- `content.instructions.get(item_id)`, if it is not empty
unfoldable pub instruction_of : Content → String → Option String
unfolding find_key
instruction_of content id = elim (find_key id content.instructions) [
  | none ↦ none
  | some body ↦ if body == "" then none else some body
]
