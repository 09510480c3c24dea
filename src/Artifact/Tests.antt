-- ===== src/Artifact/Tests.antt =====
-- The theorems of ch_diag/artifact.py, for an artifact with two items.
use ch_diag.Artifact.{
  Artifact, CollectedItem, CollectionSummary, artifact_schema_version, item_from_plan, no_result,
}
use ch_diag.Artifact.Check.{validate_artifact}
use ch_diag.Artifact.Finish.{finalize_collection_summary}
use ch_diag.Planner.Build.{PlanSection}
use ch_diag.Planner.Plan.{Planned, planned}
use ch_diag.Planner.Requirements.{database, node, query}
use ch_diag.Prelude.{List, [], false, none, refl, some, ◌∷◌, ◌≡◌}
use ch_diag.Prelude.Results.{ok}

abbrev pub query_plan : Planned
query_plan = record {
  item_id = "server.uptime";
  section_id = "server";
  item_key = "uptime";
  title = "Uptime";
  source_kind = query;
  source_id = "q.uptime";
  status = planned;
  state = "collapsed";
  reason = none;
  variant_id = some "all";
  sql_file = some "uptime.sql";
  script_file = none;
  target = database;
  metadata = record {
    tags = [];
    execution_scope = node;
    instructions = none;
    sensitivity = none;
    source_language = none;
    fallback_policy = none;
  };
}

abbrev pub good_item : CollectedItem
unfolding item_from_plan
good_item = item_from_plan query_plan "ok" no_result none (some 3) [] none none

abbrev pub late_item : CollectedItem
unfolding item_from_plan
late_item =
    item_from_plan (record query_plan { item_id = "server.load" }) "timeout" no_result none none []
      none none

abbrev pub sections : List PlanSection
sections =
    record {
      section_id = "server";
      title = "Server";
      description = none;
      state = "expanded";
      items = "server.uptime" ∷ "server.load" ∷ [];
    }
    ∷ []

abbrev pub artifact : Artifact
artifact = record {
  schema_version = artifact_schema_version;
  completion_status = none;
  collection_summary = none;
  degraded = false;
  strip_meta = false;
  sections = sections;
  items = ("server.uptime", good_item) ∷ ("server.load", late_item) ∷ [];
  snapshots = 0;
  diagnostics = [];
}

abbrev summary : CollectionSummary
summary = record {
  total_items = 2;
  successful_items = 1;
  complete_items = 1;
  failed_items = 1;
  coverage_incomplete_items = 0;
  fallback_items = 0;
}

is_summary : (finalize_collection_summary artifact).collection_summary ≡ some summary
unfolding finalize_collection_summary item_from_plan good_item late_item
is_summary = refl

test_status : (finalize_collection_summary artifact).completion_status ≡ some "partial"
unfolding finalize_collection_summary item_from_plan good_item late_item
test_status = refl

test_valid : validate_artifact artifact ≡ ok tt
unfolding validate_artifact item_from_plan good_item late_item
test_valid = refl
