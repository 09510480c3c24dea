-- ===== src/Artifact.antt =====
-- ch_diag/artifact.py: the collected items, and the artifact that holds them. Dictionaries of fixed
-- keys are records, and a key that may be missing is an `Option`. Times of collection, the content
-- document and what identifies the collector's host are left out.
pub mod Check
pub mod Finish
pub mod Summary
pub mod Omit
pub mod Validate
pub mod Tests
use ch_diag.Planner.Build.{ExecutionPlan, PlanSection}
use ch_diag.Planner.Plan.{Planned}
use ch_diag.Planner.Requirements.{SourceKind}
use ch_diag.Prelude.{Bool, List, Option, String, [], false, none, some, ℕ, ◌==◌, ◌∷◌}
use ch_diag.Prelude.Lists.{elem}
use ch_diag.Prelude.Tests.{if◌then◌else◌}

pub record Diagnostic : Type 0 where
  pub level : String
  pub code : Option String
  pub failure_kind : Option String
  pub coverage_incomplete : Bool
  pub message : String

-- a column descriptor, with what `validate_column_descriptor` says of it
pub record Column : Type 0 where
  pub name : String
  pub is_valid : Bool

pub record Payload : Type 0 where
  pub kind : String
  pub columns : List Column
  pub rows : List (List String)
  pub row_count : Option ℕ
  pub series : List String
  pub series_count : Option ℕ
  pub coverage_incomplete : Bool
  pub body : String

abbrev pub no_result : Payload
no_result = record {
  kind = "none";
  columns = [];
  rows = [];
  row_count = none;
  series = [];
  series_count = none;
  coverage_incomplete = false;
  body = "";
}

-- `metadata["fallback"]`
pub record FallbackUse : Type 0 where
  pub trigger : String
  pub on : List String
  pub parent_item_id : String
  pub fallback_item_id : String
  pub primary_source_kind : SourceKind
  pub primary_source_id : String
  pub primary_reason : Option String
  pub primary_timing_ms : ℕ
  pub fallback_timing_ms : ℕ
  pub primary_diagnostics : List Diagnostic

pub record ItemMetadata : Type 0 where
  pub tags : List String
  pub instructions : Option String
  pub source_text : Option String
  pub source_language : Option String
  pub fallback : Option FallbackUse

pub record CollectedItem : Type 0 where
  pub item_id : String
  pub section_id : String
  pub item_key : String
  pub title : String
  pub source_kind : SourceKind
  pub source_id : String
  pub state : String
  pub collection_status : String
  pub severity_level : String
  pub reason : Option String
  pub timing_ms : Option ℕ
  pub result : Payload
  pub metadata : ItemMetadata
  pub diagnostics : List Diagnostic

-- `COLLECTION_STATUSES`, `FAILED_COLLECTION_STATUSES`, `SUCCESSFUL_COLLECTION_STATUSES`
abbrev pub successful_statuses : List String
successful_statuses = "ok" ∷ "empty" ∷ []

abbrev pub failed_statuses : List String
failed_statuses = "error" ∷ "permission_denied" ∷ "timeout" ∷ []

abbrev pub collection_statuses : List String
collection_statuses =
    "ok" ∷ "empty" ∷ "error" ∷ "unsupported" ∷ "permission_denied" ∷ "timeout" ∷ "skipped" ∷ []

unfoldable pub is_successful : CollectedItem → Bool
is_successful i = elem i.collection_status successful_statuses

unfoldable pub is_failed : CollectedItem → Bool
is_failed i = elem i.collection_status failed_statuses

abbrev pub or_else : Option String → Option String → Option String
or_else none d = d
or_else (some s) d = some s

-- `item_from_plan`
unfoldable pub item_from_plan :
    Planned
    → String
    → Payload
    → Option String
    → Option ℕ
    → List Diagnostic
    → Option String
    → Option String
    → CollectedItem
item_from_plan p status result reason timing diagnostics source_text source_language = record {
  item_id = p.item_id;
  section_id = p.section_id;
  item_key = p.item_key;
  title = p.title;
  source_kind = p.source_kind;
  source_id = p.source_id;
  state = p.state;
  collection_status = status;
  severity_level = if elem status successful_statuses then "ok" else "unknown";
  reason = reason;
  timing_ms = timing;
  result = result;
  metadata = record {
    tags = p.metadata.tags;
    instructions = p.metadata.instructions;
    source_text = source_text;
    source_language = or_else source_language p.metadata.source_language;
    fallback = none;
  };
  diagnostics = diagnostics;
}

pub record CollectionSummary : Type 0 where
  pub total_items : ℕ
  pub successful_items : ℕ
  pub complete_items : ℕ
  pub failed_items : ℕ
  pub coverage_incomplete_items : ℕ
  pub fallback_items : ℕ

pub record Artifact : Type 0 where
  pub schema_version : ℕ
  pub completion_status : Option String
  pub collection_summary : Option CollectionSummary
  pub degraded : Bool
  pub strip_meta : Bool
  pub sections : List PlanSection
  pub items : List (String × CollectedItem)
  pub snapshots : ℕ
  pub diagnostics : List Diagnostic

abbrev pub artifact_schema_version : ℕ
artifact_schema_version = 5

-- `create_artifact`
unfoldable pub create_artifact : ExecutionPlan → Artifact
create_artifact plan = record {
  schema_version = artifact_schema_version;
  completion_status = none;
  collection_summary = none;
  degraded = false;
  strip_meta = false;
  sections = plan.sections;
  items = [];
  snapshots = 0;
  diagnostics = [];
}

-- `items[key] = item`: a new key goes to the end
unfoldable pub put_item :
    String → CollectedItem → List (String × CollectedItem) → List (String × CollectedItem)
put_item k i [] = (k, i) ∷ []
put_item k i ((j, old) ∷ rest) = if j == k then (j, i) ∷ rest else (j, old) ∷ put_item k i rest

abbrev pub values : List (String × CollectedItem) → List CollectedItem
values [] = []
values ((k, i) ∷ rest) = i ∷ values rest

abbrev pub keys : List (String × CollectedItem) → List String
keys [] = []
keys ((k, i) ∷ rest) = k ∷ keys rest
