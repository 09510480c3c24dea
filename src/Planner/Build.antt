-- ===== src/Planner/Build.antt =====
-- `build_plan` of ch_diag/planner.py.
pub mod Listing
pub mod Items
pub mod Sources
pub mod Transport
pub mod Sections
pub mod Selection
use ch_diag.Content.{Content, Row, Section, iter_report_items}
use ch_diag.Planner.Fallback.{attach_fallback}
use ch_diag.Planner.Filters.{Filters, is_given, is_selected, selected_filters}
use ch_diag.Planner.Plan.{
  Outcome, PlannedItem, instruction_of, item_title, metric_outcome, query_outcome, script_outcome,
}
use ch_diag.Planner.Requirements.{
  CollectionMode, RunMode, Scope, SourceKind, collection_requirements, metric, query,
  requires_database, script, source_of, source_target,
}
use ch_diag.Prelude.{Bool, List, Option, String, [], map, none, not, some, ◌&&◌, ◌==◌, ◌||◌, ◌∷◌}
use ch_diag.Prelude.Results.{
  Result, assertion_error, err, ok, raise_if, unsupported_version, version_required, ◌>>=◌, ◌>>◌,
}
use ch_diag.Prelude.Tests.{if◌then◌else◌}
use ch_diag.Versioning.{Version, resolve_lts_branch}

pub record PlanSection : Type 0 where
  pub section_id : String
  pub title : String
  pub description : Option String
  pub state : String
  pub items : List String

pub record ExecutionPlan : Type 0 where
  pub mode : RunMode
  pub collection_mode : CollectionMode
  pub target_scope : Scope
  pub server_version : Option Version
  pub compatibility_lts_version : Option String
  pub sections : List PlanSection
  pub items : List PlannedItem

-- the branch on the source kind; the query branch asserts that the version is known
unfoldable pub source_outcome :
    Content
    → Option Version
    → RunMode
    → CollectionMode
    → Scope
    → SourceKind
    → String
    → Result Outcome
unfolding query_outcome script_outcome metric_outcome
source_outcome content none mode cmode scope query id = err assertion_error
source_outcome content (some v) mode cmode scope query id = query_outcome content scope v id
source_outcome content v mode cmode scope script id = script_outcome content cmode id
source_outcome content v mode cmode scope metric id = metric_outcome content mode cmode id

abbrev pub or_default : String → String → String
or_default s d = if s == "" then d else s

-- the body of the loop, behind the filters
unfoldable pub plan_row :
    Content → Option Version → RunMode → CollectionMode → Scope → Row → Result PlannedItem
unfolding source_of source_target item_title source_outcome instruction_of attach_fallback
plan_row content v mode cmode scope r = do
  source ← source_of r.item
  target ← source_target content source.0 source.1
  title ← item_title content source.0 source.1 r.item.title r.item_key
  o ← source_outcome content v mode cmode scope source.0 source.1
  attach_fallback content
      (record {
        item_id = r.item_id;
        section_id = r.section_id;
        item_key = r.item_key;
        title = title;
        source_kind = source.0;
        source_id = source.1;
        status = o.status;
        state = or_default r.item.state "collapsed";
        reason = o.reason;
        variant_id = o.variant_id;
        sql_file = o.sql_file;
        script_file = o.script_file;
        target = target;
        metadata = record {
          tags = r.item.tags;
          execution_scope = scope;
          instructions = instruction_of content r.item_id;
          sensitivity = o.sensitivity;
          source_language = o.source_language;
          fallback_policy = none;
        };
      })
      r.item v scope cmode

unfoldable pub plan_rows :
    Content
    → Option Version
    → RunMode
    → CollectionMode
    → Scope
    → Filters
    → List Row
    → Result (List PlannedItem)
unfolding plan_row is_selected
plan_rows content v mode cmode scope f [] = ok []
plan_rows content v mode cmode scope f (r ∷ rows) =
    let rest = plan_rows content v mode cmode scope f rows in
    if is_selected f r
    then (do p ← plan_row content v mode cmode scope r; ps ← rest; ok (p ∷ ps))
    else rest

-- `section_items.get(section_id)`
unfoldable pub section_items : String → List PlannedItem → List String
section_items id [] = []
section_items id (p ∷ ps) =
    let rest = section_items id ps in
    if p.plan.section_id == id then p.plan.item_id ∷ rest else rest

unfoldable pub plan_sections : List Section → List PlannedItem → List PlanSection
unfolding section_items
plan_sections [] items = []
plan_sections (s ∷ rest) items =
    let others = plan_sections rest items in
    elim (section_items s.section_id items) [
      | [] ↦ others
      | id ∷ ids ↦
          record {
            section_id = s.section_id;
            title = or_default s.title s.section_id;
            description = s.description;
            state = elim s.state [ none ↦ "expanded" | some state ↦ state ];
            items = id ∷ ids;
          }
          ∷ others
    ]

unfoldable pub expand : String → String
expand state = if state == "hidden" then "hidden" else "expanded"

unfoldable pub expand_item : PlannedItem → PlannedItem
unfolding expand
expand_item p = record p { plan = record (p.plan) { state = expand p.plan.state } }

unfoldable pub expand_section : PlanSection → PlanSection
unfolding expand
expand_section s = record s { state = expand s.state }

-- `compatibility_lts_version`, and the refusal of a version before the first branch
unfoldable pub compatibility : Content → Option Version → Result (Option String)
unfolding resolve_lts_branch
compatibility content none = ok none
compatibility content (some v) = do
  lts ← resolve_lts_branch v content.supported_lts_versions
  elim lts [ none ↦ err unsupported_version | some b ↦ ok (some b) ]

unfoldable pub is_filtered : Filters → Bool
is_filtered f = is_given f.items || is_given f.tags

-- a filtered plan shows everything expanded that is not hidden
unfoldable pub shown_items : Filters → List PlannedItem → List PlannedItem
unfolding is_filtered expand_item
shown_items f items = if is_filtered f then map expand_item items else items

unfoldable pub shown_sections : Filters → List PlanSection → List PlanSection
unfolding is_filtered expand_section
shown_sections f sections = if is_filtered f then map expand_section sections else sections

unfoldable pub build_plan :
    Content
    → Option Version
    → RunMode
    → CollectionMode
    → Scope
    → Option (List String)
    → Option (List String)
    → Result ExecutionPlan
unfolding selected_filters collection_requirements requires_database compatibility plan_rows
    plan_sections shown_items shown_sections iter_report_items
build_plan content v mode cmode scope item_ids tags = do
  f ← selected_filters content item_ids tags
  r ← collection_requirements content mode cmode scope f.items f.tags
  raise_if (requires_database r && not (is_given v)) version_required
  lts ← compatibility content v
  items ← plan_rows content v mode cmode scope f (iter_report_items content)
  ok (record {
    mode = mode;
    collection_mode = cmode;
    target_scope = scope;
    server_version = v;
    compatibility_lts_version = lts;
    sections = shown_sections f (plan_sections content.sections items);
    items = shown_items f items;
  })
