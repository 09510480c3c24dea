-- ===== src/Collector/Fallback.antt =====
-- `_execute_item_safely` and the fallback items of ch_diag/collector.py.
pub mod Trigger
pub mod Place
pub mod Laws
use Prim.Native.String
use ch_diag.Artifact.{CollectedItem, Diagnostic, is_successful, item_from_plan, no_result}
use ch_diag.Collector.Execute.{execute_item, failure, or_message, warning}
use ch_diag.Collector.Services.{Call, Exception, Services, raised, returned}
use ch_diag.Content.{Content}
use ch_diag.Planner.Plan.{Planned, PlannedItem}
use ch_diag.Prelude.{Bool, List, Option, String, [], false, none, some, ℕ, ◌+◌, ◌∷◌}
use ch_diag.Prelude.Lists.{elem}
use ch_diag.Prelude.Tests.{if◌then◌else◌}

-- `_item_error_from_exception`
unfoldable pub item_error_from_exception : Services → Planned → Exception → CollectedItem
unfolding item_from_plan
item_error_from_exception svc p e =
    let message = svc.redact e.message in
    item_from_plan p "error" no_result (some message) none (failure e.kind message none ∷ []) none
      none

-- `try: ... except Exception`
unfoldable pub caught : Services → Planned → Call CollectedItem → CollectedItem
unfolding item_error_from_exception
caught svc p (returned i) = i
caught svc p (raised e) = item_error_from_exception svc p e

abbrev pub allows : List String → Option String → Bool
allows allowed none = false
allows allowed (some s) = elem s allowed

abbrev pub first_allowed :
    List String → Option String → Option String → Option String → Option String
first_allowed allowed failure code rest =
    if allows allowed failure then failure else if allows allowed code then code else rest

-- the loop over the diagnostics
unfoldable pub diagnostic_trigger : List String → List Diagnostic → Option String
diagnostic_trigger allowed [] = none
diagnostic_trigger allowed (d ∷ ds) =
    first_allowed allowed d.failure_kind d.code (diagnostic_trigger allowed ds)

unfoldable pub fallback_trigger : CollectedItem → List String → Option String
unfolding is_successful diagnostic_trigger
fallback_trigger i allowed =
    if is_successful i then none else diagnostic_trigger allowed i.diagnostics

abbrev pub numeric_timing : Option ℕ → ℕ
numeric_timing none = 0
numeric_timing (some n) = n

abbrev pub concat : List String → String
concat [] = ""
concat (s ∷ rest) = String.◌++◌ s (concat rest)

-- `_replace_with_fallback_item`
unfoldable pub replace_with_fallback_item :
    PlannedItem → CollectedItem → Planned → CollectedItem → String → CollectedItem
unfolding is_successful
replace_with_fallback_item parent primary plan fallback trigger = record fallback {
  item_id = parent.plan.item_id;
  section_id = parent.plan.section_id;
  item_key = parent.plan.item_key;
  title = String.◌++◌ "[Fallback] " (or_message (some fallback.title) plan.title);
  state = parent.plan.state;
  reason = some (
      if is_successful fallback
      then concat (
          "Primary item failed (" ∷ trigger ∷ "); fallback item " ∷ plan.item_id ∷ " was collected."
          ∷ [])
      else concat (
          "Primary item failed ("
          ∷ trigger
          ∷ "); fallback item "
          ∷ plan.item_id
          ∷ " failed: "
          ∷ or_message fallback.reason fallback.collection_status
          ∷ []));
  timing_ms = some (numeric_timing primary.timing_ms + numeric_timing fallback.timing_ms);
  metadata = record (fallback.metadata) {
    tags = primary.metadata.tags;
    fallback = some (record {
      trigger = trigger;
      on = parent.fallback_on;
      parent_item_id = parent.plan.item_id;
      fallback_item_id = plan.item_id;
      primary_source_kind = parent.plan.source_kind;
      primary_source_id = parent.plan.source_id;
      primary_reason = primary.reason;
      primary_timing_ms = numeric_timing primary.timing_ms;
      fallback_timing_ms = numeric_timing fallback.timing_ms;
      primary_diagnostics = primary.diagnostics;
    });
  };
  diagnostics =
      warning "fallback_item_activated"
        (concat (
          "Primary item " ∷ parent.plan.item_id ∷ " failed with " ∷ trigger
          ∷ "; executed fallback item " ∷ plan.item_id ∷ "." ∷ []))
        none false
      ∷ fallback.diagnostics;
}

unfoldable pub with_fallback :
    Services
    → Content
    → PlannedItem
    → CollectedItem
    → Option String
    → Option Planned
    → CollectedItem
unfolding caught execute_item replace_with_fallback_item
with_fallback svc content parent primary none plan = primary
with_fallback svc content parent primary (some trigger) none = primary
with_fallback svc content parent primary (some trigger) (some plan) =
    replace_with_fallback_item parent primary plan (caught svc plan (execute_item svc content plan))
      trigger

-- `_execute_item_safely`
unfoldable pub execute_item_safely : Services → Content → PlannedItem → CollectedItem
unfolding caught execute_item fallback_trigger with_fallback
execute_item_safely svc content p =
    let primary = caught svc p.plan (execute_item svc content p.plan) in
    with_fallback svc content p primary (fallback_trigger primary p.fallback_on) p.fallback_item
