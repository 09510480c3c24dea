-- ===== src/Artifact/Finish.antt =====
-- `finalize_collection_summary`, `strip_artifact_metadata` and `omit_uncollected_items` of
-- ch_diag/artifact.py.
use ch_diag.Planner.Build.{PlanSection}
use ch_diag.Prelude.{Bool, List, String, [], false, none, not, some, true, ℕ, ◌&&◌, ◌||◌, ◌∷◌}
use ch_diag.Prelude.Lists.{any, count_if, elem, keep, length}
use ch_diag.Prelude.Tests.{if◌then◌else◌, ltb, nat_eq}
use ch_diag.Artifact.{Diagnostic, CollectedItem, is_successful, is_failed, Artifact, values}

-- `_item_coverage_incomplete`
unfoldable pub item_coverage_incomplete : CollectedItem → Bool
item_coverage_incomplete i =
    i.result.coverage_incomplete || any (λ (d : Diagnostic). d.coverage_incomplete) i.diagnostics

unfoldable pub uses_fallback : CollectedItem → Bool
uses_fallback i = elim i.metadata.fallback [ none ↦ false | some _ ↦ true ]

unfoldable pub is_complete : CollectedItem → Bool
unfolding is_successful item_coverage_incomplete
is_complete i = is_successful i && not (item_coverage_incomplete i)

unfoldable pub completion : ℕ → ℕ → ℕ → String
completion failed successful incomplete =
    if ltb 0 failed && nat_eq successful 0
    then "failed"
    else if ltb 0 failed || ltb 0 incomplete
    then "partial"
    else "succeeded"

-- `finalize_collection_summary`; the ratio, a rounded float, is left out
unfoldable pub finalize_collection_summary : Artifact → Artifact
unfolding is_successful is_failed item_coverage_incomplete is_complete uses_fallback completion
finalize_collection_summary a =
    let items = values a.items in
    let successful = count_if is_successful items in
    let failed = count_if is_failed items in
    let incomplete = count_if item_coverage_incomplete items in
    let fallbacks = count_if uses_fallback items in
    record a {
      completion_status = some (completion failed successful incomplete);
      collection_summary = some (record {
        total_items = length items;
        successful_items = successful;
        complete_items = count_if is_complete items;
        failed_items = failed;
        coverage_incomplete_items = incomplete;
        fallback_items = fallbacks;
      });
      degraded = a.degraded || ltb 0 fallbacks;
    }

-- `strip_artifact_metadata`, of the parts that the artifact has here
unfoldable pub strip_item : CollectedItem → CollectedItem
strip_item i = record i {
  metadata = record (i.metadata) {
    instructions = none;
    source_text = none;
    source_language = none;
  };
}

unfoldable pub strip_items : List (String × CollectedItem) → List (String × CollectedItem)
unfolding strip_item
strip_items [] = []
strip_items ((k, i) ∷ rest) = (k, strip_item i) ∷ strip_items rest

unfoldable pub strip_artifact_metadata : Artifact → Artifact
unfolding strip_items
strip_artifact_metadata a = record a { strip_meta = true; items = strip_items a.items }

-- `omit_uncollected_items`
unfoldable pub drop_items :
    List String → List (String × CollectedItem) → List (String × CollectedItem)
drop_items omitted [] = []
drop_items omitted ((k, i) ∷ rest) =
    let others = drop_items omitted rest in if elem k omitted then others else (k, i) ∷ others

unfoldable pub retain_sections : List String → List PlanSection → List PlanSection
retain_sections omitted [] = []
retain_sections omitted (s ∷ rest) =
    let others = retain_sections omitted rest in
    elim (keep (λ id. not (elem id omitted)) s.items) [
      | [] ↦ others
      | id ∷ more ↦ record s { items = id ∷ more } ∷ others
    ]

unfoldable pub omit_uncollected_items : Artifact → List String → Artifact
unfolding drop_items retain_sections
omit_uncollected_items a omitted = record a {
  items = drop_items omitted a.items;
  sections = retain_sections omitted a.sections;
}
