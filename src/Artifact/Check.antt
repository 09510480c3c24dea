-- ===== src/Artifact/Check.antt =====
-- `validate_artifact` of ch_diag/artifact.py.
use ch_diag.Planner.Build.{PlanSection}
use ch_diag.Prelude.{Bool, List, Option, String, [], none, not, some, ◌&&◌, ◌++◌, ◌==◌, ◌∷◌}
use ch_diag.Prelude.Lists.{any, elem, length}
use ch_diag.Prelude.Results.{
  Result, err, inconsistent_references, inconsistent_row_count, inconsistent_series_count,
  invalid_column, invalid_completion, invalid_kind, invalid_status, malformed_rows, ok, raise_if,
  shared_item, unsupported_schema, ◌>>=◌, ◌>>◌,
}
use ch_diag.Prelude.Tests.{if◌then◌else◌, nat_eq}
use ch_diag.Artifact.{
  Column, Payload, CollectedItem, collection_statuses, Artifact, artifact_schema_version, keys,
}

-- `validate_artifact`: the loop over the sections
unfoldable pub reference_items : List String → List String → Result (List String)
reference_items [] referenced = ok referenced
reference_items (id ∷ rest) referenced =
    let next = reference_items rest (referenced ++ (id ∷ [])) in
    if elem id referenced then err (shared_item id) else next

unfoldable pub reference_sections : List PlanSection → List String → Result (List String)
unfolding reference_items
reference_sections [] referenced = ok referenced
reference_sections (s ∷ rest) referenced = do
  found ← reference_items s.items referenced
  reference_sections rest found

-- equality of two sets
unfoldable pub same_members : List String → List String → Bool
same_members xs ys = not (any (λ x. not (elem x ys)) xs) && not (any (λ y. not (elem y xs)) ys)

unfoldable pub validate_result : String → Payload → Result (Unit {0})
validate_result id r =
    if not (elem r.kind ("table" ∷ "plain_text" ∷ "chart" ∷ "none" ∷ []))
    then err (invalid_kind id)
    else if r.kind == "table"
    then if any (λ (c : Column). not c.is_valid) r.columns
      then err (invalid_column id)
      else if any (λ (row : List String). not (nat_eq (length row) (length r.columns))) r.rows
      then err (malformed_rows id)
      else elim r.row_count [
        | none ↦ err (inconsistent_row_count id)
        | some n ↦ if nat_eq n (length r.rows) then ok tt else err (inconsistent_row_count id)
      ]
    else if r.kind == "chart"
    then elim r.series_count [
      | none ↦ err (inconsistent_series_count id)
      | some n ↦ if nat_eq n (length r.series) then ok tt else err (inconsistent_series_count id)
    ]
    else ok tt

unfoldable pub validate_items : List (String × CollectedItem) → Result (Unit {0})
unfolding validate_result
validate_items [] = ok tt
validate_items ((id, i) ∷ rest) = do
  raise_if (not (elem i.collection_status collection_statuses))
      (invalid_status id i.collection_status)
  validate_result id i.result
  validate_items rest

unfoldable pub validate_completion : Option String → Result (Unit {0})
validate_completion none = ok tt
validate_completion (some s) =
    raise_if (not (elem s ("succeeded" ∷ "partial" ∷ "failed" ∷ []))) (invalid_completion s)

unfoldable pub validate_artifact : Artifact → Result (Unit {0})
unfolding validate_completion reference_sections same_members validate_items
validate_artifact a = do
  raise_if (not (nat_eq a.schema_version artifact_schema_version)) unsupported_schema
  validate_completion a.completion_status
  referenced ← reference_sections a.sections []
  raise_if (not (same_members referenced (keys a.items))) inconsistent_references
  validate_items a.items
