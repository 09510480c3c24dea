-- ===== src/Database/Query/Failures.antt =====
-- What a failed or a successful query means to the collector.
use ch_diag.Artifact.{CollectedItem, Diagnostic, is_successful, item_from_plan, successful_statuses}
use ch_diag.Collector.Execute.{mark_declared_result_limit, query_item, reaches_limit}
use ch_diag.Collector.Fallback.{diagnostic_trigger, fallback_trigger, first_allowed}
use ch_diag.Collector.Services.{Execution, Services}
use ch_diag.Content.{Query}
use ch_diag.Database.Errors.{Failure, classify_error, failure_kind, kind_is, query_limit_code}
use ch_diag.Database.Query.{
  Settings, descriptors, execution_of, failed_execution, failure_diagnostic, kind_only,
  or_type_name, public_rows,
}
use ch_diag.Database.Session.{Answer, Reply, gave, threw}
use ch_diag.Planner.Plan.{Planned}
use ch_diag.Prelude.{
  Bool, List, Option, String, [], ap, false, none, refl, some, subst, sym, true, ℕ, ◌&&◌, ◌==◌, ◌∙◌,
  ◌∷◌, ◌<◌, ◌≡◌, ◌≤◌,
}
use ch_diag.Prelude.Lists.{elem}
use ch_diag.Prelude.Tests.{if_both, leb}

classify_error-failed :
    (e : Failure) (optional : Bool) → elem (classify_error e optional) successful_statuses ≡ false
unfolding classify_error
classify_error-failed e optional = if_both Q (kind_is "query_timeout" k) _ _ refl (
    if_both Q (kind_is "permission_denied" k) _ _ refl
      (if_both Q (kind_is "unsupported_capability" k) _ _ refl refl))
  where
    Q : String → Type 0
    Q s = elem s successful_statuses ≡ false

    k : Option (String × String)
    k = failure_kind e optional

first_allowed-first :
    (allowed : List String) (k : String) (code rest : Option String)
    → elem k allowed ≡ true
    → first_allowed allowed (some k) code rest ≡ some k
first_allowed-first allowed k code rest h = rw h refl

reaches_limit-failed :
    (q : Query) (x : Execution)
    → elem x.collection_status successful_statuses ≡ false
    → reaches_limit q x ≡ false
unfolding reaches_limit
reaches_limit-failed q x h = by_limit q.row_limit
  where
    by_limit :
        (o : Option ℕ)
        → (elim o as (λ _. Bool) [
          | none ↦ false
          | some limit ↦
              elem x.collection_status successful_statuses
              && (x.result.kind == "table"
                  && elim x.result.row_count [ none ↦ false | some n ↦ leb limit n ])
        ])
          ≡ false
    by_limit none = refl
    by_limit (some limit) = rw h refl

marked-failed :
    (q : Query) (x : Execution)
    → elem x.collection_status successful_statuses ≡ false
    → mark_declared_result_limit q x ≡ x
unfolding mark_declared_result_limit
marked-failed q x h = rw (reaches_limit-failed q x h) refl

-- the item of a failed query has its status and its diagnostics
query_item-failed :
    (svc : Services) (p : Planned) (q : Query) (x : Execution)
    → elem x.collection_status successful_statuses ≡ false
    → ((query_item svc p q x).collection_status ≡ x.collection_status)
      × ((query_item svc p q x).diagnostics ≡ x.diagnostics)
unfolding query_item item_from_plan
query_item-failed svc p q x h =
    let e = marked-failed q x h in
    (ap (λ (y : Execution). y.collection_status) e, ap (λ (y : Execution). y.diagnostics) e)

fallback_trigger-failed :
    (i : CollectedItem) (allowed : List String)
    → elem i.collection_status successful_statuses ≡ false
    → fallback_trigger i allowed ≡ diagnostic_trigger allowed i.diagnostics
unfolding fallback_trigger is_successful
fallback_trigger-failed i allowed h = rw h refl

failed-trigger :
    (s : Settings) (rendered : String) (e : Failure) (optional : Bool) (allowed : List String)
    (kind evidence : String)
    → failure_kind e optional ≡ some (kind, evidence)
    → elem kind allowed ≡ true
    → diagnostic_trigger allowed (failed_execution s rendered e optional).diagnostics ≡ some kind
unfolding diagnostic_trigger failed_execution failure_diagnostic
failed-trigger s rendered e optional allowed kind evidence h k =
    subst
      (λ o.
        first_allowed allowed (kind_only o) (some (or_type_name (query_limit_code e) e)) none
        ≡ some kind)
      (sym h) (first_allowed-first allowed kind (some (or_type_name (query_limit_code e) e)) none k)

-- The way of a failure from the driver to the policy of an item: where a query raises an exception
-- whose kind the plan lists as a reason for the fallback, the item of the query triggers the
-- fallback for that kind.
pub failed_execution-triggers :
    (svc : Services) (p : Planned) (q : Query) (s : Settings) (rendered : String) (e : Failure)
    (optional : Bool) (allowed : List String) (kind evidence : String)
    → failure_kind e optional ≡ some (kind, evidence)
    → elem kind allowed ≡ true
    → fallback_trigger (query_item svc p q (execution_of s rendered optional (threw e))) allowed
      ≡ some kind
unfolding execution_of failed_execution
failed_execution-triggers svc p q s rendered e optional allowed kind evidence h k =
    let (status, diagnostics) =
      query_item-failed svc p q (failed_execution s rendered e optional)
        (classify_error-failed e optional) in
    fallback_trigger-failed (query_item svc p q (failed_execution s rendered e optional)) allowed
      (ap (λ t. elem t successful_statuses) status ∙ classify_error-failed e optional)
    ∙ (ap (diagnostic_trigger allowed) diagnostics
        ∙ failed-trigger s rendered e optional allowed kind evidence h k)

-- What the diagnostic of an answer says: of an exception its kind, what `_query_limit_code` finds or
-- else its class, and its redacted text; of rows that are too large that they are above the limit.
abbrev pub Says : Settings → Bool → Reply Answer → Diagnostic → Type 0
Says s optional (threw e) d =
    (d.failure_kind ≡ elim (failure_kind e optional) [ none ↦ none | some k ↦ some k.0 ])
    × (d.code ≡ some (elim (query_limit_code e) [ none ↦ e.type_name | some limit ↦ limit ]))
    × (d.message ≡ s.redact_error e)
    × (d.coverage_incomplete ≡ elim (query_limit_code e) [ none ↦ false | some limit ↦ true ])
Says s optional (gave a) d =
    (s.max_result_bytes < s.encoded_size (public_rows s (descriptors a.columns) a.rows))
    × (d.failure_kind ≡ some "result_limit")
    × (d.code ≡ some "result_size_limit")
    × (d.coverage_incomplete ≡ true)

-- what a result tells of the answer
abbrev pub IsTold : Settings → Bool → Reply Answer → Execution → Type 0
IsTold s optional r x =
    (elem x.collection_status successful_statuses ≡ true
      → (a : Answer) × (r ≡ gave a)
        × (x.result.rows ≡ public_rows s (descriptors a.columns) a.rows)
        × (s.encoded_size x.result.rows ≤ s.max_result_bytes)
        × (x.diagnostics ≡ []))
    × (elem x.collection_status successful_statuses ≡ false
        → (d : Diagnostic) × (x.result.rows ≡ [])
          × (x.diagnostics ≡ d ∷ [])
          × (d.level ≡ "error")
          × Says s optional r d)
