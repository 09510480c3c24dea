-- ===== src/Snapshots/Items.antt =====
-- The last loop of `collect_metric_items` of ch_diag/snapshots.py: the status and the item of each
-- planned metric. The samples, the result that is built from them and the diagnostics of the
-- sources are arguments.
use ch_diag.Artifact.{CollectedItem, Diagnostic, Payload, item_from_plan, put_item}
use ch_diag.Collector.Services.{returned}
use ch_diag.Collector.Target.Total.{Covers, Has, put_item-Has_new, put_item-Has_old}
use ch_diag.Planner.Plan.{Planned, PlannedItem}
use ch_diag.Prelude.{
  Bool, List, Option, String, [], ap, eq_iff, false, inl, inr, none, not, refl, some, subst, true,
  ℕ, ◌&&◌, ◌++◌, ◌<◌, ◌==◌, ◌∙◌, ◌∷◌, ◌≡◌,
}
use ch_diag.Prelude.Lists.{All, any}
use ch_diag.Prelude.Tests.{Bool-cases, if◌then◌else◌, ltb, ltb→lt}

-- what the loop knows of one planned metric
pub record Gathered : Type 0 where
  pub result : Payload
  pub has_samples : Bool
  pub required_fields : List String
  pub is_observed : Bool
  pub errors : List Diagnostic
  pub further : List Diagnostic
  pub source_text : Option String
  pub source_language : String

abbrev pub or_zero : Option ℕ → ℕ
or_zero none = 0
or_zero (some n) = n

-- `series_count` of a chart, `row_count` of a table
unfoldable pub result_count : Payload → ℕ
result_count r = if r.kind == "chart" then or_zero r.series_count else or_zero r.row_count

abbrev pub is_unsupported : Diagnostic → Bool
is_unsupported d = elim d.code [ none ↦ false | some c ↦ c == "unsupported" ]

-- the branches on the errors, where there is no data
unfoldable pub error_status : List Diagnostic → String × Option String
error_status [] = ("empty", none)
error_status (d ∷ ds) =
    if any (λ x. not (is_unsupported x)) (d ∷ ds)
    then ("error", some d.message)
    else ("unsupported", some d.message)

abbrev pub is_required : List String → Bool
is_required [] = false
is_required (f ∷ fs) = true

unfoldable pub metric_status : Gathered → String × Option String
unfolding result_count error_status
metric_status g =
    if is_required g.required_fields && (not g.is_observed && g.has_samples)
    then ("unsupported", some "required process fields are not exposed")
    else if ltb 0 (result_count g.result)
    then ("ok", none)
    else error_status g.errors

unfoldable pub metric_item : Planned → Gathered → CollectedItem
unfolding metric_status item_from_plan
metric_item p g =
    let status = metric_status g in
    item_from_plan p status.0 g.result status.1 none (g.errors ++ g.further) g.source_text
      (some g.source_language)

-- `items[planned.item_id] = item`
unfoldable pub metric_items :
    (PlannedItem → Gathered)
    → List PlannedItem
    → List (String × CollectedItem)
    → List (String × CollectedItem)
unfolding metric_item put_item
metric_items gather [] items = items
metric_items gather (p ∷ ps) items =
    metric_items gather ps (put_item p.plan.item_id (metric_item p.plan (gather p)) items)

-- What the status of a metric item says of its samples and errors.
pub record IsTold (g : Gathered) (status : String) : Type 0 where
  pub has_data : status ≡ "ok" → 0 < result_count g.result
  pub no_error : status ≡ "empty" → g.errors ≡ []
  pub has_error : status ≡ "error" → any (λ d. not (is_unsupported d)) g.errors ≡ true

metric_items-Has_old :
    (gather : PlannedItem → Gathered) (ps : List PlannedItem) (id : String)
    (items : List (String × CollectedItem))
    → Has id items
    → Has id (metric_items gather ps items)
unfolding metric_items
metric_items-Has_old gather [] id items h = h
metric_items-Has_old gather (p ∷ ps) id items h =
    metric_items-Has_old gather ps id _ (put_item-Has_old id p.plan.item_id _ items h)

metric_items-Has :
    (gather : PlannedItem → Gathered) (ps : List PlannedItem)
    (items : List (String × CollectedItem))
    → All (λ p. Has p.plan.item_id (metric_items gather ps items)) ps
unfolding metric_items
metric_items-Has gather [] items = tt
metric_items-Has gather (p ∷ ps) items = (
  metric_items-Has_old gather ps p.plan.item_id _ (put_item-Has_new p.plan.item_id _ items),
  metric_items-Has gather ps _,
)

-- Whatever the samples are, `metric_items` returns an item for each metric item that it is given, as
-- the second loop of a collection needs.
pub metric_items-Covers :
    (gather : PlannedItem → Gathered) (count : ℕ) (diagnostics : List Diagnostic)
    → Covers (λ ps.
      returned (record {
        items = metric_items gather ps [];
        snapshots = count;
        diagnostics = diagnostics;
      }))
metric_items-Covers gather count diagnostics ps m e =
    let same : metric_items gather ps [] ≡ m.items = cc e in
    subst (λ items. All (λ p. Has p.plan.item_id items) ps) same (metric_items-Has gather ps [])

differ : {P : Type 0} (a b : String) → (a == b) ≡ false → a ≡ b → P
differ a b h e = absurd (let x : ⊥ = cc ((eq_iff a b).1 e, h) in x)

error_status-IsTold :
    (g : Gathered) (ds : List Diagnostic) → g.errors ≡ ds → IsTold g (error_status ds).0
unfolding error_status
error_status-IsTold g [] e = record {
  has_data = differ "empty" "ok" refl;
  no_error = λ h. e;
  has_error = differ "empty" "error" refl;
}
error_status-IsTold g (d ∷ ds) e = elim (Bool-cases (any (λ x. not (is_unsupported x)) (d ∷ ds))) [
  | inl k ↦ rw k (record {
    has_data = differ "error" "ok" refl;
    no_error = differ "error" "empty" refl;
    has_error = λ h. ap (any (λ x. not (is_unsupported x))) e ∙ k;
  })
  | inr k ↦ rw k (record {
    has_data = differ "unsupported" "ok" refl;
    no_error = differ "unsupported" "empty" refl;
    has_error = differ "unsupported" "error" refl;
  })
]

-- The status of a metric item is "ok" only with data, "empty" only if no source recorded an error,
-- and "error" only if a source recorded one that is not "unsupported".
pub metric_status-IsTold : (g : Gathered) → IsTold g (metric_status g).0
unfolding metric_status
metric_status-IsTold g =
    elim (Bool-cases (is_required g.required_fields && (not g.is_observed && g.has_samples))) [
      | inl e ↦ rw e (record {
        has_data = differ "unsupported" "ok" refl;
        no_error = differ "unsupported" "empty" refl;
        has_error = differ "unsupported" "error" refl;
      })
      | inr e ↦ elim (Bool-cases (ltb 0 (result_count g.result))) [
        | inl k ↦
            rw (e, k)
              (record {
                has_data = λ h. ltb→lt 0 (result_count g.result) k;
                no_error = differ "ok" "empty" refl;
                has_error = differ "ok" "error" refl;
              })
        | inr k ↦ rw (e, k) (error_status-IsTold g g.errors refl)
      ]
    ]
