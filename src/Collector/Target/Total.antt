-- ===== src/Collector/Target/Total.antt =====
-- What becomes of a collection without fail-fast.
use ch_diag.Artifact.{Artifact, CollectedItem, put_item}
use ch_diag.Artifact.Check.{validate_artifact}
use ch_diag.Planner.Build.{ExecutionPlan}
use ch_diag.Prelude.Results.{Result, err, ok}
use ch_diag.Collector.Lifecycle.Run.{collect}
use ch_diag.Collector.Services.{Call, Exception, Services, exception, raised, returned}
use ch_diag.Collector.Target.{
  Collected, Metrics, State, assemble, collect_target, validated, collect_all, collect_metrics,
  metric_errors, metric_phase, metrics_or_errors, start,
}
use ch_diag.Collector.Target.FailFast.{collect_all-total, record_item-total}
use ch_diag.Content.{Content, find_key}
use ch_diag.Planner.Plan.{PlannedItem}
use ch_diag.Prelude.{
  Bool, List, String, [], arith, eq_refl, false, inl, inr, refl, some, ◌==◌, ◌∷◌, ◌≡◌,
}
use ch_diag.Prelude.Lists.{All}
use ch_diag.Prelude.Tests.{Bool-cases}

-- `items` has an item for the id
abbrev pub Has : String → List (String × CollectedItem) → Type 0
Has id items = (i : CollectedItem) × (find_key id items ≡ some i)

pub put_item-Has_new :
    (k : String) (i : CollectedItem) (items : List (String × CollectedItem))
    → Has k (put_item k i items)
unfolding put_item find_key
put_item-Has_new k i [] = (i, rw (eq_refl k))
put_item-Has_new k i ((j, old) ∷ rest) = elim (Bool-cases (j == k)) [
  | inl e ↦ (i, rw (e, e))
  | inr e ↦ let (x, h) = put_item-Has_new k i rest in (x, rw (e, find_key, e) h)
]

pub put_item-Has_old :
    (id k : String) (i : CollectedItem) (items : List (String × CollectedItem))
    → Has id items
    → Has id (put_item k i items)
unfolding put_item find_key
put_item-Has_old id k i [] (x, h) = absurd (let y : ⊥ = cc h in y)
put_item-Has_old id k i ((j, old) ∷ rest) (x, h) = elim (Bool-cases (j == k)) [
  | inl e ↦ elim (Bool-cases (j == id)) [
    | inl f ↦ (i, rw (e, find_key, f))
    | inr f ↦ (x, ground (arith, e, f, h))
  ]
  | inr e ↦ elim (Bool-cases (j == id)) [
    | inl f ↦ (old, rw (e, find_key, f))
    | inr f ↦
        let (y, k') = put_item-Has_old id k i rest (x, rw (f, find_key) at h) in
        (y, rw (e, find_key, f) k')
  ]
]

module _ (svc : Services) (e : Exception) where
  metric_errors-Has_old :
      (ps : List PlannedItem) (id : String) (errors : List (String × CollectedItem))
      → Has id errors
      → Has id (metric_errors svc e ps errors)
  unfolding metric_errors
  metric_errors-Has_old [] id errors h = h
  metric_errors-Has_old (p ∷ ps) id errors h =
      metric_errors-Has_old ps id _ (put_item-Has_old id p.plan.item_id _ errors h)

  -- the comprehension gives every metric item an error item
  metric_errors-Has :
      (ps : List PlannedItem) (errors : List (String × CollectedItem))
      → All (λ p. Has p.plan.item_id (metric_errors svc e ps errors)) ps
  unfolding metric_errors
  metric_errors-Has [] errors = tt
  metric_errors-Has (p ∷ ps) errors = (
    metric_errors-Has_old ps p.plan.item_id _ (put_item-Has_new p.plan.item_id _ errors),
    metric_errors-Has ps _,
  )

collect_metrics-total :
    (gathered : List (String × CollectedItem)) (ps : List PlannedItem) (s : State)
    → All (λ p. Has p.plan.item_id gathered) ps
    → (t : State) × (collect_metrics false gathered ps s ≡ returned t)
unfolding collect_metrics
collect_metrics-total gathered [] s h = (s, refl)
collect_metrics-total gathered (p ∷ ps) s ((i, found), h) =
    let (u, a) = record_item-total p.plan.item_id i s in
    let (t, b) = collect_metrics-total gathered ps u h in (t, rw (found, collect_metrics, a) b)

-- what `collect_metric_items` returns has an item for each metric item that it is given
abbrev pub Covers : (List PlannedItem → Call Metrics) → Type 0
Covers collect =
    (ps : List PlannedItem) (m : Metrics)
    → collect ps ≡ returned m
    → All (λ p. Has p.plan.item_id m.items) ps

metrics_or_errors-Has :
    (svc : Services) (collect : List PlannedItem → Call Metrics) (ps : List PlannedItem)
    → Covers collect
    → All (λ p. Has p.plan.item_id (metrics_or_errors svc ps (collect ps)).items) ps
metrics_or_errors-Has svc collect ps covers = by_call (collect ps) refl
  where
    by_call :
        (c : Call Metrics)
        → collect ps ≡ c
        → All (λ p. Has p.plan.item_id (metrics_or_errors svc ps c).items) ps
    by_call (returned m) e = unfold metrics_or_errors in covers ps m e
    by_call (raised x) e = unfold metrics_or_errors in metric_errors-Has svc x ps []

metric_phase-total :
    (svc : Services) (collect : List PlannedItem → Call Metrics) (s : State)
    → Covers collect
    → (c : Collected) × (metric_phase svc false collect s ≡ returned c)
unfolding metric_phase
metric_phase-total svc collect s covers = by_items s.metric_items
  where
    by_items :
        (ps : List PlannedItem)
        → (c : Collected) × (metric_phase svc false collect (record s { metric_items = ps })
            ≡ returned c)
    by_items [] =
        (record { state = record s { metric_items = [] }; snapshots = 0; diagnostics = [] }, refl)
    by_items (p ∷ ps) =
        let m = metrics_or_errors svc (p ∷ ps) (collect (p ∷ ps)) in
        let (t, a) =
          collect_metrics-total m.items (p ∷ ps) (record s { metric_items = p ∷ ps })
            (metrics_or_errors-Has svc collect (p ∷ ps) covers) in
        (record { state = t; snapshots = m.snapshots; diagnostics = m.diagnostics }, rw a refl)

-- Without fail-fast a collection comes to the artifact that it assembles, whatever the adapter, the
-- host and the files do and whether or not the metric collection raises: it returns that artifact, or
-- raises what the validation of that artifact says. Where the metric collection returns, it must
-- return an item for each metric item that it is given.
pub collection_total :
    (svc : Services) (content : Content) (collect : List PlannedItem → Call Metrics)
    (plan : ExecutionPlan) (strip_meta : Bool)
    → Covers collect
    → (s : State) × (c : Collected) × (collect_all svc content false plan.items start ≡ returned s)
      × (metric_phase svc false collect s ≡ returned c)
      × (collect_target svc content false collect plan strip_meta
          ≡ elim (validate_artifact (assemble plan strip_meta c)) [
            | ok done ↦ returned (assemble plan strip_meta c)
            | err e ↦ raised (exception "ChDiagError" "validate_artifact")
          ])
unfolding collect_target
collection_total svc content collect plan strip_meta covers =
    let (s, a) = collect_all-total svc content plan.items start in
    let (c, b) = metric_phase-total svc collect s covers in
    (s, c, a, b, rw (a, b) (by_validation c (validate_artifact (assemble plan strip_meta c))))
  where
    by_validation :
        (c : Collected) (r : Result (Unit {0}))
        → validated (assemble plan strip_meta c) r ≡ elim r as (λ _. Call Artifact) [
          | ok done ↦ returned (assemble plan strip_meta c)
          | err e ↦ raised (exception "ChDiagError" "validate_artifact")
        ]
    by_validation c (ok done) = refl
    by_validation c (err e) = refl
