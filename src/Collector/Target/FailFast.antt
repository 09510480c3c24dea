-- ===== src/Collector/Target/FailFast.antt =====
-- Progress events and fail-fast.
use ch_diag.Artifact.{CollectedItem, is_failed, put_item}
use ch_diag.Collector.Fallback.{execute_item_safely}
use ch_diag.Collector.Services.{>>=-eq-returned, Call, Services, or_key_error, returned}
use ch_diag.Collector.Target.{
  ProgressEvent, Collected, Metrics, State, collect_all, collect_metrics, collect_planned,
  is_planned, metric_phase, metrics_or_errors, omit, raise_if_fail_fast, record_item, start, store,
}
use ch_diag.Content.{Content, find_key}
use ch_diag.Planner.Build.{ExecutionPlan}
use ch_diag.Planner.Plan.{PlannedItem}
use ch_diag.Planner.Requirements.{is_metric}
use ch_diag.Prelude.{
  append-nil, append_assoc, map, map-append, sym, ap₂, ◌∙◌, ◌&&◌, Bool, List, String, [], ap, false,
  inl, inr, not, refl, subst, true, ◌++◌, ◌==◌, ◌∷◌, ◌≡◌,
}
use ch_diag.Prelude.Lists.{All, keep}
use ch_diag.Prelude.Tests.{Bool-cases, if◌then◌else◌}
use ch_diag.Planner.Build.Items.{ids}

pub record_item-total :
    (id : String) (i : CollectedItem) (s : State)
    → (t : State) × (record_item false id i s ≡ returned t)
unfolding record_item raise_if_fail_fast
record_item-total id i s = elim (Bool-cases (i.collection_status == "unsupported")) [
  | inl e ↦ (omit id "unsupported" s, rw e)
  | inr e ↦ (store id i s, rw e)
]

collect_planned-total :
    (svc : Services) (content : Content) (p : PlannedItem) (s : State)
    → (t : State) × (collect_planned svc content false p s ≡ returned t)
unfolding collect_planned
collect_planned-total svc content p s = elim (Bool-cases (not (is_planned p.plan.status))) [
  | inl e ↦ (omit p.plan.item_id "skipped" s, rw e)
  | inr e ↦ elim (Bool-cases (is_metric p.plan.source_kind)) [
    | inl k ↦ (record s { metric_items = s.metric_items ++ (p ∷ []) }, rw (e, k))
    | inr k ↦
        let (t, r) = record_item-total p.plan.item_id (execute_item_safely svc content p) s in
        (t, rw (e, k) r)
  ]
]

-- Without fail-fast the loop over the plan never raises: whatever the adapter, the host and the
-- files do, each exception of an item becomes an error item and the loop ends.
pub collect_all-total :
    (svc : Services) (content : Content) (ps : List PlannedItem) (s : State)
    → (t : State) × (collect_all svc content false ps s ≡ returned t)
unfolding collect_all
collect_all-total svc content [] s = (s, refl)
collect_all-total svc content (p ∷ ps) s =
    let (u, a) = collect_planned-total svc content p s in
    let (t, b) = collect_all-total svc content ps u in (t, rw a b)

-- the item ids of the progress events
abbrev pub reported : State → List String
reported s = map (λ (e : ProgressEvent). e.item_id) s.events

-- an item of the plan that waits for the metric phase
abbrev pub waits : PlannedItem → Bool
waits p = is_planned p.plan.status && is_metric p.plan.source_kind

module _ (fail_fast : Bool) where
  -- from `s` to `t`, these ids are reported and these items are left for the metric phase
  abbrev Reports : List String → List PlannedItem → State → State → Type 0
  Reports names ps s t =
      (reported t ≡ reported s ++ names) × (t.metric_items ≡ s.metric_items ++ ps)

  record_item-Reports :
      (id : String) (i : CollectedItem) (s t : State)
      → record_item fail_fast id i s ≡ returned t
      → Reports (id ∷ []) [] s t
  unfolding record_item omit store
  record_item-Reports id i s t h = elim (Bool-cases (i.collection_status == "unsupported")) [
    | inl e ↦
        let r : omit id "unsupported" s ≡ t = cc (rw e at h) in
        subst (Reports (id ∷ []) [] s) r (
          map-append (λ (x : ProgressEvent). x.item_id) s.events _,
          sym (append-nil s.metric_items),
        )
    | inr e ↦
        let (_, _, done) = >>=-eq-returned (raise_if_fail_fast fail_fast i) _ (rw e at h) in
        let r : store id i s ≡ t = cc done in
        subst (Reports (id ∷ []) [] s) r (
          map-append (λ (x : ProgressEvent). x.item_id) s.events _,
          sym (append-nil s.metric_items),
        )
  ]

  -- what the loop over the plan reports of an item, and what it leaves
  abbrev now : PlannedItem → List String
  now p = if waits p then [] else p.plan.item_id ∷ []

  abbrev later : PlannedItem → List PlannedItem
  later p = if waits p then p ∷ [] else []

  collect_planned-Reports :
      (svc : Services) (content : Content) (p : PlannedItem) (s t : State)
      → collect_planned svc content fail_fast p s ≡ returned t
      → Reports (now p) (later p) s t
  unfolding collect_planned omit
  collect_planned-Reports svc content p s t h = elim (Bool-cases (is_planned p.plan.status)) [
    | inr e ↦
        let r : omit p.plan.item_id "skipped" s ≡ t = cc (rw e at h) in
        rw e (
          subst (Reports (p.plan.item_id ∷ []) [] s) r (
            map-append (λ (x : ProgressEvent). x.item_id) s.events _,
            sym (append-nil s.metric_items),
          ))
    | inl e ↦ elim (Bool-cases (is_metric p.plan.source_kind)) [
      | inl k ↦
          let r : record s { metric_items = s.metric_items ++ (p ∷ []) } ≡ t =
            cc (rw (e, k) at h) in
          rw (e, k) (subst (Reports [] (p ∷ []) s) r (sym (append-nil (reported s)), refl))
      | inr k ↦
          rw (e, k)
            (record_item-Reports p.plan.item_id (execute_item_safely svc content p) s t
              (rw (e, k) at h))
    ]
  ]

  now-ids :
      (p : PlannedItem) (ps : List PlannedItem)
      → now p ++ ids (keep (λ q. not (waits q)) ps) ≡ ids (keep (λ q. not (waits q)) (p ∷ ps))
  now-ids p ps = elim (Bool-cases (is_planned p.plan.status)) [
    | inr e ↦ rw e refl
    | inl e ↦ elim (Bool-cases (is_metric p.plan.source_kind)) [
      | inl k ↦ rw (e, k) refl
      | inr k ↦ rw (e, k) refl
    ]
  ]

  later-waits :
      (p : PlannedItem) (ps : List PlannedItem) → later p ++ keep waits ps ≡ keep waits (p ∷ ps)
  later-waits p ps = elim (Bool-cases (is_planned p.plan.status)) [
    | inr e ↦ rw e refl
    | inl e ↦ elim (Bool-cases (is_metric p.plan.source_kind)) [
      | inl k ↦ rw (e, k) refl
      | inr k ↦ rw (e, k) refl
    ]
  ]

  Reports-trans :
      (xs ys : List String) (ps qs : List PlannedItem) (s t u : State)
      → Reports xs ps s t
      → Reports ys qs t u
      → Reports (xs ++ ys) (ps ++ qs) s u
  Reports-trans xs ys ps qs s t u (a, b) (c, d) = (
    c ∙ ap (λ (z : List String). z ++ ys) a ∙ append_assoc (reported s) xs ys,
    d ∙ ap (λ (z : List PlannedItem). z ++ qs) b ∙ append_assoc s.metric_items ps qs,
  )

  collect_all-Reports :
      (svc : Services) (content : Content) (ps : List PlannedItem) (s t : State)
      → collect_all svc content fail_fast ps s ≡ returned t
      → Reports (ids (keep (λ p. not (waits p)) ps)) (keep waits ps) s t
  unfolding collect_all
  collect_all-Reports svc content [] s t h =
      subst (Reports [] [] s) (let r : s ≡ t = cc h in r)
        (sym (append-nil (reported s)), sym (append-nil s.metric_items))
  collect_all-Reports svc content (p ∷ ps) s t h =
      let (u, a, b) = >>=-eq-returned (collect_planned svc content fail_fast p s) _ h in
      let r =
        Reports-trans (now p) _ (later p) _ s u t (collect_planned-Reports svc content p s u a)
          (collect_all-Reports svc content ps u t b) in
      (
        r.0 ∙ ap (λ (z : List String). reported s ++ z) (now-ids p ps),
        r.1 ∙ ap (λ (z : List PlannedItem). s.metric_items ++ z) (later-waits p ps),
      )

  collect_metrics-Reports :
      (collected : List (String × CollectedItem)) (ps : List PlannedItem) (s t : State)
      → collect_metrics fail_fast collected ps s ≡ returned t
      → reported t ≡ reported s ++ ids ps
  unfolding collect_metrics
  collect_metrics-Reports collected [] s t h =
      subst (λ u. reported u ≡ reported s ++ []) (let r : s ≡ t = cc h in r)
        (sym (append-nil (reported s)))
  collect_metrics-Reports collected (p ∷ ps) s t h =
      let (i, _, h') =
        >>=-eq-returned (or_key_error p.plan.item_id (find_key p.plan.item_id collected)) _ h in
      let (u, a, b) = >>=-eq-returned (record_item fail_fast p.plan.item_id i s) _ h' in
      collect_metrics-Reports collected ps u t b
      ∙ ap (λ (z : List String). z ++ ids ps) (record_item-Reports p.plan.item_id i s u a).0
      ∙ append_assoc (reported s) (p.plan.item_id ∷ []) (ids ps)

  metric_phase-Reports :
      (svc : Services) (collect : List PlannedItem → Call Metrics) (s : State) (c : Collected)
      → metric_phase svc fail_fast collect s ≡ returned c
      → reported c.state ≡ reported s ++ ids s.metric_items
  unfolding metric_phase
  metric_phase-Reports svc collect s c h = by_items s.metric_items refl
    where
      by_items :
          (ps : List PlannedItem)
          → s.metric_items ≡ ps
          → reported c.state ≡ reported s ++ ids s.metric_items
      by_items [] e =
          let r : record { state = s; snapshots = 0; diagnostics = [] } ≡ c =
            cc (rw (e, metric_phase) at h) in
          subst (λ d. reported d.state ≡ reported s ++ ids s.metric_items) r
            (rw e (sym (append-nil (reported s))))
      by_items (p ∷ ps) e =
          let m = metrics_or_errors svc (p ∷ ps) (collect (p ∷ ps)) in
          let (u, a, b) =
            >>=-eq-returned (collect_metrics fail_fast m.items (p ∷ ps) s) _
              (rw (e, metric_phase) at h) in
          let r : record { state = u; snapshots = m.snapshots; diagnostics = m.diagnostics } ≡ c =
            cc b in
          subst (λ d. reported d.state ≡ reported s ++ ids s.metric_items) r
            (rw e (collect_metrics-Reports m.items (p ∷ ps) s u a))

-- A collection that is not stopped reports the progress of each item of its plan once: first of those
-- that are skipped or are no metrics, in the order of the plan, and then of the metrics that are
-- scheduled, in that order.
pub progress_complete :
    (svc : Services) (content : Content) (fail_fast : Bool)
    (collect : List PlannedItem → Call Metrics) (plan : ExecutionPlan) (s : State) (c : Collected)
    → collect_all svc content fail_fast plan.items start ≡ returned s
    → metric_phase svc fail_fast collect s ≡ returned c
    → map (λ (e : ProgressEvent). e.item_id) c.state.events
      ≡ ids (keep (λ p. not (waits p)) plan.items) ++ ids (keep waits plan.items)
progress_complete svc content fail_fast collect plan s c all phase =
    let (names, metrics) = collect_all-Reports fail_fast svc content plan.items start s all in
    metric_phase-Reports fail_fast svc collect s c phase
    ∙ ap₂ (λ (x : List String) (y : List PlannedItem). x ++ ids y) names metrics

-- no item of the state failed
abbrev pub NoneFailed : State → Type 0
NoneFailed s = All (λ e. is_failed e.1 ≡ false) s.items

put_item-All :
    (id : String) (i : CollectedItem) (items : List (String × CollectedItem))
    → is_failed i ≡ false
    → All (λ e. is_failed e.1 ≡ false) items
    → All (λ e. is_failed e.1 ≡ false) (put_item id i items)
unfolding put_item
put_item-All id i [] f a = (f, tt)
put_item-All id i ((j, old) ∷ rest) f a = elim (Bool-cases (j == id)) [
  | inl e ↦ rw e (f, a.1)
  | inr e ↦ rw e (a.0, put_item-All id i rest f a.1)
]

record_item-NoneFailed :
    (id : String) (i : CollectedItem) (s t : State)
    → record_item true id i s ≡ returned t
    → NoneFailed s
    → NoneFailed t
unfolding record_item omit store raise_if_fail_fast
record_item-NoneFailed id i s t h a = elim (Bool-cases (i.collection_status == "unsupported")) [
  | inl e ↦ let r : omit id "unsupported" s ≡ t = cc (rw e at h) in subst NoneFailed r a
  | inr e ↦ elim (Bool-cases (is_failed i)) [
    | inl f ↦ absurd (let x : ⊥ = cc (rw (e, f) at h) in x)
    | inr f ↦
        let r : store id i s ≡ t = cc (rw (e, f) at h) in
        subst NoneFailed r (put_item-All id i s.items f a)
  ]
]

-- With fail-fast a loop over the plan that starts with no failed item and returns ends with none.
pub collect_all-NoneFailed :
    (svc : Services) (content : Content) (ps : List PlannedItem) (s t : State)
    → NoneFailed s
    → collect_all svc content true ps s ≡ returned t
    → NoneFailed t
unfolding collect_all collect_planned omit
collect_all-NoneFailed svc content [] s t a h = subst NoneFailed (let r : s ≡ t = cc h in r) a
collect_all-NoneFailed svc content (p ∷ ps) s t a h =
    let (u, b, c) = >>=-eq-returned (collect_planned svc content true p s) _ h in
    collect_all-NoneFailed svc content ps u t (step u b) c
  where
    step : (u : State) → collect_planned svc content true p s ≡ returned u → NoneFailed u
    step u b = elim (Bool-cases (not (is_planned p.plan.status))) [
      | inl e ↦ let r : omit p.plan.item_id "skipped" s ≡ u = cc (rw e at b) in subst NoneFailed r a
      | inr e ↦ elim (Bool-cases (is_metric p.plan.source_kind)) [
        | inl k ↦
            let r : record s { metric_items = s.metric_items ++ (p ∷ []) } ≡ u =
              cc (rw (e, k) at b) in
            subst NoneFailed r a
        | inr k ↦
            record_item-NoneFailed p.plan.item_id (execute_item_safely svc content p) s u
              (rw (e, k) at b) a
      ]
    ]
