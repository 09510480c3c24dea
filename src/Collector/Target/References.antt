-- ===== src/Collector/Target/References.antt =====
-- Every item of a plan ends in the artifact or among the omitted items, so that the sections of the
-- artifact name just its items.
use mathlib.Core.Logic.{inl, inr}
use ch_diag.Artifact.{CollectedItem, keys}
use ch_diag.Artifact.Finish.{drop_items, retain_sections}
use ch_diag.Artifact.Omit.{
  elem-keys-drop_items, elem-keys-put_item, keys-strip_items, listed-retain_sections,
}
use ch_diag.Artifact.Validate.{IsReferenced, IsReferenced-of}
use ch_diag.Collector.Fallback.{execute_item_safely}
use ch_diag.Collector.Services.{>>=-eq-returned, Call, Services, or_key_error, returned}
use ch_diag.Collector.Target.{
  Collected, Metrics, State, assemble, collect_all, collect_metrics, collect_planned, is_planned,
  metric_phase, metrics_or_errors, omit, raise_if_fail_fast, record_item, start, store,
}
use ch_diag.Content.{Content, Row, find_key, iter_report_items}
use ch_diag.Planner.Build.{ExecutionPlan, build_plan}
use ch_diag.Planner.Build.Items.{ids}
use ch_diag.Planner.Build.Sections.{Distinct, build_plan-listed}
use ch_diag.Planner.Build.Listing.{listed}
use ch_diag.Planner.Build.Selection.{build_plan-kept}
use ch_diag.Planner.Filters.{available_item_ids, is_selected}
use ch_diag.Planner.Plan.{PlannedItem}
use ch_diag.Planner.Requirements.{CollectionMode, RunMode, Scope, is_metric}
use ch_diag.Prelude.{
  Bool, List, Option, String, [], ap, arith, false, map, map-append, not, refl, subst, sym, true,
  ◌&&◌, ◌++◌, ◌==◌, ◌||◌, ◌∙◌, ◌∷◌, ◌≡◌,
}
use ch_diag.Prelude.Lists.{Uniq, elem, keep, keep-cons, keep-skip}
use ch_diag.Prelude.Names.{Uniq-keep, elem-append, elem-keep}
use ch_diag.Prelude.Results.{ok}
use ch_diag.Prelude.Tests.{Bool-cases}
use ch_diag.Versioning.{Version}

-- the item `x` has been dealt with
abbrev settled : String → State → Bool
settled x s = elem x (keys s.items) || elem x s.omitted

-- or it waits among the metric items
abbrev known : String → State → Bool
known x s = settled x s || elem x (ids s.metric_items)

module _ (x : String) (fail_fast : Bool) where
  record_item-settled :
      (id : String) (i : CollectedItem) (s t : State)
      → record_item fail_fast id i s ≡ returned t
      → (settled x t ≡ (settled x s || id == x)) × (t.metric_items ≡ s.metric_items)
  unfolding record_item omit store
  record_item-settled id i s t h = elim (Bool-cases (i.collection_status == "unsupported")) [
    | inl e ↦
        let r : omit id "unsupported" s ≡ t = cc (rw e at h) in
        subst (λ u. (settled x u ≡ (settled x s || id == x)) × (u.metric_items ≡ s.metric_items)) r
          (ground (arith, elem-append x s.omitted (id ∷ [])), refl)
    | inr e ↦
        let (_, _, done) = >>=-eq-returned (raise_if_fail_fast fail_fast i) _ (rw e at h) in
        let r : store id i s ≡ t = cc done in
        subst (λ u. (settled x u ≡ (settled x s || id == x)) × (u.metric_items ≡ s.metric_items)) r
          (ground (arith, elem-keys-put_item x id i s.items), refl)
  ]

  collect_planned-known :
      (svc : Services) (content : Content) (p : PlannedItem) (s t : State)
      → collect_planned svc content fail_fast p s ≡ returned t
      → known x t ≡ (known x s || p.plan.item_id == x)
  unfolding collect_planned omit
  collect_planned-known svc content p s t h = elim (Bool-cases (not (is_planned p.plan.status))) [
    | inl e ↦
        let r : omit p.plan.item_id "skipped" s ≡ t = cc (rw e at h) in
        subst (λ u. known x u ≡ (known x s || p.plan.item_id == x)) r
          (ground (arith, elem-append x s.omitted (p.plan.item_id ∷ [])))
    | inr e ↦ elim (Bool-cases (is_metric p.plan.source_kind)) [
      | inl k ↦
          let r : record s { metric_items = s.metric_items ++ (p ∷ []) } ≡ t =
            cc (rw (e, k) at h) in
          subst (λ u. known x u ≡ (known x s || p.plan.item_id == x)) r
            (ground (
              arith,
              ap (elem x)
                  (map-append (λ (q : PlannedItem). q.plan.item_id) s.metric_items (p ∷ [])),
              elem-append x (ids s.metric_items) (p.plan.item_id ∷ []),
            ))
      | inr k ↦
          let (a, b) =
            record_item-settled p.plan.item_id (execute_item_safely svc content p) s t
              (rw (e, k) at h) in
          ground (arith, a, ap ids b)
    ]
  ]

  collect_all-known :
      (svc : Services) (content : Content) (ps : List PlannedItem) (s t : State)
      → collect_all svc content fail_fast ps s ≡ returned t
      → known x t ≡ (known x s || elem x (ids ps))
  unfolding collect_all
  collect_all-known svc content [] s t h =
      subst (λ u. known x u ≡ (known x s || false)) (let r : s ≡ t = cc h in r) (ground arith)
  collect_all-known svc content (p ∷ ps) s t h =
      let (u, a, b) = >>=-eq-returned (collect_planned svc content fail_fast p s) _ h in
      ground
        (arith, collect_planned-known svc content p s u a, collect_all-known svc content ps u t b)

  collect_metrics-settled :
      (collected : List (String × CollectedItem)) (ps : List PlannedItem) (s t : State)
      → collect_metrics fail_fast collected ps s ≡ returned t
      → settled x t ≡ (settled x s || elem x (ids ps))
  unfolding collect_metrics
  collect_metrics-settled collected [] s t h =
      subst (λ u. settled x u ≡ (settled x s || false)) (let r : s ≡ t = cc h in r) (ground arith)
  collect_metrics-settled collected (p ∷ ps) s t h =
      let (i, _, h') =
        >>=-eq-returned (or_key_error p.plan.item_id (find_key p.plan.item_id collected)) _ h in
      let (u, a, b) = >>=-eq-returned (record_item fail_fast p.plan.item_id i s) _ h' in
      ground (
        arith,
        (record_item-settled p.plan.item_id i s u a).0,
        collect_metrics-settled collected ps u t b,
      )

  metric_phase-settled :
      (svc : Services) (collect : List PlannedItem → Call Metrics) (s : State) (c : Collected)
      → metric_phase svc fail_fast collect s ≡ returned c
      → settled x c.state ≡ known x s
  unfolding metric_phase
  metric_phase-settled svc collect s c h = by_items s.metric_items refl
    where
      by_items : (ps : List PlannedItem) → s.metric_items ≡ ps → settled x c.state ≡ known x s
      by_items [] e =
          let r : record { state = s; snapshots = 0; diagnostics = [] } ≡ c =
            cc (rw (e, metric_phase) at h) in
          subst (λ d. settled x d.state ≡ known x s) r
            (ground (arith, ap (λ (qs : List PlannedItem). elem x (ids qs)) e))
      by_items (p ∷ ps) e =
          let m = metrics_or_errors svc (p ∷ ps) (collect (p ∷ ps)) in
          let (u, a, b) =
            >>=-eq-returned (collect_metrics fail_fast m.items (p ∷ ps) s) _
              (rw (e, metric_phase) at h) in
          let r : record { state = u; snapshots = m.snapshots; diagnostics = m.diagnostics } ≡ c =
            cc b in
          subst (λ d. settled x d.state ≡ known x s) r
            (ground (
              arith,
              collect_metrics-settled m.items (p ∷ ps) s u a,
              ap (λ (qs : List PlannedItem). elem x (ids qs)) e,
            ))

keys-assemble :
    (plan : ExecutionPlan) (strip_meta : Bool) (c : Collected)
    → (keys (assemble plan strip_meta c).items ≡ keys (drop_items c.state.omitted c.state.items))
      × ((assemble plan strip_meta c).sections ≡ retain_sections c.state.omitted plan.sections)
unfolding assemble
keys-assemble plan true c = (keys-strip_items _, refl)
keys-assemble plan false c = (refl, refl)

-- Where the sections of a plan list its items and no item twice, the references of the artifact
-- hold, whatever the items' outcomes.
assemble-IsReferenced :
    (svc : Services) (content : Content) (fail_fast strip_meta : Bool)
    (collect : List PlannedItem → Call Metrics) (plan : ExecutionPlan) (s : State) (c : Collected)
    → listed plan.sections ≡ ids plan.items
    → Uniq (ids plan.items)
    → collect_all svc content fail_fast plan.items start ≡ returned s
    → metric_phase svc fail_fast collect s ≡ returned c
    → IsReferenced (assemble plan strip_meta c)
assemble-IsReferenced svc content fail_fast strip_meta collect plan s c lists u all phase =
    let (ks, secs) = keys-assemble plan strip_meta c in
    let names : listed (assemble plan strip_meta c).sections
        ≡ keep (λ id. not (elem id c.state.omitted)) (ids plan.items) =
      ap listed secs
      ∙ listed-retain_sections c.state.omitted plan.sections
      ∙ ap (keep (λ id. not (elem id c.state.omitted))) lists in
    IsReferenced-of (assemble plan strip_meta c)
      (subst Uniq (sym names) (Uniq-keep (λ id. not (elem id c.state.omitted)) (ids plan.items) u))
      (λ x.
        ap (elem x) names
        ∙ elem-keep x (λ id. not (elem id c.state.omitted)) (ids plan.items)
        ∙ covered x (metric_phase-settled x fail_fast svc collect s c phase)
            (collect_all-known x fail_fast svc content plan.items start s all)
        ∙ sym (elem-keys-drop_items x c.state.omitted c.state.items)
        ∙ ap (elem x) (sym ks))
  where
    covered :
        (x : String)
        → settled x c.state ≡ known x s
        → known x s ≡ (known x start || elem x (ids plan.items))
        → (elem x (ids plan.items) && not (elem x c.state.omitted))
          ≡ (elem x (keys c.state.items) && not (elem x c.state.omitted))
    covered x a b = ground arith

Uniq-map-keep :
    (p : Row → Bool) (rows : List Row)
    → Uniq (map (λ (r : Row). r.item_id) rows)
    → Uniq (map (λ (r : Row). r.item_id) (keep p rows))
Uniq-map-keep p [] u = tt
Uniq-map-keep p (r ∷ rows) u = elim (Bool-cases (p r)) [
  | inl e ↦
      subst (λ rs. Uniq (map (λ (q : Row). q.item_id) rs)) (sym (keep-cons p r rows e))
        (absent rows u.0, Uniq-map-keep p rows u.1)
  | inr e ↦
      subst (λ rs. Uniq (map (λ (q : Row). q.item_id) rs)) (sym (keep-skip p r rows e))
        (Uniq-map-keep p rows u.1)
]
  where
    absent :
        (rs : List Row)
        → elem r.item_id (map (λ (q : Row). q.item_id) rs) ≡ false
        → elem r.item_id (map (λ (q : Row). q.item_id) (keep p rs)) ≡ false
    absent [] h = refl
    absent (q ∷ rs) h = ground (arith, absent rs)

-- For a report with distinct section keys and item ids, the artifact that a collection assembles
-- from a plan of `build_plan` passes the reference checks of `validate_artifact`, whatever the
-- items' outcomes, exceptions, fallbacks and omissions: its sections name exactly its items, each
-- once.
pub collect_target-IsReferenced :
    (svc : Services) (content : Content) (fail_fast strip_meta : Bool)
    (collect : List PlannedItem → Call Metrics) (v : Option Version) (mode : RunMode)
    (cmode : CollectionMode) (scope : Scope) (item_ids tags : Option (List String))
    (plan : ExecutionPlan) (s : State) (c : Collected)
    → Distinct content.sections
    → Uniq (available_item_ids content)
    → build_plan content v mode cmode scope item_ids tags ≡ ok plan
    → collect_all svc content fail_fast plan.items start ≡ returned s
    → metric_phase svc fail_fast collect s ≡ returned c
    → IsReferenced (assemble plan strip_meta c)
unfolding available_item_ids
collect_target-IsReferenced svc content fail_fast strip_meta collect v mode cmode scope item_ids
      tags plan s c distinct unique built all phase =
    let (f, _, named) = build_plan-kept content v mode cmode scope item_ids tags plan built in
    assemble-IsReferenced svc content fail_fast strip_meta collect plan s c
      (build_plan-listed content v mode cmode scope item_ids tags plan distinct built)
      (subst Uniq (sym named) (Uniq-map-keep (is_selected f) (iter_report_items content) unique))
      all phase
