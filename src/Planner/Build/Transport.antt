-- ===== src/Planner/Build/Transport.antt =====
-- The transports that the collector opens are those that the planned items use.
use ch_diag.Content.{Content, Metric, Row, at_key, iter_report_items}
use ch_diag.Planner.Build.{
  ExecutionPlan, build_plan, expand_item, is_filtered, plan_rows, shown_items, source_outcome,
}
use ch_diag.Planner.Build.Items.{
  IsPlanOf, build_plan-parts, ids, plan_row-IsPlanOf, plan_rows-cons, plan_rows-skip,
}
use ch_diag.Planner.Build.Sources.{at_key-All, metric_case, script_case}
use ch_diag.Planner.Filters.{Filters, is_selected, selected_filters}
use ch_diag.Planner.Plan.{Outcome, Planned, PlannedItem, metric_result, planned}
use ch_diag.Planner.Requirements.{
  CollectionMode, Requirements, RunMode, Scope, SourceKind, Target, add_row, cluster,
  collection_requirements, database, host, is_skipped, metric, metric_target, node, query,
  requires_database, requires_host, resolution_item, row_requirements, rows_requirements, script,
  source_target,
}
use ch_diag.Prelude.{
  Bool, List, Option, String, [], ap, arith, false, inl, inr, map, none, refl, some, subst, sym,
  true, ◌==◌, ◌∙◌, ◌∷◌, ◌≡◌,
}
use ch_diag.Prelude.Lists.{All, All-mono}
use ch_diag.Prelude.Results.{>>=-eq-ok, ok}
use ch_diag.Prelude.Tests.{Bool-cases, if◌then◌else◌}
use ch_diag.Versioning.{Version}

-- a metric names a sampler or a query
abbrev pub HasSource : Metric → Type 0
HasSource m = (m.source_sampler == "") ≡ true → (m.source_query == "") ≡ false

abbrev pub MetricsHaveSources : Content → Type 0
MetricsHaveSources content = All (λ e. HasSource e.1) content.metrics

unfoldable pub requires : Target → Requirements → Bool
unfolding requires_host requires_database
requires host r = requires_host r
requires database r = requires_database r

module _ (content : Content) (mode : RunMode) (cmode : CollectionMode) (scope : Scope) where
  metric_runs :
      (m : Metric) (t : Target) (o : Outcome)
      → HasSource m
      → metric_target m ≡ t
      → metric_result mode cmode m ≡ o
      → o.status ≡ planned
      → is_skipped mode cmode metric t ≡ false
  unfolding is_skipped metric_target
  metric_runs m t o has e d hs = ground arith

  skip_of_outcome :
      (v : Option Version) (kind : SourceKind) (id : String) (t : Target) (o : Outcome)
      → MetricsHaveSources content
      → source_target content kind id ≡ ok t
      → source_outcome content v mode cmode scope kind id ≡ ok o
      → o.status ≡ planned
      → is_skipped mode cmode kind t ≡ false
  unfolding source_target source_outcome is_skipped
  skip_of_outcome v query id t o valid ht ho hs = ground arith
  skip_of_outcome v script id t o valid ht ho hs =
      let (m, a, b) =
        >>=-eq-ok (at_key id content.scripts) _ (script_case content v mode cmode scope id o ho) in
      ground arith
  skip_of_outcome v metric id t o valid ht ho hs =
      let (m, a, b) = >>=-eq-ok (at_key id content.metrics) _ ht in
      let (n, c, d) =
        >>=-eq-ok (at_key id content.metrics) _ (metric_case content v mode cmode scope id o ho) in
      let has = at_key-All HasSource id content.metrics m a valid in
      metric_runs m t o has (cc b) (cc (c, a, d)) hs

  -- a row whose item is planned contributes its target
  row_requirements-planned :
      (v : Option Version) (r : Row) (p : Planned)
      → MetricsHaveSources content
      → IsPlanOf content v mode cmode scope r p
      → p.status ≡ planned
      → row_requirements content mode cmode r ≡ ok (some p.target)
  unfolding row_requirements
  row_requirements-planned v r p valid i hs =
      rw (i.source, i.target)
        (ap (λ (b : Bool). ok (if b then none else some p.target))
          (skip_of_outcome v p.source_kind p.source_id p.target i.outcome valid i.target i.decided
            (sym i.status ∙ hs)))

  module _ (f : Filters) (r : Row) (rows : List Row) (q : Requirements)
      (h : rows_requirements content mode cmode f (r ∷ rows) ≡ ok q) where
    rows_requirements-cons :
        is_selected f r ≡ true
        → (t : Option Target) × (rest : Requirements) × (row_requirements content mode cmode r
            ≡ ok t)
          × (rows_requirements content mode cmode f rows ≡ ok rest)
          × (add_row t r.item_id rest ≡ q)
    unfolding rows_requirements
    rows_requirements-cons e =
        let (t, a, h') = >>=-eq-ok (row_requirements content mode cmode r) _ (rw e at h) in
        let (rest, b, c) = >>=-eq-ok (rows_requirements content mode cmode f rows) _ h' in
        (t, rest, a, b, cc c)

    rows_requirements-skip :
        is_selected f r ≡ false → rows_requirements content mode cmode f rows ≡ ok q
    unfolding rows_requirements
    rows_requirements-skip e = rw e at h

  requires-add_row :
      (t : Target) (o : Option Target) (id : String) (q : Requirements)
      → requires t q ≡ true
      → requires t (add_row o id q) ≡ true
  unfolding requires add_row
  requires-add_row host none id q h = h
  requires-add_row host (some host) id q h = refl
  requires-add_row host (some database) id q h = h
  requires-add_row database none id q h = h
  requires-add_row database (some host) id q h = h
  requires-add_row database (some database) id q h = refl

  requires-add_row_self :
      (t : Target) (id : String) (q : Requirements) → requires t (add_row (some t) id q) ≡ true
  unfolding requires add_row
  requires-add_row_self host id q = refl
  requires-add_row_self database id q = refl

  requires-resolution_item :
      (t : Target) (q : Requirements)
      → requires t q ≡ true
      → requires t (resolution_item scope q) ≡ true
  unfolding requires resolution_item
  requires-resolution_item t q h = resolved t scope q h
    where
      resolved :
          (t : Target) (s : Scope) (q : Requirements)
          → requires t q ≡ true
          → requires t (resolution_item s q) ≡ true
      resolved host node q h = h
      resolved database node q h = h
      resolved host cluster q h = ground arith
      resolved database cluster q h = ground arith

  -- What a planned item needs is required.
  abbrev Served : Requirements → PlannedItem → Type 0
  Served q p = p.plan.status ≡ planned → requires p.plan.target q ≡ true

  All-shown_items :
      (q : Requirements) (f : Filters) (ps : List PlannedItem)
      → All (Served q) ps
      → All (Served q) (shown_items f ps)
  unfolding shown_items
  All-shown_items q f ps a = elim (Bool-cases (is_filtered f)) [
    | inl e ↦
        subst (λ b. All (Served q) (if b then map expand_item ps else ps)) (sym e) (expanded ps a)
    | inr e ↦ subst (λ b. All (Served q) (if b then map expand_item ps else ps)) (sym e) a
  ]
    where
      expanded : (ps : List PlannedItem) → All (Served q) ps → All (Served q) (map expand_item ps)
      expanded [] a = tt
      expanded (p ∷ ps) a = (a.0, expanded ps a.1)

  Served-add_row :
      (o : Option Target) (id : String) (q : Requirements) (ps : List PlannedItem)
      → All (Served q) ps
      → All (Served (add_row o id q)) ps
  Served-add_row o id q ps =
      All-mono (Served q) (Served (add_row o id q)) ps
        (λ p s planned. requires-add_row p.plan.target o id q (s planned))

  rows-Served :
      (v : Option Version) (f : Filters) (rows : List Row) (ps : List PlannedItem)
      (q : Requirements)
      → MetricsHaveSources content
      → plan_rows content v mode cmode scope f rows ≡ ok ps
      → rows_requirements content mode cmode f rows ≡ ok q
      → All (Served q) ps
  rows-Served v f [] ps q valid h k = subst (All (Served q)) {x = []} (unfold plan_rows in cc h) tt
  rows-Served v f (r ∷ rows) ps q valid h k = elim (Bool-cases (is_selected f r)) [
    | inl e ↦
        let (p, rest, a, b, c) = plan_rows-cons content v mode cmode scope f r rows ps h e in
        let (t, others, a', b', c') = rows_requirements-cons f r rows q k e in
        let ih = rows-Served v f rows rest others valid b b' in
        subst (All (Served q)) c (
          subst (λ u. All (Served u) (p ∷ rest)) c'
            (
              λ hs.
                  let i = plan_row-IsPlanOf content v mode cmode scope r p a in
                  let e' : some p.plan.target ≡ t =
                    cc (row_requirements-planned v r p.plan valid i hs, a') in
                  subst (λ u. requires p.plan.target (add_row u r.item_id others) ≡ true) e'
                    (requires-add_row_self p.plan.target r.item_id others),
              Served-add_row t r.item_id others rest ih,
            ))
    | inr e ↦
        rows-Served v f rows ps q valid (plan_rows-skip content v mode cmode scope f r rows ps h e)
          (rows_requirements-skip f r rows q k e)
  ]

-- Where the metrics of the content name a sampler or a query, and the requirements of the collector
-- are computed from the same content, modes and filters as the plan, every item of the plan with the
-- status "planned" has its target among the required ones.
pub build_plan-Served :
    (content : Content) (v : Option Version) (mode : RunMode) (cmode : CollectionMode)
    (scope : Scope) (ids tags : Option (List String)) (plan : ExecutionPlan) (q : Requirements)
    → MetricsHaveSources content
    → build_plan content v mode cmode scope ids tags ≡ ok plan
    → collection_requirements content mode cmode scope ids tags ≡ ok q
    → All (λ p. p.plan.status ≡ planned → requires p.plan.target q ≡ true) plan.items
unfolding collection_requirements
build_plan-Served content v mode cmode scope ids tags plan q valid h k =
    let b = build_plan-parts content v mode cmode scope ids tags plan h in
    let (f, sel, k') = >>=-eq-ok (selected_filters content ids tags) _ k in
    let (u, rows, last) =
      >>=-eq-ok (rows_requirements content mode cmode f (iter_report_items content)) _ k' in
    let same : f ≡ b.filters = cc (sel, b.selected) in
    let rows' =
      subst (λ g. rows_requirements content mode cmode g (iter_report_items content) ≡ ok u) same
        rows in
    let served =
      rows-Served content mode cmode scope v b.filters (iter_report_items content) b.planned u valid
        b.rows rows' in
    let e : resolution_item scope u ≡ q = cc last in
    subst (All (Served content mode cmode scope q)) b.items (
      All-shown_items content mode cmode scope q b.filters b.planned (
        All-mono (Served content mode cmode scope u) (Served content mode cmode scope q) b.planned
          (λ p s hs.
            subst (λ w. requires p.plan.target w ≡ true) e
              (requires-resolution_item content mode cmode scope p.plan.target u (s hs)))
          served))
