-- ===== src/Planner/Build/Selection.antt =====
-- Which items a plan holds, and which of them it schedules.
use ch_diag.Content.{Content, Query, Row, at_key, iter_report_items}
use ch_diag.Planner.Build.{
  ExecutionPlan, build_plan, expand_item, is_filtered, shown_items, source_outcome,
}
use ch_diag.Planner.Build.Items.{
  Plans, build_plan-parts, ids, ids-shown, plan_rows-Plans, shown_items-all, shown_items-filtered,
}
use ch_diag.Planner.Build.Sources.{metric_case, script_case}
use ch_diag.Planner.Filters.{Filters, in_items, in_tags, intersects, is_selected, selected_filters}
use ch_diag.Planner.Plan.{
  Outcome, Planned, PlannedItem, metric_outcome, planned, query_outcome, script_outcome,
  variant_outcome,
}
use ch_diag.Planner.Requirements.{
  CollectionMode, RunMode, Scope, SourceKind, metric, query, remote_db_only, scope_name, script,
  snapshots,
}
use ch_diag.Prelude.{
  List, Option, String, [], ap, ap₂, arith, inl, inr, map, none, refl, some, subst, sym, ◌↔◌, ◌∙◌,
  eq_iff, true, false, ◌==◌, ◌∷◌, ◌≡◌, ◌≢◌,
}
use ch_diag.Prelude.Lists.{All, Any, elem, keep}
use ch_diag.Prelude.Results.{>>=-eq-ok, ok}
use ch_diag.Prelude.Tests.{Bool-cases}
use ch_diag.Versioning.{Variant, Version, select_variant}

module _ (content : Content) (v : Option Version) (mode : RunMode) (cmode : CollectionMode)
    (scope : Scope) where
  ids-Plans :
      (rows : List Row) (ps : List PlannedItem)
      → Plans content v mode cmode scope rows ps
      → ids ps ≡ map (λ (r : Row). r.item_id) rows
  ids-Plans [] [] z = refl
  ids-Plans [] (p ∷ ps) z = absurd z
  ids-Plans (r ∷ rows) [] z = absurd z
  ids-Plans (r ∷ rows) (p ∷ ps) z =
      ap₂ (λ (x : String) (y : List String). x ∷ y) z.0.item_id (ids-Plans rows ps z.1)

-- the identity of the item is requested, or no items are; and so for one of its tags
abbrev pub InItems : Option (List String) → String → Type 0
InItems none id = Unit
InItems (some ids) id = Any (λ requested. requested ≡ id) ids

abbrev pub InTags : Option (List String) → List String → Type 0
InTags none tags = Unit
InTags (some requested) tags = Any (λ tag. Any (λ t. t ≡ tag) requested) tags

abbrev pub Passes : Filters → Row → Type 0
Passes f r = InItems f.items r.item_id × InTags f.tags r.item.tags

-- the rows that pass the filters, of a list of rows and in its order
pub data Chosen (f : Filters) : List Row → List Row → Type 0 where
  no_rows : Chosen f [] []
  passed :
      {r : Row} {rows chosen : List Row}
      → Passes f r
      → Chosen f rows chosen
      → Chosen f (r ∷ rows) (r ∷ chosen)
  left_out :
      {r : Row} {rows chosen : List Row}
      → ¬ Passes f r
      → Chosen f rows chosen
      → Chosen f (r ∷ rows) chosen

elem-Any : (id : String) (ids : List String) → (elem id ids ≡ true) ↔ Any (λ x. x ≡ id) ids
elem-Any id [] = ((λ h. let x : ⊥ = cc h in x), (λ m. absurd m))
elem-Any id (x ∷ xs) =
    let (a, b) = elem-Any id xs in
    elim (Bool-cases (x == id)) [
      | inl e ↦ ((λ h. inl ((eq_iff x id).0 e)), (λ m. rw e refl))
      | inr e ↦ (
        (λ h. inr (a (rw e at h))),
        (λ m. elim m [
          | inl q ↦ absurd (let y : ⊥ = cc ((eq_iff x id).1 q, e) in y)
          | inr n ↦ rw e (b n)
        ]),
      )
    ]

intersects-Any :
    (requested tags : List String)
    → (intersects requested tags ≡ true) ↔ InTags (some requested) tags
unfolding intersects
intersects-Any requested [] = ((λ h. let x : ⊥ = cc h in x), (λ m. absurd m))
intersects-Any requested (t ∷ ts) =
    let (a, b) = intersects-Any requested ts in
    let (c, d) = elem-Any t requested in
    elim (Bool-cases (elem t requested)) [
      | inl e ↦ ((λ h. inl (c e)), (λ m. rw (e, intersects) refl))
      | inr e ↦ (
        (λ h. inr (a (rw (e, intersects) at h))),
        (λ m. elim m [
          | inl q ↦ absurd (let y : ⊥ = cc (d q, e) in y)
          | inr n ↦ rw (e, intersects) (b n)
        ]),
      )
    ]

in_items-InItems : (o : Option (List String)) (id : String) → (in_items o id ≡ true) ↔ InItems o id
unfolding in_items
in_items-InItems none id = ((λ h. tt), (λ h. refl))
in_items-InItems (some ids) id = elem-Any id ids

in_tags-InTags :
    (o : Option (List String)) (tags : List String) → (in_tags o tags ≡ true) ↔ InTags o tags
unfolding in_tags
in_tags-InTags none tags = ((λ h. tt), (λ h. refl))
in_tags-InTags (some requested) tags = intersects-Any requested tags

is_selected-Passes : (f : Filters) (r : Row) → (is_selected f r ≡ true) ↔ Passes f r
unfolding is_selected
is_selected-Passes f r =
    let (a, b) = in_items-InItems f.items r.item_id in
    let (c, d) = in_tags-InTags f.tags r.item.tags in
    (
      (λ h. elim (Bool-cases (in_items f.items r.item_id)) [
        | inl e ↦ (a e, c (rw e at h))
        | inr e ↦ absurd (let x : ⊥ = cc (rw e at h) in x)
      ]),
      (λ p. rw (b p.0, d p.1) refl),
    )

apart : true ≢ false
apart h = let x : ⊥ = cc h in x

keep-Chosen : (f : Filters) (rows : List Row) → Chosen f rows (keep (is_selected f) rows)
keep-Chosen f [] = no_rows
keep-Chosen f (r ∷ rows) = elim (Bool-cases (is_selected f r)) [
  | inl e ↦ rw e (passed ((is_selected-Passes f r).0 e) (keep-Chosen f rows))
  | inr e ↦ rw e (
      left_out (λ (p : Passes f r). absurd (apart (sym ((is_selected-Passes f r).1 p) ∙ e)))
        (keep-Chosen f rows))
]

pub build_plan-kept :
    (content : Content) (v : Option Version) (mode : RunMode) (cmode : CollectionMode)
    (scope : Scope) (item_ids tags : Option (List String)) (plan : ExecutionPlan)
    → build_plan content v mode cmode scope item_ids tags ≡ ok plan
    → (f : Filters) × (selected_filters content item_ids tags ≡ ok f)
      × (ids plan.items
          ≡ map (λ (r : Row). r.item_id) (keep (is_selected f) (iter_report_items content)))
build_plan-kept content v mode cmode scope item_ids tags plan h =
    let b = build_plan-parts content v mode cmode scope item_ids tags plan h in
    (
      b.filters,
      b.selected,
      ap ids (sym b.items)
          ∙ ids-shown b.filters b.planned
          ∙ ids-Plans content v mode cmode scope
              (keep (is_selected b.filters) (iter_report_items content)) b.planned
              (plan_rows-Plans content v mode cmode scope b.filters (iter_report_items content)
                b.planned b.rows),
    )

-- The items of a plan are exactly the report items whose identity is among the requested ones, or
-- that have a requested tag, as far as the filters are given, in the report's order.
pub build_plan-ids :
    (content : Content) (v : Option Version) (mode : RunMode) (cmode : CollectionMode)
    (scope : Scope) (item_ids tags : Option (List String)) (plan : ExecutionPlan)
    → build_plan content v mode cmode scope item_ids tags ≡ ok plan
    → (f : Filters) × (rows : List Row) × (selected_filters content item_ids tags ≡ ok f)
      × Chosen f (iter_report_items content) rows
      × (ids plan.items ≡ map (λ (r : Row). r.item_id) rows)
build_plan-ids content v mode cmode scope item_ids tags plan h =
    let (f, selected, same) = build_plan-kept content v mode cmode scope item_ids tags plan h in
    (
      f,
      keep (is_selected f) (iter_report_items content),
      selected,
      keep-Chosen f (iter_report_items content),
      same,
    )

-- What the modes allow an item to be scheduled for.
pub record IsAllowed (mode : RunMode) (cmode : CollectionMode) (p : Planned) : Type 0 where
  pub reasoned : (p.status ≡ planned) ↔ (p.reason ≡ none)
  pub metrics : p.status ≡ planned → p.source_kind ≡ metric → mode ≡ snapshots
  pub scripts : p.status ≡ planned → p.source_kind ≡ script → cmode ≢ remote_db_only

module _ (content : Content) (mode : RunMode) (cmode : CollectionMode) (scope : Scope) where
  variant_outcome-reasoned :
      (q : Query) (v : Version) (r : Option Variant)
      → ((variant_outcome q scope v r).status ≡ planned)
        ↔ ((variant_outcome q scope v r).reason ≡ none)
  unfolding variant_outcome
  variant_outcome-reasoned q v r = ground arith

  abbrev Consistent : SourceKind → Outcome → Type 0
  Consistent kind o =
      ((o.status ≡ planned) ↔ (o.reason ≡ none))
      × (o.status ≡ planned → kind ≡ metric → mode ≡ snapshots)
      × (o.status ≡ planned → kind ≡ script → cmode ≢ remote_db_only)

  source_outcome-Consistent :
      (v : Option Version) (kind : SourceKind) (id : String) (o : Outcome)
      → source_outcome content v mode cmode scope kind id ≡ ok o
      → Consistent kind o
  unfolding source_outcome query_outcome script_outcome metric_outcome
  source_outcome-Consistent none query id o h = cc
  source_outcome-Consistent (some v) query id o h =
      let (q, a, h') = >>=-eq-ok (at_key id content.queries) _ h in
      let (r, b, c) =
        >>=-eq-ok
          (select_variant q.variants v (scope_name scope) (some content.supported_lts_versions)) _
          h' in
      let e : variant_outcome q scope v r ≡ o = cc c in
      subst (Consistent query) e
        (variant_outcome-reasoned q v r, (λ _ k. absurd (cc k)), (λ _ k. absurd (cc k)))
  source_outcome-Consistent v script id o h =
      let (s, a, b) =
        >>=-eq-ok (at_key id content.scripts) _ (script_case content v mode cmode scope id o h) in
      (ground arith, ground arith, ground arith)
  source_outcome-Consistent v metric id o h =
      let (m, a, b) =
        >>=-eq-ok (at_key id content.metrics) _ (metric_case content v mode cmode scope id o h) in
      (ground arith, ground arith, ground arith)

  Plans-IsAllowed :
      (v : Option Version) (rows : List Row) (ps : List PlannedItem)
      → Plans content v mode cmode scope rows ps
      → All (λ p. IsAllowed mode cmode p.plan) ps
  Plans-IsAllowed v [] [] z = tt
  Plans-IsAllowed v [] (p ∷ ps) z = absurd z
  Plans-IsAllowed v (r ∷ rows) [] z = absurd z
  Plans-IsAllowed v (r ∷ rows) (p ∷ ps) (i, z) =
      let (a, b, c) =
        source_outcome-Consistent v p.plan.source_kind p.plan.source_id i.outcome i.decided in
      (
        record {
          reasoned =
              ((λ e. i.reason ∙ a.0 (sym i.status ∙ e)), (λ e. i.status ∙ a.1 (sym i.reason ∙ e)));
          metrics = λ e. b (sym i.status ∙ e);
          scripts = λ e. c (sym i.status ∙ e);
        },
        Plans-IsAllowed v rows ps z,
      )

  All-expand :
      (ps : List PlannedItem)
      → All (λ p. IsAllowed mode cmode p.plan) ps
      → All (λ p. IsAllowed mode cmode p.plan) (map expand_item ps)
  unfolding expand_item
  All-expand [] a = tt
  All-expand (p ∷ ps) a = (
    record { reasoned = a.0.reasoned; metrics = a.0.metrics; scripts = a.0.scripts },
    All-expand ps a.1,
  )

  shown-IsAllowed :
      (f : Filters) (ps : List PlannedItem)
      → All (λ p. IsAllowed mode cmode p.plan) ps
      → All (λ p. IsAllowed mode cmode p.plan) (shown_items f ps)
  shown-IsAllowed f ps a = elim (Bool-cases (is_filtered f)) [
    | inl e ↦
        subst (All (λ p. IsAllowed mode cmode p.plan)) (sym (shown_items-filtered f ps e))
          (All-expand ps a)
    | inr e ↦ subst (All (λ p. IsAllowed mode cmode p.plan)) (sym (shown_items-all f ps e)) a
  ]

-- An item of a plan is scheduled exactly when it has no skip reason; a metric is scheduled only in
-- snapshots mode, and a host script never in remote-db-only mode.
pub build_plan-IsAllowed :
    (content : Content) (v : Option Version) (mode : RunMode) (cmode : CollectionMode)
    (scope : Scope) (item_ids tags : Option (List String)) (plan : ExecutionPlan)
    → build_plan content v mode cmode scope item_ids tags ≡ ok plan
    → All (λ p. IsAllowed mode cmode p.plan) plan.items
build_plan-IsAllowed content v mode cmode scope item_ids tags plan h =
    let b = build_plan-parts content v mode cmode scope item_ids tags plan h in
    subst (All (λ p. IsAllowed mode cmode p.plan)) b.items (
      shown-IsAllowed content mode cmode scope b.filters b.planned (
        Plans-IsAllowed content mode cmode scope v
          (keep (is_selected b.filters) (iter_report_items content)) b.planned
          (plan_rows-Plans content v mode cmode scope b.filters (iter_report_items content)
            b.planned b.rows)))
