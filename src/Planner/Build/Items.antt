-- ===== src/Planner/Build/Items.antt =====
-- What `build_plan` plans: the selected items, each from its own source.
use ch_diag.Content.{Content, FallbackItem, Item, Row, at_key, iter_report_items}
use ch_diag.Planner.Build.{
  ExecutionPlan, PlanSection, build_plan, compatibility, expand_item, is_filtered, or_default,
  plan_row, plan_rows, plan_sections, shown_items, shown_sections, source_outcome,
}
use ch_diag.Planner.Fallback.{attach_fallback, plan_fallback}
use ch_diag.Planner.Filters.{Filters, is_given, is_selected, selected_filters}
use ch_diag.Planner.Plan.{Metadata, Outcome, Planned, PlannedItem, item_title}
use ch_diag.Planner.Requirements.{
  CollectionMode, RunMode, Scope, collection_requirements, requires_database, source_of,
  source_target,
}
use ch_diag.Prelude.{
  List, Option, String, [], ap, false, inl, inr, map, none, not, refl, some, subst, sym, true, ◌&&◌,
  ◌==◌, ◌∷◌, ◌≡◌,
}
use ch_diag.Prelude.Lists.{Zip, keep, keep-cons, keep-skip}
use ch_diag.Prelude.Results.{>>=-eq-ok, Result, err, ok, raise_if, version_required}
use ch_diag.Prelude.Tests.{Bool-cases}
use ch_diag.Versioning.{Version}

-- The planned item `p` is what the loop body makes of the row `r`.
pub record IsPlanOf (content : Content) (v : Option Version) (mode : RunMode)
    (cmode : CollectionMode) (scope : Scope) (r : Row) (p : Planned) : Type 0 where
  pub source : source_of r.item ≡ ok (p.source_kind, p.source_id)
  pub target : source_target content p.source_kind p.source_id ≡ ok p.target
  pub outcome : Outcome
  pub decided : source_outcome content v mode cmode scope p.source_kind p.source_id ≡ ok outcome
  pub status : p.status ≡ outcome.status
  pub reason : p.reason ≡ outcome.reason
  pub item_id : p.item_id ≡ r.item_id
  pub section_id : p.section_id ≡ r.section_id
  pub state : p.state ≡ or_default r.item.state "collapsed"

abbrev pub with_policy : Planned → Item → Planned
with_policy p item = record p {
  metadata = record (p.metadata) { fallback_policy = some (item.fallback_item, item.fallback_on) };
}

module _ (content : Content) (p : Planned) (item : Item) (v : Option Version) (scope : Scope)
    (cmode : CollectionMode) where
  pub attach_fallback-none :
      (item.fallback_item == "") ≡ true
      → attach_fallback content p item v scope cmode
        ≡ ok (record { plan = p; fallback_on = []; fallback_item = none })
  unfolding attach_fallback
  attach_fallback-none e = rw e

  pub attach_fallback-some :
      (item.fallback_item == "") ≡ false
      → (q : PlannedItem) → attach_fallback content p item v scope cmode ≡ ok q
      → (d : FallbackItem) × (b : Planned) × (at_key item.fallback_item content.fallback_items
          ≡ ok d)
        × (plan_fallback content p v scope cmode item.fallback_item d ≡ ok b)
        × (record {
          plan = with_policy p item;
          fallback_on = item.fallback_on;
          fallback_item = some b;
        }
            ≡ q)
  unfolding attach_fallback
  attach_fallback-some e q h =
      let (d, at, h') =
        >>=-eq-ok (at_key item.fallback_item content.fallback_items) _ (rw e at h) in
      let (b, made, done) =
        >>=-eq-ok (plan_fallback content p v scope cmode item.fallback_item d) _ h' in
      (d, b, at, made, cc done)

  -- attaching a fallback changes nothing of the item but its metadata
  attach_fallback-plan :
      (q : PlannedItem)
      → attach_fallback content p item v scope cmode ≡ ok q
      → (m : Metadata) × (q.plan ≡ record p { metadata = m })
  attach_fallback-plan q h = elim (Bool-cases (item.fallback_item == "")) [
    | inl e ↦ (p.metadata, cc (attach_fallback-none e, h))
    | inr e ↦
        let (d, b, at, made, done) = attach_fallback-some e q h in
        (_, ap (λ (x : PlannedItem). x.plan) (sym done))
  ]

module _ (content : Content) (v : Option Version) (mode : RunMode) (cmode : CollectionMode)
    (scope : Scope) where
  pub plan_row-IsPlanOf :
      (r : Row) (p : PlannedItem)
      → plan_row content v mode cmode scope r ≡ ok p
      → IsPlanOf content v mode cmode scope r p.plan
  unfolding plan_row
  plan_row-IsPlanOf r p h =
      let (source, s, h₁) = >>=-eq-ok (source_of r.item) _ h in
      let (target, t, h₂) = >>=-eq-ok (source_target content source.0 source.1) _ h₁ in
      let (title, _, h₃) =
        >>=-eq-ok (item_title content source.0 source.1 r.item.title r.item_key) _ h₂ in
      let (o, d, h₄) =
        >>=-eq-ok (source_outcome content v mode cmode scope source.0 source.1) _ h₃ in
      let (m, e) = attach_fallback-plan content _ r.item v scope cmode p h₄ in
      subst (IsPlanOf content v mode cmode scope r) (sym e) (record {
        source = s;
        target = t;
        outcome = o;
        decided = d;
        status = refl;
        reason = refl;
        item_id = refl;
        section_id = refl;
        state = refl;
      })

  module _ (f : Filters) (r : Row) (rows : List Row) (ps : List PlannedItem)
      (h : plan_rows content v mode cmode scope f (r ∷ rows) ≡ ok ps) where
    pub plan_rows-cons :
        is_selected f r ≡ true
        → (p : PlannedItem) × (rest : List PlannedItem) × (plan_row content v mode cmode scope r
            ≡ ok p)
          × (plan_rows content v mode cmode scope f rows ≡ ok rest)
          × (p ∷ rest ≡ ps)
    unfolding plan_rows
    plan_rows-cons e =
        let (p, a, h') = >>=-eq-ok (plan_row content v mode cmode scope r) _ (rw e at h) in
        let (rest, b, c) = >>=-eq-ok (plan_rows content v mode cmode scope f rows) _ h' in
        (p, rest, a, b, cc c)

    pub plan_rows-skip :
        is_selected f r ≡ false → plan_rows content v mode cmode scope f rows ≡ ok ps
    unfolding plan_rows
    plan_rows-skip e = rw e at h

  abbrev pub Plans : List Row → List PlannedItem → Type 0
  Plans = Zip (λ r p. IsPlanOf content v mode cmode scope r p.plan)

  pub plan_rows-Plans :
      (f : Filters) (rows : List Row) (ps : List PlannedItem)
      → plan_rows content v mode cmode scope f rows ≡ ok ps
      → Plans (keep (is_selected f) rows) ps
  plan_rows-Plans f [] ps h = subst (Plans []) {x = []} (unfold plan_rows in cc h) tt
  plan_rows-Plans f (r ∷ rows) ps h = elim (Bool-cases (is_selected f r)) [
    | inl e ↦
        let (p, rest, a, b, c) = plan_rows-cons f r rows ps h e in
        subst (λ rs. Plans rs ps) (sym (keep-cons (is_selected f) r rows e))
          (subst (Plans (r ∷ keep (is_selected f) rows)) c
            (plan_row-IsPlanOf r p a, plan_rows-Plans f rows rest b))
    | inr e ↦
        subst (λ rs. Plans rs ps) (sym (keep-skip (is_selected f) r rows e))
          (plan_rows-Plans f rows ps (plan_rows-skip f r rows ps h e))
  ]

-- What a plan is made of.
pub record PlanParts (content : Content) (v : Option Version) (mode : RunMode)
    (cmode : CollectionMode) (scope : Scope) (ids tags : Option (List String))
    (plan : ExecutionPlan) : Type 0 where
  pub filters : Filters
  pub planned : List PlannedItem
  pub selected : selected_filters content ids tags ≡ ok filters
  pub rows : plan_rows content v mode cmode scope filters (iter_report_items content) ≡ ok planned
  pub items : shown_items filters planned ≡ plan.items
  pub sections : shown_sections filters (plan_sections content.sections planned) ≡ plan.sections
  pub lts : compatibility content v ≡ ok plan.compatibility_lts_version

pub build_plan-parts :
    (content : Content) (v : Option Version) (mode : RunMode) (cmode : CollectionMode)
    (scope : Scope) (ids tags : Option (List String)) (plan : ExecutionPlan)
    → build_plan content v mode cmode scope ids tags ≡ ok plan
    → PlanParts content v mode cmode scope ids tags plan
unfolding build_plan
build_plan-parts content v mode cmode scope ids tags plan h =
    let (f, sel, h₁) = >>=-eq-ok (selected_filters content ids tags) _ h in
    let (r, _, h₂) =
      >>=-eq-ok (collection_requirements content mode cmode scope f.items f.tags) _ h₁ in
    let (_, _, h₃) =
      >>=-eq-ok (raise_if (requires_database r && not (is_given v)) version_required) _ h₂ in
    let (lts, compat, h₄) = >>=-eq-ok (compatibility content v) _ h₃ in
    let (ps, rows, done) =
      >>=-eq-ok (plan_rows content v mode cmode scope f (iter_report_items content)) _ h₄ in
    record {
      filters = f;
      planned = ps;
      selected = sel;
      rows = rows;
      items = ap plan_items done;
      sections = ap plan_secs done;
      lts =
          rw compat
            (ap (λ r. elim r [ ok p ↦ ok p.compatibility_lts_version | err e ↦ err e ]) done);
    }
  where
    plan_items : Result ExecutionPlan → List PlannedItem
    plan_items (ok p) = p.items
    plan_items (err e) = []

    plan_secs : Result ExecutionPlan → List PlanSection
    plan_secs (ok p) = p.sections
    plan_secs (err e) = []

abbrev pub ids : List PlannedItem → List String
ids ps = map (λ (p : PlannedItem). p.plan.item_id) ps

ids-expand : (ps : List PlannedItem) → ids (map expand_item ps) ≡ ids ps
unfolding expand_item
ids-expand [] = refl
ids-expand (p ∷ ps) = ap (λ (x : List String). p.plan.item_id ∷ x) (ids-expand ps)

pub shown_items-filtered :
    (f : Filters) (ps : List PlannedItem)
    → is_filtered f ≡ true
    → shown_items f ps ≡ map expand_item ps
unfolding shown_items
shown_items-filtered f ps e = rw e

pub shown_items-all :
    (f : Filters) (ps : List PlannedItem) → is_filtered f ≡ false → shown_items f ps ≡ ps
unfolding shown_items
shown_items-all f ps e = rw e

pub ids-shown : (f : Filters) (ps : List PlannedItem) → ids (shown_items f ps) ≡ ids ps
unfolding shown_items
ids-shown f ps = elim (Bool-cases (is_filtered f)) [ inl e ↦ rw e (ids-expand ps) | inr e ↦ rw e ]
