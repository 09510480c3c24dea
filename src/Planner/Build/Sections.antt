-- ===== src/Planner/Build/Sections.antt =====
-- The sections of the plan partition its items: each planned item is listed once, in order.
use ch_diag.Artifact.Tests.{sections}
use ch_diag.Content.{Content, Section, iter_report_items, report_rows, section_rows}
use ch_diag.Planner.Build.{
  ExecutionPlan, PlanSection, build_plan, expand_section, is_filtered, plan_rows, plan_sections,
  section_items, shown_sections,
}
use ch_diag.Planner.Build.Items.{build_plan-parts, ids, ids-shown}
use ch_diag.Planner.Build.Listing.{
  In, Out, listed, listed-plan_sections, plan_rows-append, plan_rows-section, section_items-In,
  section_items-Out, section_rows-section,
}
use ch_diag.Planner.Filters.{Filters}
use ch_diag.Planner.Plan.{PlannedItem}
use ch_diag.Planner.Requirements.{CollectionMode, RunMode, Scope}
use ch_diag.Prelude.{
  List, Option, String, [], ap, append-nil, append_assoc, ap₂, arith, eq_iff, eq_refl, false, inl,
  inr, map, map-append, refl, subst, sym, true, ◌++◌, ◌==◌, ◌∙◌, ◌∷◌, ◌≡◌,
}
use ch_diag.Prelude.Lists.{All, All-append, All-mono}
use ch_diag.Prelude.Results.{ok}
use ch_diag.Prelude.Tests.{Bool-cases}
use ch_diag.Versioning.{Version}

-- the keys of `report["sections"]` are distinct
abbrev pub Distinct : List Section → Type 0
Distinct [] = Unit
Distinct (s ∷ rest) = All (λ t. (s.section_id == t.section_id) ≡ false) rest × Distinct rest

-- none of the items belongs to one of the sections
abbrev Foreign : List Section → List PlannedItem → Type 0
Foreign sections ps = All (λ s. All (Out s.section_id) ps) sections

Foreign-append :
    (sections : List Section) (ps qs : List PlannedItem)
    → Foreign sections ps
    → Foreign sections qs
    → Foreign sections (ps ++ qs)
Foreign-append [] ps qs h k = tt
Foreign-append (s ∷ sections) ps qs h k =
    (All-append (Out s.section_id) ps qs h.0 k.0, Foreign-append sections ps qs h.1 k.1)

Foreign-section :
    (id : String) (sections : List Section) (ps : List PlannedItem)
    → All (λ t. (id == t.section_id) ≡ false) sections
    → All (λ p. p.plan.section_id ≡ id) ps
    → Foreign sections ps
Foreign-section id [] ps h a = tt
Foreign-section id (s ∷ sections) ps h a = (
  All-mono (λ p. p.plan.section_id ≡ id) (Out s.section_id) ps
      (λ p e. subst (λ x. (x == s.section_id) ≡ false) (sym e) h.0) a,
  Foreign-section id sections ps h.1 a,
)

In-section :
    (id : String) (ps : List PlannedItem) → All (λ p. p.plan.section_id ≡ id) ps → All (In id) ps
In-section id ps a =
    All-mono (λ p. p.plan.section_id ≡ id) (In id) ps
      (λ p e. subst (λ x. (x == id) ≡ true) (sym e) (eq_refl id)) a

section_items-nil :
    (id : String) (ps : List PlannedItem) → All (Out id) ps → section_items id ps ≡ []
section_items-nil id ps a =
    ap (section_items id) (sym (append-nil ps))
    ∙ section_items-Out id ps [] a
    ∙ (unfold section_items in refl)

module _ (content : Content) (v : Option Version) (mode : RunMode) (cmode : CollectionMode)
    (scope : Scope) (f : Filters) where
  -- the items of the rows that are not there yet belong to later sections
  report_rows-Out :
      (id : String) (sections : List Section) (ps : List PlannedItem)
      → All (λ t. (id == t.section_id) ≡ false) sections
      → plan_rows content v mode cmode scope f (report_rows sections) ≡ ok ps
      → All (Out id) ps
  report_rows-Out id [] ps h k =
      subst (All (Out id)) {x = []} (unfold plan_rows report_rows in cc k) tt
  report_rows-Out id (s ∷ sections) ps h k =
      let t =
        plan_rows-append content v mode cmode scope f (section_rows s.section_id s.items)
          (report_rows sections) ps (unfold report_rows in k) in
      let mine =
        plan_rows-section content v mode cmode scope f s.section_id
          (section_rows s.section_id s.items) t.front (section_rows-section s.section_id s.items)
          t.front_rows in
      subst (All (Out id)) t.joined (
        All-append (Out id) t.front t.back
          (All-mono (λ p. p.plan.section_id ≡ s.section_id) (Out id) t.front
            (λ p e. differs (p.plan.section_id) s.section_id e h.0) mine)
          (report_rows-Out id sections t.back h.1 t.back_rows))
    where
      differs : (x y : String) → x ≡ y → (id == y) ≡ false → (x == id) ≡ false
      differs x y e h = ground (arith, eq_iff x id, eq_iff id y)

  listed-report :
      (sections : List Section) (qs ps : List PlannedItem)
      → Distinct sections
      → Foreign sections qs
      → plan_rows content v mode cmode scope f (report_rows sections) ≡ ok ps
      → listed (plan_sections sections (qs ++ ps)) ≡ ids ps
  listed-report [] qs ps d a k =
      subst (λ x. listed (plan_sections [] (qs ++ x)) ≡ ids x) {x = []}
        (unfold plan_rows report_rows in cc k) (unfold plan_sections in refl)
  listed-report (s ∷ sections) qs ps d a k =
      let t =
        plan_rows-append content v mode cmode scope f (section_rows s.section_id s.items)
          (report_rows sections) ps (unfold report_rows in k) in
      let mine =
        plan_rows-section content v mode cmode scope f s.section_id
          (section_rows s.section_id s.items) t.front (section_rows-section s.section_id s.items)
          t.front_rows in
      let ih =
        listed-report sections (qs ++ t.front) t.back d.1
          (Foreign-append sections qs t.front a.1
            (Foreign-section s.section_id sections t.front d.0 mine))
          t.back_rows in
      let here : section_items s.section_id (qs ++ (t.front ++ t.back)) ≡ ids t.front =
        section_items-Out s.section_id qs (t.front ++ t.back) a.0
        ∙ section_items-In s.section_id t.front t.back (In-section s.section_id t.front mine)
        ∙ ap (λ (x : List String). ids t.front ++ x)
            (section_items-nil s.section_id t.back
              (report_rows-Out s.section_id sections t.back d.0 t.back_rows))
        ∙ append-nil (ids t.front) in
      let later : listed (plan_sections sections (qs ++ (t.front ++ t.back))) ≡ ids t.back =
        ap (λ (x : List PlannedItem). listed (plan_sections sections x))
          (sym (append_assoc qs t.front t.back))
        ∙ ih in
      subst (λ x. listed (plan_sections (s ∷ sections) (qs ++ x)) ≡ ids x) t.joined
        (listed-plan_sections s sections (qs ++ (t.front ++ t.back))
          ∙ ap₂ (λ (x y : List String). x ++ y) here later
          ∙ sym (map-append (λ (p : PlannedItem). p.plan.item_id) t.front t.back))

listed-expand : (secs : List PlanSection) → listed (map expand_section secs) ≡ listed secs
unfolding expand_section
listed-expand [] = refl
listed-expand (s ∷ secs) = ap (λ (x : List String). s.items ++ x) (listed-expand secs)

listed-shown :
    (f : Filters) (secs : List PlanSection) → listed (shown_sections f secs) ≡ listed secs
unfolding shown_sections
listed-shown f secs = elim (Bool-cases (is_filtered f)) [
  | inl e ↦ rw e (listed-expand secs)
  | inr e ↦ rw e
]

-- Where the section keys of the report are distinct, the sections of a plan list each planned item
-- once and in the plan's order, one section after the other.
pub build_plan-listed :
    (content : Content) (v : Option Version) (mode : RunMode) (cmode : CollectionMode)
    (scope : Scope) (item_ids tags : Option (List String)) (plan : ExecutionPlan)
    → Distinct content.sections
    → build_plan content v mode cmode scope item_ids tags ≡ ok plan
    → listed plan.sections ≡ ids plan.items
build_plan-listed content v mode cmode scope item_ids tags plan d h =
    let b = build_plan-parts content v mode cmode scope item_ids tags plan h in
    let whole =
      listed-report content v mode cmode scope b.filters content.sections [] b.planned d
        (none-Foreign content.sections) (unfold iter_report_items in b.rows) in
    ap listed (sym b.sections)
    ∙ listed-shown b.filters (plan_sections content.sections b.planned)
    ∙ whole
    ∙ sym (ids-shown b.filters b.planned)
    ∙ ap ids b.items
  where
    none-Foreign : (sections : List Section) → Foreign sections []
    none-Foreign [] = tt
    none-Foreign (s ∷ sections) = (tt, none-Foreign sections)
