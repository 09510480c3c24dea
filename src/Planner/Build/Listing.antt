-- ===== src/Planner/Build/Listing.antt =====
-- The items that a section lists: the planned items that belong to it.
use ch_diag.Content.{Content, Item, Row, Section, section_rows}
use ch_diag.Planner.Build.{PlanSection, plan_row, plan_rows, plan_sections, section_items}
use ch_diag.Planner.Build.Items.{ids, plan_row-IsPlanOf, plan_rows-cons, plan_rows-skip}
use ch_diag.Planner.Filters.{Filters, is_selected}
use ch_diag.Planner.Plan.{PlannedItem}
use ch_diag.Planner.Requirements.{CollectionMode, RunMode, Scope}
use ch_diag.Prelude.{
  List, Option, String, [], ap, false, inl, inr, refl, subst, true, ◌++◌, ◌==◌, ◌∙◌, ◌∷◌, ◌≡◌, ◌⊎◌,
}
use ch_diag.Prelude.Lists.{All}
use ch_diag.Prelude.Results.{ok}
use ch_diag.Prelude.Tests.{Bool-cases}
use ch_diag.Versioning.{Version}

-- the items that the sections list, one section after the other
abbrev pub listed : List PlanSection → List String
listed [] = []
listed (s ∷ rest) = s.items ++ listed rest

abbrev pub In : String → PlannedItem → Type 0
In id p = (p.plan.section_id == id) ≡ true

abbrev pub Out : String → PlannedItem → Type 0
Out id p = (p.plan.section_id == id) ≡ false

pub section_items-In :
    (id : String) (ps qs : List PlannedItem)
    → All (In id) ps
    → section_items id (ps ++ qs) ≡ ids ps ++ section_items id qs
unfolding section_items
section_items-In id [] qs a = refl
section_items-In id (p ∷ ps) qs a =
    rw a.0 (ap (λ (s : List String). p.plan.item_id ∷ s) (section_items-In id ps qs a.1))

pub section_items-Out :
    (id : String) (ps qs : List PlannedItem)
    → All (Out id) ps
    → section_items id (ps ++ qs) ≡ section_items id qs
unfolding section_items
section_items-Out id [] qs a = refl
section_items-Out id (p ∷ ps) qs a = rw a.0 (section_items-Out id ps qs a.1)

pub listed-plan_sections :
    (s : Section) (rest : List Section) (items : List PlannedItem)
    → listed (plan_sections (s ∷ rest) items)
      ≡ section_items s.section_id items ++ listed (plan_sections rest items)
unfolding plan_sections
listed-plan_sections s rest items = elim (shape (section_items s.section_id items)) [
  | inl e ↦ rw (e, plan_sections)
  | inr (x, xs, e) ↦ rw (e, plan_sections)
]
  where
    shape : (l : List String) → (l ≡ []) ⊎ ((x : String) × (xs : List String) × (l ≡ x ∷ xs))
    shape [] = inl refl
    shape (x ∷ xs) = inr (x, xs, refl)

module _ (content : Content) (v : Option Version) (mode : RunMode) (cmode : CollectionMode)
    (scope : Scope) (f : Filters) where
  plan_rows-cons_of :
      (r : Row) (rs : List Row) (p : PlannedItem) (ps : List PlannedItem)
      → is_selected f r ≡ true
      → plan_row content v mode cmode scope r ≡ ok p
      → plan_rows content v mode cmode scope f rs ≡ ok ps
      → plan_rows content v mode cmode scope f (r ∷ rs) ≡ ok (p ∷ ps)
  unfolding plan_rows
  plan_rows-cons_of r rs p ps e a b = rw (e, a, b)

  plan_rows-skip_of :
      (r : Row) (rs : List Row) (ps : List PlannedItem)
      → is_selected f r ≡ false
      → plan_rows content v mode cmode scope f rs ≡ ok ps
      → plan_rows content v mode cmode scope f (r ∷ rs) ≡ ok ps
  unfolding plan_rows
  plan_rows-skip_of r rs ps e b = rw e b

  -- the plan of two runs of rows, in two parts
  pub record Split (rs ts : List Row) (ps : List PlannedItem) : Type 0 where
    pub front : List PlannedItem
    pub back : List PlannedItem
    pub front_rows : plan_rows content v mode cmode scope f rs ≡ ok front
    pub back_rows : plan_rows content v mode cmode scope f ts ≡ ok back
    pub joined : front ++ back ≡ ps

  pub plan_rows-append :
      (rs ts : List Row) (ps : List PlannedItem)
      → plan_rows content v mode cmode scope f (rs ++ ts) ≡ ok ps
      → Split rs ts ps
  plan_rows-append [] ts ps h = record {
    front = [];
    back = ps;
    front_rows = unfold plan_rows in refl;
    back_rows = h;
    joined = refl;
  }
  plan_rows-append (r ∷ rs) ts ps h = elim (Bool-cases (is_selected f r)) [
    | inl e ↦
        let (p, rest, a, b, c) = plan_rows-cons content v mode cmode scope f r (rs ++ ts) ps h e in
        let s = plan_rows-append rs ts rest b in
        record {
          front = p ∷ s.front;
          back = s.back;
          front_rows = plan_rows-cons_of r rs p s.front e a s.front_rows;
          back_rows = s.back_rows;
          joined = ap (λ (x : List PlannedItem). p ∷ x) s.joined ∙ c;
        }
    | inr e ↦
        let s =
          plan_rows-append rs ts ps
            (plan_rows-skip content v mode cmode scope f r (rs ++ ts) ps h e) in
        record {
          front = s.front;
          back = s.back;
          front_rows = plan_rows-skip_of r rs s.front e s.front_rows;
          back_rows = s.back_rows;
          joined = s.joined;
        }
  ]

  -- an item planned from a row carries the row's section
  pub plan_rows-section :
      (id : String) (rows : List Row) (ps : List PlannedItem)
      → All (λ r. r.section_id ≡ id) rows
      → plan_rows content v mode cmode scope f rows ≡ ok ps
      → All (λ p. p.plan.section_id ≡ id) ps
  plan_rows-section id [] ps a h =
      subst (All (λ p. p.plan.section_id ≡ id)) {x = []} (unfold plan_rows in cc h) tt
  plan_rows-section id (r ∷ rows) ps a h = elim (Bool-cases (is_selected f r)) [
    | inl e ↦
        let (p, rest, b, c, d) = plan_rows-cons content v mode cmode scope f r rows ps h e in
        let i = plan_row-IsPlanOf content v mode cmode scope r p b in
        subst (All (λ p. p.plan.section_id ≡ id)) d
          (i.section_id ∙ a.0, plan_rows-section id rows rest a.1 c)
    | inr e ↦
        plan_rows-section id rows ps a.1 (plan_rows-skip content v mode cmode scope f r rows ps h e)
  ]

pub section_rows-section :
    (id : String) (items : List (String × Item))
    → All (λ r. r.section_id ≡ id) (section_rows id items)
unfolding section_rows
section_rows-section id [] = tt
section_rows-section id ((key, item) ∷ items) = (refl, section_rows-section id items)
