-- ===== src/Collector/Fallback/Laws.antt =====
-- What `_execute_item_safely` returns: the identity of the planned item, the primary item where it
-- is good, and the fallback only where the plan allows it.
use ch_diag.Artifact.{CollectedItem, FallbackUse, is_successful}
use ch_diag.Collector.Execute.{execute_item}
use ch_diag.Collector.Fallback.{
  allows, caught, execute_item_safely, fallback_trigger, replace_with_fallback_item, with_fallback,
}
use ch_diag.Collector.Services.{Services}
use ch_diag.Content.{Content}
use ch_diag.Planner.Plan.{Planned, PlannedItem}
use ch_diag.Prelude.{Option, String, false, inl, inr, none, refl, some, subst, true, ◌≡◌, ◌⊎◌}
use ch_diag.Prelude.Lists.{Any, any, elem}
use ch_diag.Prelude.Tests.{Bool-cases}
use ch_diag.Collector.Fallback.Place.{caught-IsOf}
use ch_diag.Collector.Fallback.Trigger.{Names, diagnostic_trigger-some, diagnostic_trigger-found}

some-inj {ℓ} : {A : Type ℓ} {x y : A} → some x ≡ some y → x ≡ y
some-inj h = cc h

module _ (svc : Services) (content : Content) (p : PlannedItem) where
  -- the item that the primary source gives
  abbrev pub primary : CollectedItem
  primary = caught svc p.plan (execute_item svc content p.plan)

  -- the item has used a fallback as the plan and the primary item tell
  pub record IsAllowedUse (u : FallbackUse) : Type 0 where
    pub is_bad : is_successful primary ≡ false
    pub is_listed : elem u.trigger p.fallback_on ≡ true
    pub is_named : Any (Names u.trigger) primary.diagnostics
    pub has_plan : (q : Planned) × (p.fallback_item ≡ some q) × (u.fallback_item_id ≡ q.item_id)
    pub keeps_diagnostics : u.primary_diagnostics ≡ primary.diagnostics

  -- Whatever the adapter, the runner and the files do, the item that `_execute_item_safely` returns
  -- has the item id, the section id and the item key of the planned item.
  pub execute_item_safely-keeps :
      ((execute_item_safely svc content p).item_id ≡ p.plan.item_id)
      × ((execute_item_safely svc content p).section_id ≡ p.plan.section_id)
      × ((execute_item_safely svc content p).item_key ≡ p.plan.item_key)
  unfolding execute_item_safely with_fallback replace_with_fallback_item
  execute_item_safely-keeps = by_trigger (fallback_trigger primary p.fallback_on) p.fallback_item
    where
      by_trigger :
          (t : Option String) (q : Option Planned)
          → ((with_fallback svc content p primary t q).item_id ≡ p.plan.item_id)
            × ((with_fallback svc content p primary t q).section_id ≡ p.plan.section_id)
            × ((with_fallback svc content p primary t q).item_key ≡ p.plan.item_key)
      by_trigger none q =
          let r = caught-IsOf svc content p.plan in (r.item_id, r.section_id, r.item_key)
      by_trigger (some t) none =
          let r = caught-IsOf svc content p.plan in (r.item_id, r.section_id, r.item_key)
      by_trigger (some t) (some q) = (refl, refl, refl)

  fallback_trigger-some :
      (t : String)
      → fallback_trigger primary p.fallback_on ≡ some t
      → (is_successful primary ≡ false)
        × (elem t p.fallback_on ≡ true)
        × Any (Names t) primary.diagnostics
  unfolding fallback_trigger
  fallback_trigger-some t h = elim (Bool-cases (is_successful primary)) [
    | inl e ↦ absurd (let x : ⊥ = cc (rw (e, fallback_trigger) at h) in x)
    | inr e ↦
        let (listed, named) =
          diagnostic_trigger-some p.fallback_on primary.diagnostics t
            (rw (e, fallback_trigger) at h) in
        (e, listed, named)
  ]

  -- An item that has used a fallback has done so for a reason: the primary item was not successful,
  -- one of its diagnostics names the trigger, the trigger is among those of the plan, the fallback
  -- item is the planned one, and the diagnostics of the primary item are kept.
  pub execute_item_safely-IsAllowedUse :
      (u : FallbackUse)
      → (execute_item_safely svc content p).metadata.fallback ≡ some u
      → IsAllowedUse u
  unfolding execute_item_safely with_fallback replace_with_fallback_item
  execute_item_safely-IsAllowedUse u h =
      by_trigger (fallback_trigger primary p.fallback_on) p.fallback_item refl refl h
    where
      by_trigger :
          (t : Option String) (q : Option Planned)
          → fallback_trigger primary p.fallback_on ≡ t
          → p.fallback_item ≡ q
          → (with_fallback svc content p primary t q).metadata.fallback ≡ some u
          → IsAllowedUse u
      by_trigger none q e f h =
          absurd (let x : ⊥ = cc (h, (caught-IsOf svc content p.plan).plain) in x)
      by_trigger (some t) none e f h =
          absurd (let x : ⊥ = cc (h, (caught-IsOf svc content p.plan).plain) in x)
      by_trigger (some t) (some q) e f h =
          let (bad, listed, named) = fallback_trigger-some t e in
          subst IsAllowedUse (some-inj h) (record {
            is_bad = bad;
            is_listed = listed;
            is_named = named;
            has_plan = (q, f, refl);
            keeps_diagnostics = refl;
          })

  -- The converse: where the primary item was not successful, one of its diagnostics has a failure
  -- kind or a code that the plan lists, and the plan has a fallback item, the fallback is used.
  pub execute_item_safely-uses :
      (q : Planned)
      → is_successful primary ≡ false
      → Any
          (λ d. (allows p.fallback_on d.failure_kind ≡ true) ⊎ (allows p.fallback_on d.code ≡ true))
          primary.diagnostics
      → p.fallback_item ≡ some q
      → (u : FallbackUse) × ((execute_item_safely svc content p).metadata.fallback ≡ some u)
  unfolding execute_item_safely with_fallback replace_with_fallback_item fallback_trigger
  execute_item_safely-uses q bad any f =
      let (t, e) = diagnostic_trigger-found p.fallback_on primary.diagnostics any in
      by_trigger (fallback_trigger primary p.fallback_on) p.fallback_item t (rw (bad, e)) f
    where
      by_trigger :
          (o : Option String) (r : Option Planned) (t : String)
          → o ≡ some t
          → r ≡ some q
          → (u : FallbackUse) × ((with_fallback svc content p primary o r).metadata.fallback
              ≡ some u)
      by_trigger none r t e f = absurd (let x : ⊥ = cc e in x)
      by_trigger (some _) none t e f = absurd (let x : ⊥ = cc f in x)
      by_trigger (some _) (some _) t e f = (_, refl)

  -- A primary item that was successful is returned as it is.
  pub execute_item_safely-primary :
      is_successful primary ≡ true → execute_item_safely svc content p ≡ primary
  unfolding execute_item_safely fallback_trigger with_fallback
  execute_item_safely-primary good = rw good
