-- ===== src/Collector/Fallback/Place.antt =====
-- The primary item of `_execute_item_safely` stands at the place of the planned item.
use ch_diag.Artifact.{CollectedItem, item_from_plan, no_result}
use ch_diag.Collector.Execute.{
  execute_by_kind, execute_item, execute_query_item, execute_script_item, query_item, run_query,
  script_item, unsupported_item,
}
use ch_diag.Collector.Fallback.{caught}
use ch_diag.Collector.Services.{
  >>=-eq-returned, Adapter, Call, ScriptRun, Services, failed, finished, or_key_error, raised,
  returned, timed_out,
}
use ch_diag.Content.{Content, Query, Script, find_key}
use ch_diag.Planner.Plan.{Planned}
use ch_diag.Planner.Requirements.{SourceKind, metric, query, script}
use ch_diag.Prelude.{String, [], arith, inl, inr, none, refl, some, subst, ◌≡◌}
use ch_diag.Prelude.Tests.{Bool-cases, Option-cases}

-- The item stands at the place of the planned item and has not used a fallback.
pub record IsOf (p : Planned) (i : CollectedItem) : Type 0 where
  pub item_id : i.item_id ≡ p.item_id
  pub section_id : i.section_id ≡ p.section_id
  pub item_key : i.item_key ≡ p.item_key
  pub plain : i.metadata.fallback ≡ none

module _ (svc : Services) (content : Content) (p : Planned) where
  run_query-IsOf :
      (q : Query) (sql : String) (a : Adapter) (i : CollectedItem)
      → run_query svc p q sql a ≡ returned i
      → IsOf p i
  unfolding run_query
  run_query-IsOf q sql a i h =
      let (answer, _, h') = >>=-eq-returned (a.supports_requirements q) _ h in
      elim (Bool-cases answer.0) [
        | inl e ↦
            let (x, _, done) = >>=-eq-returned (a.execute_query sql q) _ (rw e at h') in
            subst (IsOf p) (let r : query_item svc p q x ≡ i = cc done in r)
              (record { item_id = refl; section_id = refl; item_key = refl; plain = refl })
        | inr e ↦
            subst (IsOf p) (let r : unsupported_item p sql answer.1 ≡ i = cc (rw e at h') in r)
              (record { item_id = refl; section_id = refl; item_key = refl; plain = refl })
      ]

  execute_query_item-IsOf :
      (i : CollectedItem) → execute_query_item svc content p ≡ returned i → IsOf p i
  unfolding execute_query_item
  execute_query_item-IsOf i h = elim (Option-cases svc.adapter) [
    | inl e ↦ absurd (let x : ⊥ = cc (rw (e, execute_query_item) at h) in x)
    | inr (a, e) ↦
        let (sql, _, h₁) =
          >>=-eq-returned (svc.read_sql p.sql_file) _ (rw (e, execute_query_item) at h) in
        let (q, _, h₂) =
          >>=-eq-returned (or_key_error p.source_id (find_key p.source_id content.queries)) _ h₁ in
        run_query-IsOf q sql a i h₂
  ]

  script_item-IsOf :
      (s : Script) (source : String) (run : ScriptRun) (i : CollectedItem)
      → script_item svc p s source run ≡ returned i
      → IsOf p i
  unfolding script_item
  script_item-IsOf s source (finished r) i h = ground arith
  script_item-IsOf s source (timed_out m t) i h = ground arith
  script_item-IsOf s source (failed e) i h = absurd (let x : ⊥ = cc h in x)

  execute_script_item-IsOf :
      (i : CollectedItem) → execute_script_item svc content p ≡ returned i → IsOf p i
  unfolding execute_script_item
  execute_script_item-IsOf i h = elim (Option-cases svc.host_runner) [
    | inl e ↦ from_plan (rw (e, execute_script_item) at h)
    | inr (a, e) ↦
        let (s, _, h₁) =
          >>=-eq-returned (or_key_error p.source_id (find_key p.source_id content.scripts)) _
            (rw (e, execute_script_item) at h) in
        let (source, _, h₂) = >>=-eq-returned (svc.load_script s) _ h₁ in
        script_item-IsOf s source (a.run_script source) i h₂
  ]
    where
      from_plan :
          returned (
              item_from_plan p "skipped" no_result
                (some "host collection is unavailable")
                none
                []
                none
                none)
            ≡ returned i
          → IsOf p i
      from_plan e = ground arith

  execute_item-IsOf : (i : CollectedItem) → execute_item svc content p ≡ returned i → IsOf p i
  unfolding execute_item
  execute_item-IsOf i h = by_kind p.source_kind h
    where
      by_kind : (k : SourceKind) → execute_by_kind svc content p k ≡ returned i → IsOf p i
      by_kind query h = execute_query_item-IsOf i h
      by_kind script h = execute_script_item-IsOf i h
      by_kind metric h = ground arith

  pub caught-IsOf : IsOf p (caught svc p (execute_item svc content p))
  caught-IsOf = by_call (execute_item svc content p) refl
    where
      by_call : (c : Call CollectedItem) → execute_item svc content p ≡ c → IsOf p (caught svc p c)
      by_call (returned i) e = unfold caught in execute_item-IsOf i e
      by_call (raised x) e =
          unfold caught in
          record { item_id = refl; section_id = refl; item_key = refl; plain = refl }
