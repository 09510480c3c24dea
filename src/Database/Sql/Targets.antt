-- ===== src/Database/Sql/Targets.antt =====
-- The targets that `resolve_targets` gives are ones that queries can be rendered for.
use ch_diag.Collector.Lifecycle.{DatabaseTarget}
use ch_diag.Database.Session.{Reply, gave, threw}
use ch_diag.Database.Sql.{
  cluster_target, contains, is_empty_name, placeholder, render_target_sql, resolve_targets,
  select_clusters, selected_value,
}
use ch_diag.Planner.Requirements.{Scope, cluster, node}
use ch_diag.Prelude.{
  Bool, List, Option, String, [], arith, eq_iff, eq_refl, false, map, none, not, refl, subst, sym,
  true, ◌<◌, ◌==◌, ◌||◌, ◌∷◌, ◌≡◌,
}
use ch_diag.Prelude.Lists.{All, All-mono, elem, length}
use ch_diag.Prelude.Tests.{if_both, if_cases}
use ch_diag.Prelude.Text.{Text}

-- a target of the scope: a listed cluster, or the node
abbrev pub IsTarget : Scope → List String → DatabaseTarget → Type 0
IsTarget node names t = t ≡ record { scope = node; cluster_name = none }
IsTarget cluster names t = (name : String) × (elem name names ≡ true) × (t ≡ cluster_target name)

elem_self : (name : String) (names : List String) → elem name (name ∷ names) ≡ true
elem_self name names = rw (eq_refl name) refl

All-cluster_target :
    (names all : List String)
    → ((name : String) → elem name names ≡ true → elem name all ≡ true)
    → All (IsTarget cluster all) (map cluster_target names)
All-cluster_target [] all h = tt
All-cluster_target (name ∷ names) all h = (
  (name, h name (elem_self name names), refl),
  All-cluster_target names all (λ other e. h other (or_right (name == other) (elem other names) e)),
)
  where
    or_right : (a b : Bool) → b ≡ true → (a || b) ≡ true
    or_right true b h = refl
    or_right false b h = h

abbrev pub AreTargets : Scope → List String → Reply (List DatabaseTarget) → Type 0
AreTargets scope names (threw e) = Unit
AreTargets scope names (gave ts) = All (IsTarget scope names) ts × (0 < length ts)

select_clusters-AreTargets :
    (value : String) (names : List String) → AreTargets cluster names (select_clusters value names)
unfolding select_clusters
select_clusters-AreTargets value [] = tt
select_clusters-AreTargets value (name ∷ names) =
    if_cases P (value == "AUTO") _ _ (λ t. (((name, elem_self name names, refl), tt), omega arith))
      λ f.
        if_cases P (value == "ALL") _ _
          (λ t. (All-cluster_target (name ∷ names) (name ∷ names) (λ other e. e), omega arith))
          λ f.
            if_cases P (not (elem value (name ∷ names))) _ _ (λ t. tt)
              (λ u. (((value, listed u, refl), tt), omega arith))
  where
    P : Reply (List DatabaseTarget) → Type 0
    P = AreTargets cluster (name ∷ names)

    listed : not (elem value (name ∷ names)) ≡ false → elem value (name ∷ names) ≡ true
    listed u = ground arith

pub resolve_targets-AreTargets :
    (scope : Scope) (selector : Option String) (names : List String)
    → AreTargets scope names (resolve_targets scope selector (gave names))
unfolding resolve_targets
resolve_targets-AreTargets node selector names =
    if_both (AreTargets node names) (is_empty_name selector) _ _ ((refl, tt), omega arith) tt
resolve_targets-AreTargets cluster selector names =
    select_clusters-AreTargets (selected_value selector) names

-- the text is rendered, and for a target without the placeholder it stays
abbrev pub IsRendered : Text → Reply Text → Type 0
IsRendered sql (threw e) = ⊥
IsRendered sql (gave out) = contains placeholder sql ≡ false → out ≡ sql

render_target_sql-cluster :
    (sql : Text) (name : String)
    → (name == "") ≡ false
    → IsRendered sql (render_target_sql sql (cluster_target name))
unfolding render_target_sql
render_target_sql-cluster sql name e = rw e (
    if_cases (IsRendered sql) (not (contains placeholder sql)) _ _ (λ t h. refl)
      (λ f h. absurd (let x : ⊥ = cc (f, h) in x)))

elem-name :
    (name : String) (names : List String)
    → All (λ n. (n == "") ≡ false) names
    → elem name names ≡ true
    → (name == "") ≡ false
elem-name name [] h e = cc
elem-name name (n ∷ names) h e = ground (arith, eq_iff n name, h.0, elem-name name names h.1)

-- For a cluster scope whose clusters have names, the targets are listed clusters, there is at least
-- one where the resolution does not raise, and no query fails to be rendered for any of them.
pub resolve_targets-renders :
    (sql : Text) (selector : Option String) (names : List String) (ts : List DatabaseTarget)
    → All (λ n. (n == "") ≡ false) names
    → resolve_targets cluster selector (gave names) ≡ gave ts
    → All (λ t. IsTarget cluster names t × IsRendered sql (render_target_sql sql t)) ts
      × (0 < length ts)
resolve_targets-renders sql selector names ts h e =
    let found : AreTargets cluster names (gave ts) =
      subst (AreTargets cluster names) e (resolve_targets-AreTargets cluster selector names) in
    (All-mono _ _ ts rendered found.0, found.1)
  where
    rendered :
        (t : DatabaseTarget)
        → IsTarget cluster names t
        → IsTarget cluster names t × IsRendered sql (render_target_sql sql t)
    rendered t (name, listed, same) = (
      (name, listed, same),
      subst (λ x. IsRendered sql (render_target_sql sql x)) (sym same)
          (render_target_sql-cluster sql name (elem-name name names h listed)),
    )
