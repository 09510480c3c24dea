-- ===== src/Planner/Build/Sources.antt =====
-- What the branch on the source kind gives for a script and a metric, and what holds of a key's entry.
use ch_diag.Content.{Content, at_key, find_key}
use ch_diag.Planner.Build.{source_outcome}
use ch_diag.Planner.Plan.{Outcome, metric_outcome, script_outcome}
use ch_diag.Planner.Requirements.{CollectionMode, RunMode, Scope, metric, script}
use ch_diag.Prelude.{List, Option, String, [], arith, inl, inr, none, some, subst, ◌==◌, ◌∷◌, ◌≡◌}
use ch_diag.Prelude.Lists.{All}
use ch_diag.Prelude.Results.{ok}
use ch_diag.Prelude.Tests.{Bool-cases, Option-cases}
use ch_diag.Versioning.{Version}

find_key-All {ℓ} :
    {V : Type 0} (P : V → Type ℓ) (k : String) (entries : List (String × V)) (v : V)
    → find_key k entries ≡ some v
    → All (λ e. P e.1) entries
    → P v
unfolding find_key
find_key-All P k [] v h a = elim (let e : ⊥ = cc in e) [ ]
find_key-All P k ((j, w) ∷ rest) v h a = elim (Bool-cases (j == k)) [
  | inl e ↦ subst P (let s : w ≡ v = ground arith in s) a.0
  | inr e ↦ find_key-All P k rest v (ground arith) a.1
]

pub at_key-All {ℓ} :
    {V : Type 0} (P : V → Type ℓ) (k : String) (entries : List (String × V)) (v : V)
    → at_key k entries ≡ ok v
    → All (λ e. P e.1) entries
    → P v
unfolding at_key
at_key-All P k entries v h a = elim (Option-cases (find_key k entries)) [
  | inl e ↦ elim (let x : ⊥ = cc (rw (e, at_key) at h) in x) [ ]
  | inr (w, e) ↦ find_key-All P k entries v (ground arith) a
]

module _ (content : Content) (v : Option Version) (mode : RunMode) (cmode : CollectionMode)
    (scope : Scope) (id : String) (o : Outcome) where
  pub script_case :
      source_outcome content v mode cmode scope script id ≡ ok o
      → script_outcome content cmode id ≡ ok o
  unfolding source_outcome
  script_case h = by_version v h
    where
      by_version :
          (w : Option Version)
          → source_outcome content w mode cmode scope script id ≡ ok o
          → script_outcome content cmode id ≡ ok o
      by_version none h = h
      by_version (some w) h = h

  pub metric_case :
      source_outcome content v mode cmode scope metric id ≡ ok o
      → metric_outcome content mode cmode id ≡ ok o
  unfolding source_outcome
  metric_case h = by_version v h
    where
      by_version :
          (w : Option Version)
          → source_outcome content w mode cmode scope metric id ≡ ok o
          → metric_outcome content mode cmode id ≡ ok o
      by_version none h = h
      by_version (some w) h = h
