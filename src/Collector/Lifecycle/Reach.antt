-- ===== src/Collector/Lifecycle/Reach.antt =====
-- What the adapter of `_collect` is connected to, what the collections of the targets are told, and
-- how many artifacts there are.
use ch_diag.Artifact.{Artifact}
use ch_diag.Collector.Lifecycle.{
  Context, DatabaseTarget, Endpoint, Environment, Options, Step, adapter_closed, add_hostname,
  connect_database_if, connect_transport, first_context, ssh_closed, value_error, ◌>>=◌, ◌>>◌,
}
use ch_diag.Collector.Lifecycle.Run.{
  above_limit, close_collection_resources, closing, collect, collect_body, collect_resolved,
  collect_targets, collect_with, explicit_output, idle, resolve, resolved_context,
}
use ch_diag.Collector.Lifecycle.Release.{close_collection_resources-reports}
use ch_diag.Collector.Lifecycle.Yields.{
  IsReached, Told, Tunnelled, Yields, Yields->>=, Yields-add_hostname, Yields-collect_targets,
  Yields-connect_database_if, Yields-connect_transport, Yields-resolve, Yields-value_error,
}
use ch_diag.Collector.Services.{Call, raised, returned}
use ch_diag.Content.{Content}
use ch_diag.Planner.Requirements.{Requirements, RunMode, collection_requirements, requires_database}
use ch_diag.Prelude.{Bool, List, Option, String, arith, false, refl, true, ◌&&◌, ◌++◌, ◌≡◌, ◌≤◌}
use ch_diag.Prelude.Lists.{All, All-append, length}
use ch_diag.Prelude.Results.{Result, err, ok}
use ch_diag.Prelude.Tests.{ltb}

module _ (env : Environment) (o : Options) where
  -- as many artifacts as the policy and the output paths allow
  abbrev pub IsBounded : List Artifact → Type 0
  IsBounded xs = (length xs ≤ o.max_cluster_targets) × (o.has_output_path ≡ true → length xs ≤ 1)

  Yields-collect_resolved :
      (c : Context) (ts : List DatabaseTarget)
      → Told env o c
      → Yields env o IsBounded (collect_resolved env o c ts)
  unfolding collect_resolved
  Yields-collect_resolved c ts t =
      Yields->>= env o (λ _. ltb o.max_cluster_targets (length ts) ≡ false) IsBounded
        (value_error (ltb o.max_cluster_targets (length ts)) above_limit)
        (λ _. value_error (ltb 1 (length ts) && o.has_output_path) explicit_output >> collected_all)
        (Yields-value_error env o (ltb o.max_cluster_targets (length ts)) above_limit)
        (λ _ g.
          Yields->>= env o (λ _. (ltb 1 (length ts) && o.has_output_path) ≡ false) IsBounded
            (value_error (ltb 1 (length ts) && o.has_output_path) explicit_output)
            (λ _. collected_all)
            (Yields-value_error env o (ltb 1 (length ts) && o.has_output_path) explicit_output)
            (λ _ k. record {
              yields = λ s h.
                  let (kept, same) =
                    (Yields-collect_targets env o (resolved_context o c ts) ts t).yields s h in
                  (kept, λ xs e. bounded xs (same xs e) g k);
            }))
    where
      collected_all : Step (List Artifact)
      collected_all = collect_targets env (resolved_context o c ts) ts

      bounded :
          (xs : List Artifact)
          → length xs ≡ length ts
          → ltb o.max_cluster_targets (length ts) ≡ false
          → (ltb 1 (length ts) && o.has_output_path) ≡ false
          → IsBounded xs
      bounded xs e g k = (ground arith, λ p. ground arith)

  Yields-collect_body : (r : Requirements) → Yields env o IsBounded (collect_body env o r)
  unfolding collect_body
  Yields-collect_body r =
      Yields->>= env o (Tunnelled env o r o.collection_mode) IsBounded
        (connect_transport env o r o.collection_mode) database
        (Yields-connect_transport env o r o.collection_mode)
        (λ x q.
          Yields->>= env o (Told env o) IsBounded
            (connect_database_if (requires_database r) env o (first_context o r) x.1) (context x.0)
            (Yields-connect_database_if env o (requires_database r) (first_context o r) x.1 refl
              (λ d m. q m d))
            (λ c t.
              Yields->>= env o (Told env o) IsBounded (add_hostname x.0 env c) named
                (Yields-add_hostname env o x.0 c t)
                (λ n u.
                  Yields->>= env o (λ _. Unit) IsBounded (resolve env o) (collect_resolved env o n)
                    (Yields-resolve env o) (λ ts _. Yields-collect_resolved n ts u))))
    where
      named : Context → Step (List Artifact)
      named n = resolve env o >>= collect_resolved env o n

      context : Bool → Context → Step (List Artifact)
      context b c = add_hostname b env c >>= named

      database : Bool × Endpoint → Step (List Artifact)
      database x =
          connect_database_if (requires_database r) env o (first_context o r) x.1 >>= context x.0

  closing-IsReached :
      (a b : Bool) (c d : Call (Unit {0}))
      → All (IsReached env o) ((closing a adapter_closed c).0 ++ (closing b ssh_closed d).0)
  closing-IsReached false false c d = tt
  closing-IsReached false true c (returned _) = (tt, tt)
  closing-IsReached false true c (raised _) = (tt, tt)
  closing-IsReached true false (returned _) d = (tt, tt)
  closing-IsReached true false (raised _) d = (tt, tt)
  closing-IsReached true true (returned _) (returned _) = (tt, (tt, tt))
  closing-IsReached true true (returned _) (raised _) = (tt, (tt, tt))
  closing-IsReached true true (raised _) (returned _) = (tt, (tt, tt))
  closing-IsReached true true (raised _) (raised _) = (tt, (tt, tt))

  collect_with-IsReached :
      (r : Result Requirements)
      → All (IsReached env o) (collect_with env o r).0
        × ((xs : List Artifact) → (collect_with env o r).1 ≡ returned xs → IsBounded xs)
  unfolding collect_with close_collection_resources
  collect_with-IsReached (err e) = (tt, λ xs h. absurd (let x : ⊥ = cc h in x))
  collect_with-IsReached (ok r) =
      let (reached, bounded) = (Yields-collect_body r).yields idle tt in
      let s = (collect_body env o r idle).0 in
      (
        All-append (IsReached env o) s.trace _ reached
            (closing-IsReached s.adapter s.ssh env.close_adapter env.close_ssh),
        λ xs h.
            bounded xs
              ((close_collection_resources-reports env s (collect_body env o r idle).1).1 xs h).0,
      )

  -- Whatever the environment answers, in remote mode every adapter that `_collect` builds is
  -- connected to the end that the tunnel to the configured endpoint returned, never to the endpoint
  -- itself; and every target is collected with a runtime context that names the configured endpoint.
  pub collect-IsReached :
      (content : Content) (mode : RunMode) (item_ids tags : Option (List String))
      → All (IsReached env o) (collect env o content mode item_ids tags).0
  unfolding collect
  collect-IsReached content mode item_ids tags =
      (collect_with-IsReached
        (collection_requirements content mode o.collection_mode o.target_scope item_ids tags)).0

  -- Where `_collect` returns artifacts, they are no more than the limit on the targets, and at most
  -- one where an output path is given.
  pub collect-IsBounded :
      (content : Content) (mode : RunMode) (item_ids tags : Option (List String))
      (artifacts : List Artifact)
      → (collect env o content mode item_ids tags).1 ≡ returned artifacts
      → IsBounded artifacts
  unfolding collect
  collect-IsBounded content mode item_ids tags artifacts =
      (collect_with-IsReached
          (collection_requirements content mode o.collection_mode o.target_scope item_ids tags)).1
        artifacts
