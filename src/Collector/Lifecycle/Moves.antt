-- ===== src/Collector/Lifecycle/Moves.antt =====
-- What the body of `_collect` does to the variables `ssh` and `adapter`: each is set at most once,
-- by the step that opens the resource.
use ch_diag.Artifact.{Artifact}
use ch_diag.Collector.Lifecycle.{
  Context, DatabaseTarget, Endpoint, Environment, Opened, Options, Step, add_hostname, assert_ssh,
  await, connect_database_if, connect_remote, connect_transport, first_context, open_adapter,
  open_ssh_if, open_tunnel_if, options_missing, options_unexpected, pure, value_error, ◌>>=◌, ◌>>◌,
}
use ch_diag.Collector.Lifecycle.Run.{
  above_limit, collect_body, collect_one, collect_resolved, collect_targets, explicit_output,
  resolve, resolved_context,
}
use ch_diag.Collector.Lifecycle.Tracked.{IsTracked, collected-IsTracked}
use ch_diag.Planner.Requirements.{
  CollectionMode, Requirements, local, remote, remote_db_only, requires_database, requires_host,
  requires_ssh,
}
use ch_diag.Prelude.{Bool, List, String, [], false, not, some, true, ◌&&◌, ◌∷◌}
use ch_diag.Prelude.Lists.{length}
use ch_diag.Prelude.Tests.{ltb}
use ch_diag.Collector.Lifecycle.Opens.{
  Moves, Fresh, NoAdapter, Moves-open_ssh, Moves-open_adapter, Moves->>=, Moves-await, Moves-pure,
}

Moves-collect_one :
    (env : Environment) (c : Context) (d : DatabaseTarget)
    → Moves IsTracked (collect_one env c d) IsTracked
Moves-collect_one env c d = record {
  moves = λ s t. (collected-IsTracked s c d t, λ a done. collected-IsTracked s c d t);
}

Moves-collect_targets :
    (env : Environment) (c : Context) (ts : List DatabaseTarget)
    → Moves IsTracked (collect_targets env c ts) IsTracked
unfolding collect_targets
Moves-collect_targets env c [] = Moves-pure IsTracked (λ s t. t) []
Moves-collect_targets env c (d ∷ ts) =
    Moves->>= IsTracked IsTracked IsTracked (collect_one env c d) _ (Moves-collect_one env c d)
      (λ a.
        Moves->>= IsTracked IsTracked IsTracked (collect_targets env c ts) _
          (Moves-collect_targets env c ts) (λ others. Moves-pure IsTracked (λ s t. t) _))

-- a guard
module _ {ℓ} {A : Type ℓ} (P Q : Opened → Type 0) (h : (s : Opened) → P s → IsTracked s) where
  Moves-value_error :
      (b : Bool) (m : String) (k : Step A) → Moves P k Q → Moves P (value_error b m >> k) Q
  Moves-value_error b m k f =
      Moves->>= P P Q (value_error b m) (λ _. k) (Moves-await P h _) (λ _. f)

Moves-collect_resolved :
    (env : Environment) (o : Options) (c : Context) (ts : List DatabaseTarget)
    → Moves IsTracked (collect_resolved env o c ts) IsTracked
unfolding collect_resolved
Moves-collect_resolved env o c ts =
    Moves-value_error IsTracked IsTracked (λ s t. t) (ltb o.max_cluster_targets (length ts))
      above_limit
      (value_error (ltb 1 (length ts) && o.has_output_path) explicit_output
        >> collect_targets env (resolved_context o c ts) ts)
      (Moves-value_error IsTracked IsTracked (λ s t. t) (ltb 1 (length ts) && o.has_output_path)
        explicit_output (collect_targets env (resolved_context o c ts) ts)
        (Moves-collect_targets env (resolved_context o c ts) ts))

-- the stages follow from one another
module _ {ℓ} {A : Type ℓ} (P Q R : Opened → Type 0) where
  Moves-mono : (m : Step A) → ((s : Opened) → P s → Q s) → Moves Q m R → Moves P m R
  Moves-mono m w f = record { moves = λ s p. f.moves s (w s p) }

abbrev no_adapter : (s : Opened) → Fresh s → NoAdapter s
no_adapter s h = (h.0, h.2)

abbrev tracked : (s : Opened) → NoAdapter s → IsTracked s
tracked s h = h.0

Moves-assert_ssh : Moves NoAdapter assert_ssh NoAdapter
Moves-assert_ssh = record { moves = λ s h. (h.0, λ a done. h) }

Moves-open_ssh_if : (b : Bool) (env : Environment) → Moves Fresh (open_ssh_if b env) NoAdapter
Moves-open_ssh_if true env = Moves-open_ssh env
Moves-open_ssh_if false env =
    Moves-mono Fresh NoAdapter NoAdapter (pure tt) no_adapter (Moves-pure NoAdapter tracked tt)

Moves-open_tunnel_if :
    (b : Bool) (env : Environment) (e : Endpoint)
    → Moves NoAdapter (open_tunnel_if b env e) NoAdapter
Moves-open_tunnel_if false env e = Moves-pure NoAdapter tracked e
Moves-open_tunnel_if true env e =
    Moves->>= NoAdapter NoAdapter NoAdapter assert_ssh (λ _. await (env.open_tunnel e))
      Moves-assert_ssh (λ _. Moves-await NoAdapter tracked (env.open_tunnel e))

Moves-connect_remote :
    (env : Environment) (o : Options) (r : Requirements)
    → Moves Fresh (connect_remote env o r) NoAdapter
unfolding connect_remote
Moves-connect_remote env o r =
    Moves-value_error Fresh NoAdapter (λ s h. h.0) (requires_ssh remote r && not o.has_ssh_config)
      options_missing (open_ssh_if (requires_ssh remote r) env >> tunnel)
      (Moves->>= Fresh NoAdapter NoAdapter (open_ssh_if (requires_ssh remote r) env) (λ _. tunnel)
        (Moves-open_ssh_if (requires_ssh remote r) env)
        (λ _.
          Moves->>= NoAdapter NoAdapter NoAdapter
            (open_tunnel_if (requires_database r) env o.endpoint)
            (λ e. pure (requires_ssh remote r, e))
            (Moves-open_tunnel_if (requires_database r) env o.endpoint)
            (λ e. Moves-pure NoAdapter tracked (requires_ssh remote r, e))))
  where
    tunnel : Step (Bool × Endpoint)
    tunnel =
        open_tunnel_if (requires_database r) env o.endpoint >>= λ e. pure (requires_ssh remote r, e)

Moves-connect_transport :
    (env : Environment) (o : Options) (r : Requirements) (mode : CollectionMode)
    → Moves Fresh (connect_transport env o r mode) NoAdapter
unfolding connect_transport
Moves-connect_transport env o r remote = Moves-connect_remote env o r
Moves-connect_transport env o r local = no_transport (requires_host r, o.endpoint)
  where
    no_transport :
        (x : Bool × Endpoint)
        → Moves Fresh (value_error o.has_ssh_config options_unexpected >> pure x) NoAdapter
    no_transport x =
        Moves-value_error Fresh NoAdapter (λ s h. h.0) o.has_ssh_config options_unexpected (pure x)
          (Moves-mono Fresh NoAdapter NoAdapter (pure x) no_adapter
            (Moves-pure NoAdapter tracked x))
Moves-connect_transport env o r remote_db_only =
    Moves-value_error Fresh NoAdapter (λ s h. h.0) o.has_ssh_config options_unexpected
      (pure (false, o.endpoint))
      (Moves-mono Fresh NoAdapter NoAdapter (pure (false, o.endpoint)) no_adapter
        (Moves-pure NoAdapter tracked (false, o.endpoint)))

Moves-connect_database_if :
    (b : Bool) (env : Environment) (o : Options) (c : Context) (e : Endpoint)
    → Moves NoAdapter (connect_database_if b env o c e) IsTracked
Moves-connect_database_if false env o c e =
    Moves-mono NoAdapter IsTracked IsTracked (pure c) tracked (Moves-pure IsTracked (λ s t. t) c)
Moves-connect_database_if true env o c e =
    Moves->>= NoAdapter IsTracked IsTracked (open_adapter env e) (λ _. detect)
      (Moves-open_adapter env e)
      (λ _.
        Moves->>= IsTracked IsTracked IsTracked (await env.detect_runtime_context) updated
          (Moves-await IsTracked (λ s t. t) env.detect_runtime_context)
          (λ update.
            Moves-pure IsTracked (λ s t. t) (record (update c) { database_endpoint = o.endpoint })))
  where
    updated : (Context → Context) → Step Context
    updated update = pure (record (update c) { database_endpoint = o.endpoint })

    detect : Step Context
    detect = await env.detect_runtime_context >>= updated

Moves-add_hostname :
    (b : Bool) (env : Environment) (c : Context) → Moves IsTracked (add_hostname b env c) IsTracked
Moves-add_hostname false env c = Moves-pure IsTracked (λ s t. t) c
Moves-add_hostname true env c =
    Moves->>= IsTracked IsTracked IsTracked (await env.hostname)
      (λ h. pure (record c { host_collection_hostname = some h }))
      (Moves-await IsTracked (λ s t. t) env.hostname)
      (λ h. Moves-pure IsTracked (λ s t. t) (record c { host_collection_hostname = some h }))

Moves-resolve : (env : Environment) (o : Options) → Moves IsTracked (resolve env o) IsTracked
unfolding resolve
Moves-resolve env o = record { moves = λ s t. (t, λ a done. t) }

pub Moves-collect_body :
    (env : Environment) (o : Options) (r : Requirements)
    → Moves Fresh (collect_body env o r) IsTracked
unfolding collect_body
Moves-collect_body env o r =
    Moves->>= Fresh NoAdapter IsTracked (connect_transport env o r o.collection_mode) database
      (Moves-connect_transport env o r o.collection_mode)
      (λ x.
        Moves->>= NoAdapter IsTracked IsTracked
          (connect_database_if (requires_database r) env o (first_context o r) x.1) (context x.0)
          (Moves-connect_database_if (requires_database r) env o (first_context o r) x.1)
          (λ c.
            Moves->>= IsTracked IsTracked IsTracked (add_hostname x.0 env c) named
              (Moves-add_hostname x.0 env c)
              (λ n.
                Moves->>= IsTracked IsTracked IsTracked (resolve env o) (collect_resolved env o n)
                  (Moves-resolve env o) (Moves-collect_resolved env o n))))
  where
    named : Context → Step (List Artifact)
    named n = resolve env o >>= collect_resolved env o n

    context : Bool → Context → Step (List Artifact)
    context b c = add_hostname b env c >>= named

    database : Bool × Endpoint → Step (List Artifact)
    database x =
        connect_database_if (requires_database r) env o (first_context o r) x.1 >>= context x.0
