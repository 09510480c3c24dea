-- ===== src/Collector/Lifecycle/Yields.antt =====
-- What the steps of `_collect` return, and what they add to the trace: the connections and the
-- contexts.
use ch_diag.Collector.Lifecycle.{
  Context, DatabaseTarget, Endpoint, Environment, Event, Opened, Options, Step, adapter_opened,
  add_hostname, after, assert_ssh, await, collected, connect_database_if, connect_remote,
  connect_transport, continue, open_adapter, open_ssh, open_ssh_if, open_tunnel_if, options_missing,
  options_unexpected, pure, ssh_opened, value_error, ◌>>=◌, ◌>>◌,
}
use ch_diag.Collector.Lifecycle.Run.{collect_one, collect_targets, resolve}
use ch_diag.Collector.Services.{Call, raised, returned}
use ch_diag.Planner.Requirements.{
  CollectionMode, Requirements, local, remote, remote_db_only, requires_database, requires_host,
  requires_ssh,
}
use ch_diag.Prelude.{
  Bool, List, String, [], arith, false, inl, inr, not, refl, some, subst, suc, true, ◌&&◌, ◌++◌,
  ◌∷◌, ◌≡◌,
}
use ch_diag.Prelude.Lists.{All, All-append, length}
use ch_diag.Prelude.Tests.{Option-cases}

module _ (env : Environment) (o : Options) where
  -- In remote mode an adapter is built for the end of the tunnel, and every collection is told the
  -- endpoint of the configuration, whatever the adapter has reported.
  abbrev pub IsReached : Event → Type 0
  IsReached (adapter_opened e) =
      o.collection_mode ≡ remote → env.open_tunnel o.endpoint ≡ returned e
  IsReached (collected c d) = c.database_endpoint ≡ o.endpoint
  IsReached _ = Unit

  -- the step keeps the trace good, and what it returns has `Q`
  pub record Yields {ℓ} {A : Type ℓ} (Q : A → Type 0) (m : Step A) : Type ℓ where
    pub yields :
        (s : Opened)
        → All IsReached s.trace
        → All IsReached (m s).0.trace × ((a : A) → (m s).1 ≡ returned a → Q a)

  module _ {ℓ κ} {A : Type ℓ} {B : Type κ} (Q : A → Type 0) (R : B → Type 0) where
    pub Yields->>= :
        (m : Step A) (k : A → Step B)
        → Yields Q m
        → ((a : A) → Q a → Yields R (k a))
        → Yields R (m >>= k)
    Yields->>= m k f g = record { yields = λ s h. by_call s h (m s) refl }
      where
        by_call :
            (s : Opened) (h : All IsReached s.trace) (x : Opened × Call A)
            → m s ≡ x
            → All IsReached (continue x k).0.trace × ((b : B) → (continue x k).1 ≡ returned b → R b)
        by_call s h (t, returned a) e =
            (g a ((f.yields s h).1 a (let done : (m s).1 ≡ returned a = cc e in done))).yields t (
              let moved : (m s).0 ≡ t = cc e in
              subst (λ u. All IsReached u.trace) moved (f.yields s h).0)
        by_call s h (t, raised x) e = (
          (let moved : (m s).0 ≡ t = cc e in
              subst (λ u. All IsReached u.trace) moved (f.yields s h).0),
          λ b done. cc done,
        )

  module _ {ℓ} {A : Type ℓ} (Q : A → Type 0) where
    Yields-await : (c : Call A) → ((a : A) → c ≡ returned a → Q a) → Yields Q (await c)
    Yields-await c f = record { yields = λ s h. (h, f) }

    Yields-pure : (a : A) → Q a → Yields Q (pure a)
    Yields-pure a q = record { yields = λ s h. (h, λ b e. subst Q (returned-inj e) q) }
      where
        returned-inj : {b : A} → returned a ≡ returned b → a ≡ b
        returned-inj e = cc e

  -- a guard that returns was not hit
  pub Yields-value_error : (b : Bool) (m : String) → Yields (λ _. b ≡ false) (value_error b m)
  Yields-value_error true m =
      Yields-await (λ _. true ≡ false) _ (λ a e. absurd (let x : ⊥ = cc e in x))
  Yields-value_error false m = Yields-await (λ _. false ≡ false) (returned tt) (λ a e. refl)

  added :
      (s : Opened) (e : Event)
      → All IsReached s.trace
      → IsReached e
      → All IsReached (s.trace ++ (e ∷ []))
  added s e h g = All-append IsReached s.trace (e ∷ []) h (g, tt)

  after-yields :
      (c : Call (Unit {0})) (done s : Opened)
      → All IsReached s.trace
      → All IsReached done.trace
      → All IsReached (after c done s).0.trace
  after-yields (returned a) done s h k = k
  after-yields (raised x) done s h k = h

  Yields-open_ssh : Yields (λ _. Unit) (open_ssh env)
  unfolding open_ssh
  Yields-open_ssh = record {
    yields = λ s h. (after-yields env.connect _ s h (added s ssh_opened h tt), λ a e. tt);
  }

  Yields-open_adapter :
      (e : Endpoint)
      → (o.collection_mode ≡ remote → env.open_tunnel o.endpoint ≡ returned e)
      → Yields (λ _. Unit) (open_adapter env e)
  unfolding open_adapter
  Yields-open_adapter e g = record {
    yields = λ s h. elim (Option-cases env.adapter_factory) [
      | inl n ↦ rw n (h, λ a x. tt)
      | inr (build, n) ↦
          rw n (after-yields (build e) _ s h (added s (adapter_opened e) h g), λ a x. tt)
    ];
  }

  -- the effective connection, where the adapter needs one
  abbrev pub Tunnelled : Requirements → CollectionMode → Bool × Endpoint → Type 0
  Tunnelled r mode x =
      mode ≡ remote → requires_database r ≡ true → env.open_tunnel o.endpoint ≡ returned x.1

  Yields-open_tunnel_if :
      (b : Bool)
      → Yields
          (λ e. b ≡ true → env.open_tunnel o.endpoint ≡ returned e)
          (open_tunnel_if b env o.endpoint)
  Yields-open_tunnel_if false =
      Yields-pure (λ e. false ≡ true → env.open_tunnel o.endpoint ≡ returned e) o.endpoint
        (λ e. absurd (let x : ⊥ = cc e in x))
  Yields-open_tunnel_if true =
      Yields->>= (λ _. Unit) (λ e. true ≡ true → env.open_tunnel o.endpoint ≡ returned e) assert_ssh
        (λ _. await (env.open_tunnel o.endpoint)) (record { yields = λ s h. (h, λ a e. tt) })
        (λ _ _.
          Yields-await (λ e. true ≡ true → env.open_tunnel o.endpoint ≡ returned e)
            (env.open_tunnel o.endpoint) (λ a e _. e))

  Yields-open_ssh_if : (b : Bool) → Yields (λ _. Unit) (open_ssh_if b env)
  Yields-open_ssh_if true = Yields-open_ssh
  Yields-open_ssh_if false = Yields-pure (λ _. Unit) tt tt

  Yields-connect_remote : (r : Requirements) → Yields (Tunnelled r remote) (connect_remote env o r)
  unfolding connect_remote
  Yields-connect_remote r =
      Yields->>= (λ _. (requires_ssh remote r && not o.has_ssh_config) ≡ false) (Tunnelled r remote)
        (value_error (requires_ssh remote r && not o.has_ssh_config) options_missing)
        (λ _. open_ssh_if (requires_ssh remote r) env >> tunnel)
        (Yields-value_error (requires_ssh remote r && not o.has_ssh_config) options_missing)
        (λ _ _.
          Yields->>= (λ _. Unit) (Tunnelled r remote) (open_ssh_if (requires_ssh remote r) env)
            (λ _. tunnel) (Yields-open_ssh_if (requires_ssh remote r)) (λ _ _. tunnel-Yields))
    where
      tunnel : Step (Bool × Endpoint)
      tunnel = open_tunnel_if (requires_database r) env o.endpoint >>= λ e.
          pure (requires_ssh remote r, e)

      tunnel-Yields : Yields (Tunnelled r remote) tunnel
      tunnel-Yields =
          Yields->>= (λ e. requires_database r ≡ true → env.open_tunnel o.endpoint ≡ returned e)
            (Tunnelled r remote) (open_tunnel_if (requires_database r) env o.endpoint)
            (λ e. pure (requires_ssh remote r, e)) (Yields-open_tunnel_if (requires_database r))
            (λ e q. Yields-pure (Tunnelled r remote) (requires_ssh remote r, e) (λ _ d. q d))

  Yields-no_transport :
      (r : Requirements) (mode : CollectionMode) (x : Bool × Endpoint)
      → (mode ≡ remote → ⊥)
      → Yields (Tunnelled r mode) (value_error o.has_ssh_config options_unexpected >> pure x)
  Yields-no_transport r mode x n =
      Yields->>= (λ _. o.has_ssh_config ≡ false) (Tunnelled r mode)
        (value_error o.has_ssh_config options_unexpected) (λ _. pure x)
        (Yields-value_error o.has_ssh_config options_unexpected)
        (λ _ _. Yields-pure (Tunnelled r mode) x (λ e. absurd (n e)))

  pub Yields-connect_transport :
      (r : Requirements) (mode : CollectionMode)
      → Yields (Tunnelled r mode) (connect_transport env o r mode)
  unfolding connect_transport
  Yields-connect_transport r remote = Yields-connect_remote r
  Yields-connect_transport r local =
      Yields-no_transport r local (requires_host r, o.endpoint) (λ e. let x : ⊥ = cc e in x)
  Yields-connect_transport r remote_db_only =
      Yields-no_transport r remote_db_only (false, o.endpoint) (λ e. let x : ⊥ = cc e in x)

  abbrev pub Told : Context → Type 0
  Told c = c.database_endpoint ≡ o.endpoint

  pub Yields-connect_database_if :
      (b : Bool) (c : Context) (e : Endpoint)
      → Told c
      → (b ≡ true → o.collection_mode ≡ remote → env.open_tunnel o.endpoint ≡ returned e)
      → Yields Told (connect_database_if b env o c e)
  Yields-connect_database_if false c e t g = Yields-pure Told c t
  Yields-connect_database_if true c e t g =
      Yields->>= (λ _. Unit) Told (open_adapter env e) (λ _. detect)
        (Yields-open_adapter e (g refl))
        (λ _ _.
          Yields->>= (λ _. Unit) Told (await env.detect_runtime_context) updated
            (Yields-await (λ _. Unit) env.detect_runtime_context (λ a x. tt))
            (λ update _.
              Yields-pure Told (record (update c) { database_endpoint = o.endpoint }) refl))
    where
      updated : (Context → Context) → Step Context
      updated update = pure (record (update c) { database_endpoint = o.endpoint })

      detect : Step Context
      detect = await env.detect_runtime_context >>= updated

  pub Yields-add_hostname : (b : Bool) (c : Context) → Told c → Yields Told (add_hostname b env c)
  Yields-add_hostname false c t = Yields-pure Told c t
  Yields-add_hostname true c t =
      Yields->>= (λ _. Unit) Told (await env.hostname)
        (λ h. pure (record c { host_collection_hostname = some h }))
        (Yields-await (λ _. Unit) env.hostname (λ a x. tt))
        (λ h _. Yields-pure Told (record c { host_collection_hostname = some h }) t)

  pub Yields-resolve : Yields (λ _. Unit) (resolve env o)
  unfolding resolve
  Yields-resolve = record { yields = λ s h. (h, λ a e. tt) }

  pub Yields-collect_targets :
      (c : Context) (ts : List DatabaseTarget)
      → Told c
      → Yields (λ xs. length xs ≡ length ts) (collect_targets env c ts)
  unfolding collect_targets
  Yields-collect_targets c [] t = Yields-pure (λ xs. length xs ≡ 0) [] refl
  Yields-collect_targets c (d ∷ ts) t =
      Yields->>= (λ _. Unit) (λ xs. length xs ≡ suc (length ts)) (collect_one env c d)
        (λ a. collect_targets env c ts >>= λ others. pure (a ∷ others))
        (record { yields = λ s h. (added s (collected c d) h t, λ a e. tt) })
        (λ a _.
          Yields->>= (λ xs. length xs ≡ length ts) (λ xs. length xs ≡ suc (length ts))
            (collect_targets env c ts) (λ others. pure (a ∷ others)) (Yields-collect_targets c ts t)
            (λ others e.
              Yields-pure (λ xs. length xs ≡ suc (length ts)) (a ∷ others) (omega (arith, e))))
