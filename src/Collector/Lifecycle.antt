-- ===== src/Collector/Lifecycle.antt =====
-- The connections that `_collect` of ch_diag/collector.py opens, in the order of the calls. What they
-- answer is an argument; a run leaves a trace of what it opened, collected and closed.
pub mod Opens
pub mod Run
pub mod Tracked
pub mod Moves
pub mod Release
pub mod Yields
pub mod Reach
pub mod Tests
use ch_diag.Artifact.{Artifact}
use ch_diag.Collector.Services.{Call, exception, raised, returned}
use ch_diag.Planner.Requirements.{
  CollectionMode, Requirements, Scope, Target, local, remote, remote_db_only, requires_database,
  requires_host, requires_ssh, targets,
}
use ch_diag.Prelude.{
  Bool, List, Option, String, [], false, none, not, some, true, ℕ, ◌&&◌, ◌++◌, ◌∷◌,
}
use ch_diag.Prelude.Tests.{if◌then◌else◌}

pub record Endpoint : Type 0 where
  pub address : String
  pub port : ℕ

pub record DatabaseTarget : Type 0 where
  pub scope : Scope
  pub cluster_name : Option String

-- `runtime_context`
pub record Context : Type 0 where
  pub transport_targets : List Target
  pub database_connected : Bool
  pub server_version : Option String
  pub database_endpoint : Endpoint
  pub host_collection_hostname : Option String
  pub resolved_target_count : ℕ
  pub target_selector : Option String

-- the arguments of `_collect`; of the output paths, whether one is given
pub record Options : Type 0 where
  pub collection_mode : CollectionMode
  pub target_scope : Scope
  pub cluster_name : Option String
  pub has_ssh_config : Bool
  pub endpoint : Endpoint
  pub max_cluster_targets : ℕ
  pub has_output_path : Bool

-- what the session, the adapter and `_collect_target` answer
pub record Environment : Type 0 where
  pub connect : Call (Unit {0})
  pub open_tunnel : Endpoint → Call Endpoint
  pub adapter_factory : Option (Endpoint → Call (Unit {0}))
  pub detect_runtime_context : Call (Context → Context)
  pub hostname : Call String
  pub resolve_targets : Scope → Option String → Call (List DatabaseTarget)
  pub collect_target : Context → DatabaseTarget → Call Artifact
  pub close_adapter : Call (Unit {0})
  pub close_ssh : Call (Unit {0})

pub data Event : Type 0 where
  ssh_opened ssh_closed adapter_closed : Event
  adapter_opened : Endpoint → Event
  collected : Context → DatabaseTarget → Event

-- the variables `ssh` and `adapter`, as far as they are `None`, and the trace
pub record Opened : Type 0 where
  pub ssh : Bool
  pub adapter : Bool
  pub trace : List Event

abbrev pub Step {ℓ} : Type ℓ → Type ℓ
Step A = Opened → Opened × Call A

abbrev pub continue {ℓ κ} :
    {A : Type ℓ} {B : Type κ} → Opened × Call A → (A → Step B) → Opened × Call B
continue (s, returned a) k = k a s
continue (s, raised e) k = (s, raised e)

infixl 5 ◌>>=◌ ◌>>◌
abbrev pub ◌>>=◌ {ℓ κ} : {A : Type ℓ} {B : Type κ} → Step A → (A → Step B) → Step B
(m >>= k) s = continue (m s) k

abbrev pub ◌>>◌ {ℓ} : {B : Type ℓ} → Step (Unit {0}) → Step B → Step B
m >> k = m >>= λ _. k

abbrev pub pure {ℓ} : {A : Type ℓ} → A → Step A
pure a s = (s, returned a)

-- a call that changes none of the variables
abbrev pub await {ℓ} : {A : Type ℓ} → Call A → Step A
await c s = (s, c)

abbrev pub value_error : Bool → String → Step (Unit {0})
value_error b m = await (if b then raised (exception "ValueError" m) else returned tt)

abbrev pub after {ℓ} : {A : Type ℓ} → Call A → Opened → Opened → Opened × Call A
after (returned a) done s = (done, returned a)
after (raised e) done s = (s, raised e)

-- `ssh = await SshSession.connect(ssh_config)`
unfoldable pub open_ssh : Environment → Step (Unit {0})
open_ssh env s = after env.connect (record s { ssh = true; trace = s.trace ++ (ssh_opened ∷ []) }) s

-- `adapter = adapter_factory(effective_connection, policy)`
unfoldable pub open_adapter : Environment → Endpoint → Step (Unit {0})
open_adapter env e s = elim env.adapter_factory [
  | none ↦ (s, raised (exception "ValueError" "database adapter factory is required"))
  | some build ↦
      after (build e) (record s { adapter = true; trace = s.trace ++ (adapter_opened e ∷ []) }) s
]

abbrev pub assert_ssh : Step (Unit {0})
assert_ssh s = (s, if s.ssh then returned tt else raised (exception "AssertionError" ""))

abbrev pub options_missing : String
options_missing = "remote collection requires SSH options"

abbrev pub options_unexpected : String
options_unexpected = "SSH options are only valid in remote collection mode"

-- `if requirements.requires_ssh(collection_mode): ssh = ...`
abbrev pub open_ssh_if : Bool → Environment → Step (Unit {0})
open_ssh_if true env = open_ssh env
open_ssh_if false env = pure tt

-- `if requirements.requires_database: ... open_tunnel(...)`
abbrev pub open_tunnel_if : Bool → Environment → Endpoint → Step Endpoint
open_tunnel_if true env e = assert_ssh >> await (env.open_tunnel e)
open_tunnel_if false env e = pure e

-- the branches on the collection mode: whether there is a host runner, and the effective connection
unfoldable pub connect_remote : Environment → Options → Requirements → Step (Bool × Endpoint)
unfolding open_ssh requires_ssh requires_database
connect_remote env o r = do
  value_error (requires_ssh remote r && not o.has_ssh_config) options_missing
  open_ssh_if (requires_ssh remote r) env
  e ← open_tunnel_if (requires_database r) env o.endpoint
  pure (requires_ssh remote r, e)

unfoldable pub connect_transport :
    Environment → Options → Requirements → CollectionMode → Step (Bool × Endpoint)
unfolding connect_remote requires_host
connect_transport env o r remote = connect_remote env o r
connect_transport env o r local = do
  value_error o.has_ssh_config options_unexpected
  pure (requires_host r, o.endpoint)
connect_transport env o r remote_db_only = do
  value_error o.has_ssh_config options_unexpected
  pure (false, o.endpoint)

abbrev pub first_context : Options → Requirements → Context
first_context o r = record {
  transport_targets = targets r;
  database_connected = requires_database r;
  server_version = none;
  database_endpoint = o.endpoint;
  host_collection_hostname = none;
  resolved_target_count = 0;
  target_selector = none;
}

-- `if requirements.requires_database:`
abbrev pub connect_database_if : Bool → Environment → Options → Context → Endpoint → Step Context
connect_database_if false env o c e = pure c
connect_database_if true env o c e = do
  open_adapter env e
  update ← await env.detect_runtime_context
  pure (record (update c) { database_endpoint = o.endpoint })

-- `if host_runner is not None:`
abbrev pub add_hostname : Bool → Environment → Context → Step Context
add_hostname false env c = pure c
add_hostname true env c = do
  h ← await env.hostname
  pure (record c { host_collection_hostname = some h })
