-- ===== src/Collector/Lifecycle/Run.antt =====
-- `_collect` and `_close_collection_resources` of ch_diag/collector.py: the targets and what is
-- closed at the end, after the connections are open.
use ch_diag.Artifact.{Artifact}
use ch_diag.Collector.Lifecycle.{
  Context, DatabaseTarget, Environment, Event, Opened, Options, Step, adapter_closed, add_hostname,
  collected, connect_database_if, connect_transport, first_context, pure, ssh_closed, value_error,
  ◌>>=◌, ◌>>◌,
}
use ch_diag.Collector.Services.{Call, Exception, exception, raised, returned}
use ch_diag.Content.{Content}
use ch_diag.Planner.Requirements.{
  Requirements, RunMode, collection_requirements, node, requires_database,
}
use ch_diag.Prelude.{Bool, List, Option, String, [], false, none, true, ◌&&◌, ◌++◌, ◌∷◌}
use ch_diag.Prelude.Lists.{length}
use ch_diag.Prelude.Results.{Result, err, ok}
use ch_diag.Prelude.Tests.{if◌then◌else◌, ltb}

unfoldable pub resolve : Environment → Options → Step (List DatabaseTarget)
resolve env o s = (
  s,
  if s.adapter
      then env.resolve_targets o.target_scope o.cluster_name
      else returned (record { scope = node; cluster_name = none } ∷ []),
)

abbrev pub collect_one : Environment → Context → DatabaseTarget → Step Artifact
collect_one env c t s =
    (record s { trace = s.trace ++ (collected c t ∷ []) }, env.collect_target c t)

-- the loop over the targets
unfoldable pub collect_targets : Environment → Context → List DatabaseTarget → Step (List Artifact)
collect_targets env c [] = pure []
collect_targets env c (t ∷ ts) = do
  a ← collect_one env c t
  others ← collect_targets env c ts
  pure (a ∷ others)

abbrev pub above_limit : String
above_limit = "database target selection is above limit"

abbrev pub explicit_output : String
explicit_output = "explicit --json-out/--html-out cannot be combined with cluster-name=ALL"

abbrev pub resolved_context : Options → Context → List DatabaseTarget → Context
resolved_context o c ts = record c {
  resolved_target_count = length ts;
  target_selector = o.cluster_name;
}

-- from the guards on the number of targets on
unfoldable pub collect_resolved :
    Environment → Options → Context → List DatabaseTarget → Step (List Artifact)
unfolding collect_targets
collect_resolved env o c ts = do
  value_error (ltb o.max_cluster_targets (length ts)) above_limit
  value_error (ltb 1 (length ts) && o.has_output_path) explicit_output
  collect_targets env (resolved_context o c ts) ts

-- the body of the `try`
unfoldable pub collect_body : Environment → Options → Requirements → Step (List Artifact)
unfolding connect_transport resolve collect_resolved
collect_body env o r = do
  transport ← connect_transport env o r o.collection_mode
  c ← connect_database_if (requires_database r) env o (first_context o r) transport.1
  named ← add_hostname transport.0 env c
  ts ← resolve env o
  collect_resolved env o named ts

-- one turn of the loop over the resources: the event and the exceptions
abbrev pub closing : Bool → Event → Call (Unit {0}) → List Event × List Exception
closing false e c = ([], [])
closing true e (returned _) = (e ∷ [], [])
closing true e (raised x) = (e ∷ [], x ∷ [])

abbrev pub first_error {ℓ} : {A : Type ℓ} → List Exception → A → Call A
first_error [] a = returned a
first_error (x ∷ xs) a = raised x

-- an exception of the body is not replaced
abbrev pub settle {ℓ} : {A : Type ℓ} → List Exception → Call A → Call A
settle xs (returned a) = first_error xs a
settle xs (raised x) = raised x

-- `_close_collection_resources`, in the `finally`
unfoldable pub close_collection_resources {ℓ} :
    {A : Type ℓ} → Environment → Opened × Call A → List Event × Call A
close_collection_resources env (s, c) =
    let adapter = closing s.adapter adapter_closed env.close_adapter in
    let ssh = closing s.ssh ssh_closed env.close_ssh in
    (s.trace ++ (adapter.0 ++ ssh.0), settle (adapter.1 ++ ssh.1) c)

abbrev pub idle : Opened
idle = record { ssh = false; adapter = false; trace = [] }

-- `_collect` from the requirements on: their exception leaves it before the `try`
unfoldable pub collect_with :
    Environment → Options → Result Requirements → List Event × Call (List Artifact)
unfolding collect_body close_collection_resources
collect_with env o (err e) = ([], raised (exception "ValueError" "collection_requirements"))
collect_with env o (ok r) = close_collection_resources env (collect_body env o r idle)

-- `_collect`
unfoldable pub collect :
    Environment
    → Options
    → Content
    → RunMode
    → Option (List String)
    → Option (List String)
    → List Event × Call (List Artifact)
unfolding collection_requirements collect_with
collect env o content mode item_ids tags =
    collect_with env o
      (collection_requirements content mode o.collection_mode o.target_scope item_ids tags)
