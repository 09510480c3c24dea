-- ===== src/Collector/Lifecycle/Tests.antt =====
-- The theorems of the lifecycle, for a remote collection of two targets whose adapter cannot be
-- closed.
use ch_diag.Artifact.{Artifact}
use ch_diag.Collector.Lifecycle.{
  Endpoint, Environment, Opened, Options, adapter_opened, open_adapter, ssh_opened,
}
use ch_diag.Collector.Lifecycle.Run.{close_collection_resources, collect}
use ch_diag.Collector.Lifecycle.Reach.{collect-IsReached}
use ch_diag.Collector.Lifecycle.Release.{
  Closes, IsReleased, close_collection_resources-reports, collect-IsReleased,
}
use ch_diag.Collector.Lifecycle.Yields.{IsReached}
use ch_diag.Collector.Services.{Exception, exception, raised, returned}
use ch_diag.Collector.Target.{assemble, start}
use ch_diag.Planner.Example.{example_content, example_plan}
use ch_diag.Planner.Requirements.{node, remote, snapshots}
use ch_diag.Prelude.{List, [], false, none, refl, some, true, ◌∷◌, ◌≡◌}
use ch_diag.Prelude.Lists.{All}

abbrev endpoint : Endpoint
endpoint = record { address = "db.example"; port = 8123 }

abbrev tunnel_end : Endpoint
tunnel_end = record { address = "127.0.0.1"; port = 40001 }

abbrev options : Options
options = record {
  collection_mode = remote;
  target_scope = node;
  cluster_name = none;
  has_ssh_config = true;
  endpoint = endpoint;
  max_cluster_targets = 2;
  has_output_path = false;
}

unfoldable example_artifact : Artifact
unfolding assemble example_plan
example_artifact =
    assemble example_plan false (record { state = start; snapshots = 0; diagnostics = [] })

abbrev environment : Environment
environment = record {
  connect = returned tt;
  open_tunnel = λ e. returned tunnel_end;
  adapter_factory = some (λ e. returned tt);
  detect_runtime_context = returned (λ c. record c { database_endpoint = tunnel_end });
  hostname = returned "host";
  resolve_targets = λ s c. returned (
      record { scope = node; cluster_name = some "a" }
      ∷ record { scope = node; cluster_name = some "b" }
      ∷ []);
  collect_target = λ c t. returned example_artifact;
  close_adapter = raised (exception "OSError" "connection reset");
  close_ssh = returned tt;
}

test_closes :
    (collect environment options example_content snapshots none none).1
    ≡ raised (exception "OSError" "connection reset")
unfolding collect open_adapter
test_closes = refl

abbrev closing_environment : Environment
closing_environment = record environment { close_adapter = returned tt }

abbrev artifacts : List Artifact
artifacts = example_artifact ∷ example_artifact ∷ []

abbrev both_open : Opened
both_open = record {
  ssh = true;
  adapter = true;
  trace = ssh_opened ∷ adapter_opened tunnel_end ∷ [];
}

is_returned :
    (collect closing_environment options example_content snapshots none none).1 ≡ returned artifacts
unfolding collect open_adapter
is_returned = refl

collect-IsReleased_example :
    IsReleased (collect environment options example_content snapshots none none).0
collect-IsReleased_example =
    collect-IsReleased environment options example_content snapshots none none

close_collection_resources-reports_example :
    ((x : Exception)
      → returned artifacts ≡ raised x
      → (close_collection_resources closing_environment (both_open, returned artifacts)).1
        ≡ raised x)
    × ((xs : List Artifact)
        → (close_collection_resources closing_environment (both_open, returned artifacts)).1
          ≡ returned xs
        → (returned artifacts ≡ returned xs)
          × Closes true closing_environment.close_adapter
          × Closes true closing_environment.close_ssh)
close_collection_resources-reports_example =
    close_collection_resources-reports closing_environment both_open (returned artifacts)

collect-IsReached_example :
    All
      (IsReached environment options)
      (collect environment options example_content snapshots none none).0
collect-IsReached_example =
    collect-IsReached environment options example_content snapshots none none
