-- ===== src/Planner/Example.antt =====
-- A content pack with an item of each kind, and the plans that are built from it.
use ch_diag.Content.{Content, Item, Query}
use ch_diag.Planner.Build.{ExecutionPlan, build_plan}
use ch_diag.Planner.Requirements.{local, node, one_shot, snapshots}
use ch_diag.Prelude.{[], false, none, refl, some, ◌∷◌, ◌≡◌}
use ch_diag.Prelude.Results.{Result, err, ok}
use ch_diag.Versioning.{Version, parse_lts_branch, version_le}

abbrev pub uptime_query : Query
uptime_query = record {
  title = "Uptime";
  variants =
      record {
        id = "all";
        sql_file = "uptime.sql";
        lts_versions = "22.8" ∷ "23.3" ∷ [];
        scopes = [];
      }
      ∷ [];
  optional = false;
  sensitivity = "";
  row_limit = some 1;
  collection_scope = "node";
}

abbrev pub plain_item : Item
plain_item = record {
  title = "";
  state = "";
  query = "";
  script = "";
  metric = "";
  tags = [];
  fallback_item = "";
  fallback_on = [];
}

abbrev pub example_content : Content
example_content = record {
  sections =
      record {
        section_id = "server";
        title = "Server";
        description = none;
        state = none;
        items =
            (
              "uptime",
              record plain_item {
                query = "q.uptime";
                tags = "Core" ∷ [];
                fallback_item = "uptime_host";
                fallback_on = "timeout" ∷ [];
              },
            )
            ∷ ("load", record plain_item { metric = "m.load" })
            ∷ [];
      }
      ∷ record {
        section_id = "host";
        title = "";
        description = none;
        state = some "collapsed";
        items = ("kernel", record plain_item { script = "s.kernel"; tags = "os" ∷ [] }) ∷ [];
      }
      ∷ [];
  fallback_items =
      ("uptime_host", record { title = "Uptime of the host"; query = "q.uptime"; script = "" })
      ∷ [];
  queries = ("q.uptime", uptime_query) ∷ [];
  scripts = ("s.kernel", record { title = "Kernel"; file = "kernel.sh"; output = "" }) ∷ [];
  metrics =
      (
        "m.load",
        record {
          title = "Load";
          source_query = "";
          source_sampler = "os.load";
          result_kind = "chart";
        },
      )
      ∷ [];
  instructions = [];
  supported_lts_versions = "22.8" ∷ "23.3" ∷ [];
}

abbrev pub example_version : Version
example_version = record { major = 22; minor = 9; patch = 1; revision = 0 }

abbrev pub no_plan : ExecutionPlan
no_plan = record {
  mode = one_shot;
  collection_mode = local;
  target_scope = node;
  server_version = none;
  compatibility_lts_version = none;
  sections = [];
  items = [];
}

abbrev pub or_value {ℓ} : {A : Type ℓ} → Result A → A → A
or_value (ok a) d = a
or_value (err e) d = d

unfoldable pub example_plan : ExecutionPlan
unfolding build_plan parse_lts_branch version_le
example_plan =
    or_value (build_plan example_content (some example_version) snapshots local node none none)
      no_plan

pub is_built :
    build_plan example_content (some example_version) snapshots local node none none
    ≡ ok example_plan
unfolding example_plan build_plan parse_lts_branch version_le
is_built = refl
