-- ===== src/Planner/Tests.antt =====
-- The theorems of the planner, for the plans of the example.
use ch_diag.Content.{Row, iter_report_items}
use ch_diag.Planner.Build.Items.{ids}
use ch_diag.Planner.Build.Sections.{Distinct, build_plan-listed}
use ch_diag.Planner.Build.Listing.{listed}
use ch_diag.Planner.Build.Selection.{Chosen, IsAllowed, build_plan-IsAllowed, build_plan-ids}
use ch_diag.Planner.Build.Transport.{MetricsHaveSources, build_plan-Served, requires}
use ch_diag.Planner.Example.{example_content, example_plan, example_version, is_built, or_value}
use ch_diag.Planner.Filters.{Filters, selected_filters}
use ch_diag.Planner.Plan.{planned}
use ch_diag.Planner.Requirements.{Requirements, collection_requirements, local, node, snapshots}
use ch_diag.Prelude.{List, [], map, none, refl, some, true, ◌∷◌, ◌≡◌}
use ch_diag.Prelude.Lists.{All}
use ch_diag.Prelude.Results.{ok}

abbrev no_requirements : Requirements
no_requirements = record { host_item_ids = []; database_item_ids = [] }

abbrev example_requirements : Requirements
unfolding collection_requirements
example_requirements =
    or_value (collection_requirements example_content snapshots local node none none)
      no_requirements

is_required :
    collection_requirements example_content snapshots local node none none ≡ ok example_requirements
unfolding example_requirements collection_requirements
is_required = refl

test_requirements : example_requirements.host_item_ids ≡ "server.load" ∷ "host.kernel" ∷ []
unfolding example_requirements
test_requirements = refl

test_sources : MetricsHaveSources example_content
test_sources = ((λ e. absurd (let x : ⊥ = cc e in x)), tt)

test_ids : ids example_plan.items ≡ "server.uptime" ∷ "server.load" ∷ "host.kernel" ∷ []
unfolding example_plan
test_ids = refl

test-Distinct : Distinct example_content.sections
test-Distinct = ((refl, tt), (tt, tt))

build_plan-Served_example :
    All
      (λ p. p.plan.status ≡ planned → requires p.plan.target example_requirements ≡ true)
      example_plan.items
build_plan-Served_example =
    build_plan-Served example_content (some example_version) snapshots local node none none
      example_plan example_requirements test_sources is_built is_required

build_plan-listed_example : listed example_plan.sections ≡ ids example_plan.items
build_plan-listed_example =
    build_plan-listed example_content (some example_version) snapshots local node none none
      example_plan test-Distinct is_built

build_plan-ids_example :
    (f : Filters) × (rows : List Row) × (selected_filters example_content none none ≡ ok f)
    × Chosen f (iter_report_items example_content) rows
    × (ids example_plan.items ≡ map (λ (r : Row). r.item_id) rows)
build_plan-ids_example =
    build_plan-ids example_content (some example_version) snapshots local node none none
      example_plan is_built

build_plan-IsAllowed_example : All (λ p. IsAllowed snapshots local p.plan) example_plan.items
build_plan-IsAllowed_example =
    build_plan-IsAllowed example_content (some example_version) snapshots local node none none
      example_plan is_built
