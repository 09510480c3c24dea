-- ===== src/Lib.antt =====
-- A verification library for ch_diag, the diagnostic collector for ClickHouse servers.
--
-- The program builds an execution plan from a content pack (a report of sections and items, with
-- query, script and metric manifests), opens the connections that the plan needs, executes each
-- item with a fallback where one is planned, and writes an artifact with the collected items and
-- a summary. The parts and their files:
--
--   Versioning   ch_diag/versioning.py: ClickHouse versions, the nearest LTS branch, the choice of
--                a query variant. `parse`, `parse_lts_branch`, `resolve_lts_branch` and
--                `select_variant` keep the names of the functions.
--   Content      ch_diag/content_loader.py: the content pack as the planner and the collector read
--                it, and `iter_report_items`; Lts has `_supported_lts_versions` and
--                `_validate_variant_lts`.
--   Planner      ch_diag/planner.py: Filters has `_normalized_filter` and `_selected_filters`,
--                Requirements has `collection_requirements`, Plan the planned item and what the
--                source decides of it, Fallback has `_attach_fallback`, Build has `build_plan`.
--   Artifact     ch_diag/artifact.py: items; Finish has `finalize_collection_summary`,
--                `omit_uncollected_items` and `strip_artifact_metadata`, Check has
--                `validate_artifact`.
--   Collector    ch_diag/collector.py: Services holds what the collector calls, Execute has
--                `_execute_item`, Fallback has `_execute_item_safely`, Target the body of
--                `_collect_target` up to the files that it writes, Lifecycle the connections, and
--                Lifecycle/Run `_collect` and `_close_collection_resources`.
--   Snapshots    ch_diag/snapshots.py: Schedule has `schedule_offsets`, the guards of
--                `collect_snapshots` and `iostat_sampling_parameters`, Runner has
--                `_run_scheduled_source`, Items has the last loop of `collect_metric_items`.
--   Samplers     ch_diag/samplers.py: Budget has `apply_chart_budget`, Threads has
--                `normalized_clickhouse_thread_rows`.
--   Database     ch_diag/clickhouse.py and ch_diag/artifact_schema.py: Errors has `failure_kind`
--                and `classify_error`, Session the state of `ClickHouseAdapter`, `_execute_raw`
--                and `close`, Reconnect has `detect_runtime_context` and
--                `_execute_with_reconnect`, Sql the quoting and `resolve_targets`, Capabilities
--                has `supports_requirements`, Schema the column descriptors, Query has
--                `execute_query`.
--   Config       ch_diag/config.py: the coercion of values, Fields the tables of destinations,
--                Resolve has `resolve_cli_defaults`.
--   Cli          ch_diag/cli.py: Options has the three option actions over the defaults, Connect
--                `_ssh_config`, `_connection` and `ConnectionConfig.tunneled`, Formats
--                `_output_formats`, Exit `_collection_exit_status` and the codes of `_run_machine`.
--   Prelude      what they share: names of the library, lists and names, Python's exceptions as
--                a result type, dictionaries, text, decimal numbers.
--
-- The command line resolves its defaults from the file and the environment, applies the options
-- and makes the configurations of the connections. The collector opens them, and calls the
-- adapter and the host runner for the items of the plan. Each part takes what it calls as
-- arguments, so that a theorem about it holds for every answer; theorems across parts name both,
-- for example the item of a failed query and the fallback that it triggers.
--
-- How the code is modelled. Python code that may raise returns `Result`, `Call` or `Reply`, whose
-- `err`, `raised` and `threw` are the exception; messages are shortened where they print values.
-- A dictionary is an association list in insertion order and a set of names a list; a key that
-- may be missing is an `Option`, and an absent string or list of a manifest is the empty one, as
-- the code's truth tests read it. Numbers are naturals, or a sign and a natural in the
-- configuration, and times are naturals, but for the offsets of a schedule: what Python's floats
-- do in their sums and comparisons is an argument there. The characters that the code classifies
-- are those of ASCII. Loops over lists are structural recursion, and `retry` recurs on the
-- attempts that are left. Three definitions recur on fuel: `print_fuel` and `show_fuel` print a
-- number and their fuel is one more than the number, which has no more digits than that;
-- `offsets_from` has as fuel the tests of its loop that it may make, since a sum of floats need
-- not grow; one more than the number of sums that lie before the duration is enough.
--
-- The state of the adapter is passed through its steps: whether it is closed, the identity of the
-- server, the clients that are registered, and a trace of what the clients were asked. The driver
-- is an argument that gives the answer of each client by its number. The host runner, the files
-- of the pack, the JSON decoder, the variables of the environment, the answer to a password
-- prompt, how Python prints and reads numbers with a fraction, and the redaction and sanitizing
-- by regular expressions are arguments too: a call returns or raises. For the sampling of a
-- source, how late its loop wakes and when a task starts and ends are arguments. `_collect` takes
-- the answers of its connections in one record and leaves a trace of what it opened, collected
-- and closed.
--
-- Not modelled: the HTML report; `argparse` itself, the printing of listings and of the machine
-- envelope, and the other commands, which call the modelled parts; the reading of TOML; the
-- driver of ClickHouse, the settings of a query and queries that run at the same time;
-- subprocesses and SSH; progress output; the summaries of artifacts and plans in
-- ch_diag/orchestration.py; the parsing of Linux counters and the rates but for those of threads;
-- `collect_metric_items` but for the runner of one source and the status of the items; the
-- validation of the content pack but for its LTS contract, its integrity check; timestamps and
-- rounded floats; the display and chart documents that the plan copies; and the writing of files.
-- Most of this is input and output or text for people; no modelled part calls the rest.
pub mod Prelude
pub mod Versioning
pub mod Content
pub mod Planner
pub mod Artifact
pub mod Samplers
pub mod Database
pub mod Config
pub mod Cli
pub mod Snapshots
pub mod Collector
