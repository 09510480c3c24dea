-- ===== src/Planner/Requirements.antt =====
-- `collection_requirements`, `_source_targets` and `CollectionRequirements` of
-- ch_diag/planner.py: which transports a collection needs.
use ch_diag.Content.{Content, Item, Metric, Row, at_key, iter_report_items}
use ch_diag.Planner.Filters.{Filters, is_selected, selected_filters}
use ch_diag.Prelude.{
  Bool, List, Option, String, [], false, none, not, some, true, ◌&&◌, ◌++◌, ◌==◌, ◌||◌, ◌∷◌,
}
use ch_diag.Prelude.Results.{Result, err, ok, stop_iteration, ◌>>=◌}
use ch_diag.Prelude.Tests.{if◌then◌else◌}

pub data SourceKind : Type 0 where
  query script metric : SourceKind

pub data Target : Type 0 where
  host database : Target

pub data RunMode : Type 0 where
  one_shot snapshots : RunMode

pub data CollectionMode : Type 0 where
  local remote_db_only remote : CollectionMode

pub data Scope : Type 0 where
  node cluster : Scope

abbrev pub scope_name : Scope → String
scope_name node = "node"
scope_name cluster = "cluster"

abbrev pub is_snapshots : RunMode → Bool
is_snapshots one_shot = false
is_snapshots snapshots = true

abbrev pub is_db_only : CollectionMode → Bool
is_db_only remote_db_only = true
is_db_only local = false
is_db_only remote = false

abbrev pub is_metric : SourceKind → Bool
is_metric metric = true
is_metric query = false
is_metric script = false

abbrev pub is_host : Target → Bool
is_host host = true
is_host database = false

-- `next(key for key in ("query", "script", "metric") if item.get(key))` and `item[source_kind]`
unfoldable pub source_of : Item → Result (SourceKind × String)
source_of item =
    if item.query == ""
    then if item.script == ""
      then if item.metric == "" then err stop_iteration else ok (metric, item.metric)
      else ok (script, item.script)
    else ok (query, item.query)

unfoldable pub metric_target : Metric → Target
metric_target m = if m.source_query == "" then host else database

-- the code's tuples have one target each
unfoldable pub source_target : Content → SourceKind → String → Result Target
unfolding at_key metric_target
source_target content query id = ok database
source_target content script id = ok host
source_target content metric id = do m ← at_key id content.metrics; ok (metric_target m)

-- the two `continue` guards behind the filters
unfoldable pub is_skipped : RunMode → CollectionMode → SourceKind → Target → Bool
is_skipped mode cmode kind target =
    (is_metric kind && not (is_snapshots mode)) || (is_db_only cmode && is_host target)

pub record Requirements : Type 0 where
  pub host_item_ids : List String
  pub database_item_ids : List String

abbrev pub require : Target → String → Requirements → Requirements
require host id r = record r { host_item_ids = id ∷ r.host_item_ids }
require database id r = record r { database_item_ids = id ∷ r.database_item_ids }

unfoldable pub row_requirements : Content → RunMode → CollectionMode → Row → Result (Option Target)
unfolding source_of source_target is_skipped
row_requirements content mode cmode r = do
  source ← source_of r.item
  target ← source_target content source.0 source.1
  ok (if is_skipped mode cmode source.0 target then none else some target)

unfoldable pub add_row : Option Target → String → Requirements → Requirements
add_row none id r = r
add_row (some target) id r = require target id r

-- the loop over the report items
unfoldable pub rows_requirements :
    Content → RunMode → CollectionMode → Filters → List Row → Result Requirements
unfolding row_requirements is_selected add_row
rows_requirements content mode cmode f [] =
    ok (record { host_item_ids = []; database_item_ids = [] })
rows_requirements content mode cmode f (r ∷ rows) =
    let rest = rows_requirements content mode cmode f rows in
    if is_selected f r
    then (do
      target ← row_requirements content mode cmode r
      others ← rest
      ok (add_row target r.item_id others))
    else rest

unfoldable pub resolution_item : Scope → Requirements → Requirements
resolution_item node r = r
resolution_item cluster r = elim r.database_item_ids [
  | [] ↦ record r { database_item_ids = "<cluster-target-resolution>" ∷ [] }
  | _ ∷ _ ↦ r
]

unfoldable pub collection_requirements :
    Content
    → RunMode
    → CollectionMode
    → Scope
    → Option (List String)
    → Option (List String)
    → Result Requirements
unfolding selected_filters rows_requirements resolution_item iter_report_items
collection_requirements content mode cmode scope item_ids tags = do
  f ← selected_filters content item_ids tags
  r ← rows_requirements content mode cmode f (iter_report_items content)
  ok (resolution_item scope r)

unfoldable pub requires_host : Requirements → Bool
requires_host r = elim r.host_item_ids [ [] ↦ false | _ ∷ _ ↦ true ]

unfoldable pub requires_database : Requirements → Bool
requires_database r = elim r.database_item_ids [ [] ↦ false | _ ∷ _ ↦ true ]

unfoldable pub targets : Requirements → List Target
unfolding requires_host requires_database
targets r =
    (if requires_host r then host ∷ [] else [])
    ++ (if requires_database r then database ∷ [] else [])

unfoldable pub requires_ssh : CollectionMode → Requirements → Bool
unfolding targets
requires_ssh local r = false
requires_ssh remote_db_only r = false
requires_ssh remote r = elim (targets r) [ [] ↦ false | _ ∷ _ ↦ true ]
