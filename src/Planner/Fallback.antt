-- ===== src/Planner/Fallback.antt =====
-- `_attach_fallback` of ch_diag/planner.py.
use ch_diag.Content.{Content, FallbackItem, Item, at_key}
use ch_diag.Planner.Plan.{
  Outcome, Planned, PlannedItem, instruction_of, item_title, query_outcome, script_outcome,
}
use ch_diag.Planner.Requirements.{
  CollectionMode, Scope, SourceKind, metric, query, script, source_target,
}
use ch_diag.Prelude.{Option, String, [], none, some, ◌==◌}
use ch_diag.Prelude.Results.{Result, err, fallback_version_required, ok, stop_iteration, ◌>>=◌}
use ch_diag.Prelude.Tests.{if◌then◌else◌}
use ch_diag.Versioning.{Version}

-- `next(key for key in ("query", "script") if definition.get(key))`
unfoldable pub fallback_source : FallbackItem → Result (SourceKind × String)
fallback_source d =
    if d.query == ""
    then if d.script == "" then err stop_iteration else ok (script, d.script)
    else ok (query, d.query)

unfoldable pub fallback_outcome :
    Content → Option Version → CollectionMode → Scope → SourceKind → String → Result Outcome
unfolding query_outcome script_outcome
fallback_outcome content none cmode scope query id = err fallback_version_required
fallback_outcome content (some v) cmode scope query id = query_outcome content scope v id
fallback_outcome content v cmode scope script id = script_outcome content cmode id
fallback_outcome content v cmode scope metric id = script_outcome content cmode id

-- the fallback's own planned item
unfoldable pub plan_fallback :
    Content
    → Planned
    → Option Version
    → Scope
    → CollectionMode
    → String
    → FallbackItem
    → Result Planned
unfolding fallback_source fallback_outcome item_title instruction_of source_target
plan_fallback content parent v scope cmode id d = do
  source ← fallback_source d
  title ← item_title content source.0 source.1 d.title id
  o ← fallback_outcome content v cmode scope source.0 source.1
  target ← source_target content source.0 source.1
  ok (record {
    item_id = id;
    section_id = parent.section_id;
    item_key = parent.item_key;
    title = title;
    source_kind = source.0;
    source_id = source.1;
    status = o.status;
    state = parent.state;
    reason = o.reason;
    variant_id = o.variant_id;
    sql_file = o.sql_file;
    script_file = o.script_file;
    target = target;
    metadata = record {
      tags = [];
      execution_scope = scope;
      instructions = instruction_of content id;
      sensitivity = o.sensitivity;
      source_language = o.source_language;
      fallback_policy = none;
    };
  })

unfoldable pub attach_fallback :
    Content → Planned → Item → Option Version → Scope → CollectionMode → Result PlannedItem
unfolding plan_fallback at_key
attach_fallback content p item v scope cmode =
    if item.fallback_item == ""
    then ok (record { plan = p; fallback_on = []; fallback_item = none })
    else (do
      d ← at_key item.fallback_item content.fallback_items
      fallback ← plan_fallback content p v scope cmode item.fallback_item d
      ok (record {
        plan = record p {
          metadata = record (p.metadata) {
            fallback_policy = some (item.fallback_item, item.fallback_on);
          };
        };
        fallback_on = item.fallback_on;
        fallback_item = some fallback;
      }))
