-- ===== src/Database/Sql.antt =====
-- `quote_clickhouse_string`, `render_target_sql`, `_split_qualified_name` and `resolve_targets` of
-- ch_diag/clickhouse.py. SQL is walked as a list of code points.
pub mod Quoted
pub mod Targets
use ch_diag.Collector.Lifecycle.{DatabaseTarget}
use ch_diag.Database.Errors.{Failure}
use ch_diag.Database.Session.{Reply, error, gave, threw}
use ch_diag.Planner.Requirements.{Scope, cluster, node}
use ch_diag.Prelude.{
  Bool, List, Option, String, [], false, map, none, not, some, suc, true, zero, ℕ, ◌&&◌, ◌++◌, ◌-◌,
  ◌==◌, ◌||◌, ◌∷◌,
}
use ch_diag.Prelude.Lists.{any, elem, length}
use ch_diag.Prelude.Strings.{split_on}
use ch_diag.Prelude.Tests.{if◌then◌else◌, leb, nat_eq}
use ch_diag.Prelude.Text.{Text, codes, is_digit}

-- `value.replace(old, new)`, of one character
abbrev pub replace_char : ℕ → Text → Text → Text
replace_char old new [] = []
replace_char old new (c ∷ s) =
    let rest = replace_char old new s in if nat_eq c old then new ++ rest else c ∷ rest

-- `quote_clickhouse_string`; the backslash is character 92 and the quote 39
unfoldable pub quote_clickhouse_string : Text → Text
quote_clickhouse_string value =
    39 ∷ (replace_char 39 (92 ∷ 39 ∷ []) (replace_char 92 (92 ∷ 92 ∷ []) value) ++ (39 ∷ []))

-- `text.startswith(prefix)`
abbrev pub starts_with : Text → Text → Bool
starts_with s [] = true
starts_with [] (p ∷ ps) = false
starts_with (c ∷ s) (p ∷ ps) = nat_eq c p && starts_with s ps

-- `old in text`
abbrev pub contains : Text → Text → Bool
contains old [] = starts_with [] old
contains old (c ∷ s) = starts_with (c ∷ s) old || contains old s

-- `text.replace(old, new)`: the first argument counts the characters of an occurrence that are left
unfoldable pub replace_from : ℕ → Text → Text → Text → Text
replace_from n old new [] = []
replace_from (suc n) old new (c ∷ s) = replace_from n old new s
replace_from zero old new (c ∷ s) = elim (starts_with (c ∷ s) old) [
  | true ↦ new ++ replace_from (length old - 1) old new s
  | false ↦ c ∷ replace_from 0 old new s
]

abbrev pub placeholder : Text
placeholder = codes "{{cluster}}"

abbrev pub sql_error : String → Failure
sql_error message = error "ValueError" message

-- `not target.cluster_name`
abbrev pub is_empty_name : Option String → Bool
is_empty_name none = true
is_empty_name (some name) = name == ""

abbrev pub name_text : Option String → Text
name_text none = []
name_text (some name) = codes name

-- `render_target_sql`
unfoldable pub render_target_sql : Text → DatabaseTarget → Reply Text
unfolding replace_from quote_clickhouse_string
render_target_sql sql target = elim target.scope [
  | node ↦
      if contains placeholder sql
      then threw (sql_error "cluster placeholder is not valid in a node query")
      else gave sql
  | cluster ↦
      if is_empty_name target.cluster_name
      then threw (sql_error "cluster target has no cluster name")
      else if not (contains placeholder sql)
      then gave sql
      else gave
          (replace_from 0 placeholder (quote_clickhouse_string (name_text target.cluster_name)) sql)
]

-- `resolve_targets`, of the names that `list_clusters` gives
abbrev pub cluster_target : String → DatabaseTarget
cluster_target name = record { scope = cluster; cluster_name = some name }

abbrev pub selected_value : Option String → String
selected_value none = "AUTO"
selected_value (some s) = if s == "" then "AUTO" else s

unfoldable pub select_clusters : String → List String → Reply (List DatabaseTarget)
select_clusters value [] = threw (
    error "ClickHouseConnectionError"
      "cluster scope requested, but system.clusters contains no clusters")
select_clusters value (name ∷ names) =
    if value == "AUTO"
    then gave (cluster_target name ∷ [])
    else if value == "ALL"
    then gave (map cluster_target (name ∷ names))
    else if not (elem value (name ∷ names))
    then threw (error "ClickHouseConnectionError" "unknown ClickHouse cluster")
    else gave (cluster_target value ∷ [])

unfoldable pub resolve_targets :
    Scope → Option String → Reply (List String) → Reply (List DatabaseTarget)
unfolding select_clusters
resolve_targets node selector clusters =
    if is_empty_name selector
    then gave (record { scope = node; cluster_name = none } ∷ [])
    else threw (sql_error "--cluster-name is only valid with --target-scope cluster")
resolve_targets cluster selector (threw e) = threw e
resolve_targets cluster selector (gave names) = select_clusters (selected_value selector) names

-- `_split_qualified_name`: the parts between the dots, each of `[A-Za-z_][A-Za-z0-9_]*`
abbrev pub is_name_start : ℕ → Bool
is_name_start c = leb 65 c && leb c 90 || (leb 97 c && leb c 122 || nat_eq c 95)

abbrev pub all_name_chars : Text → Bool
all_name_chars [] = true
all_name_chars (c ∷ s) = (is_name_start c || is_digit c) && all_name_chars s

abbrev pub is_name : Text → Bool
is_name [] = false
is_name (c ∷ s) = is_name_start c && all_name_chars s

unfoldable pub split_qualified_name : ℕ → String → Reply (List String)
split_qualified_name expected value =
    let pieces = split_on 46 value in
    if not (nat_eq (length pieces) expected) || any (λ piece. not (is_name (codes piece))) pieces
    then threw (sql_error "invalid required name")
    else gave pieces
