-- ===== src/Database/Capabilities.antt =====
-- `supports_requirements` and `_catalog_object_exists` of ch_diag/clickhouse.py: the tables and the
-- columns that a query requires, and the cache of what the catalog of the server said. What the
-- count query of a name answers, through `_execute_raw`, is an argument.
pub mod Cached
use ch_diag.Artifact.{values}
use ch_diag.Database.Session.{Reply, gave, threw}
use ch_diag.Database.Sql.{split_qualified_name}
use ch_diag.Prelude.{
  Bool, List, Option, String, [], false, none, some, true, ℕ, ◌&&◌, ◌++◌, ◌==◌, ◌∷◌,
}
use ch_diag.Prelude.Tests.{if◌then◌else◌}

-- the two kinds of keys of `_capability_cache`, with the parts of the name
pub data Key : Type 0 where
  table_key column_key : List String → Key

abbrev pub same_parts : List String → List String → Bool
same_parts [] [] = true
same_parts [] (y ∷ ys) = false
same_parts (x ∷ xs) [] = false
same_parts (x ∷ xs) (y ∷ ys) = x == y && same_parts xs ys

abbrev pub same_key : Key → Key → Bool
same_key (table_key xs) (table_key ys) = same_parts xs ys
same_key (table_key xs) (column_key ys) = false
same_key (column_key xs) (table_key ys) = false
same_key (column_key xs) (column_key ys) = same_parts xs ys

abbrev pub Cache : Type 0
Cache = List (Key × Bool)

abbrev pub cached : Key → Cache → Option Bool
cached k [] = none
cached k ((j, b) ∷ rest) = if same_key j k then some b else cached k rest

abbrev pub Catalog : Type 0
Catalog = Key → Reply Bool

abbrev pub remember : Key → Cache → Reply Bool → Cache × Reply Bool
remember k cache (threw e) = (cache, threw e)
remember k cache (gave b) = ((k, b) ∷ cache, gave b)

abbrev pub from_cache : Catalog → Key → Cache → Option Bool → Cache × Reply Bool
from_cache catalog k cache none = remember k cache (catalog k)
from_cache catalog k cache (some b) = (cache, gave b)

-- `_catalog_object_exists`, and the same for a column
unfoldable pub object_exists : Catalog → Key → Cache → Cache × Reply Bool
object_exists catalog k cache = from_cache catalog k cache (cached k cache)

abbrev pub follow {ℓ κ} :
    {A : Type ℓ} {B : Type κ} → Cache × Reply A → (A → Cache → Cache × Reply B) → Cache × Reply B
follow (cache, threw e) next = (cache, threw e)
follow (cache, gave a) next = next a cache

-- what a loop adds to `missing`
abbrev pub unless_found : String → List String → Bool → List String
unless_found value missing found = if found then missing else missing ++ (value ∷ [])

unfoldable pub check_name :
    Catalog
    → (List String → Key)
    → String
    → List String
    → Cache
    → Reply (List String)
    → Cache × Reply (List String)
unfolding object_exists
check_name catalog key value missing cache (threw e) = (cache, threw e)
check_name catalog key value missing cache (gave pieces) =
    follow (object_exists catalog (key pieces) cache)
      (λ found later. (later, gave (unless_found value missing found)))

-- the loop over the required names of one kind
unfoldable pub find_missing :
    Catalog
    → ℕ
    → (List String → Key)
    → List String
    → List String
    → Cache
    → Cache × Reply (List String)
unfolding check_name split_qualified_name
find_missing catalog expected key [] missing cache = (cache, gave missing)
find_missing catalog expected key (value ∷ values) missing cache =
    follow (check_name catalog key value missing cache (split_qualified_name expected value))
      (find_missing catalog expected key values)

pub record Requires : Type 0 where
  pub tables : List String
  pub columns : List String

abbrev pub verdict : List String → Bool × Option String
verdict [] = (true, none)
verdict (name ∷ names) = (false, some "missing ClickHouse capability")

unfoldable pub supports_requirements :
    Catalog → Requires → Cache → Cache × Reply (Bool × Option String)
unfolding find_missing
supports_requirements catalog required cache =
    follow (find_missing catalog 2 table_key required.tables [] cache) λ missing later.
      follow (find_missing catalog 3 column_key required.columns missing later)
        λ all last. (last, gave (verdict all))
