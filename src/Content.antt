-- ===== src/Content.antt =====
-- ch_diag/content_loader.py: the content pack that the planner and the collector read. A string
-- field that the document leaves out is "", and a list that it leaves out is empty, as the code's
-- `or` and truth tests read them.
pub mod Lts
use ch_diag.Prelude.{Bool, List, Option, String, [], none, some, ℕ, ◌++◌, ◌==◌, ◌∷◌}
use ch_diag.Prelude.Results.{Result, err, key_error, ok}
use ch_diag.Prelude.Tests.{if◌then◌else◌}
use ch_diag.Versioning.{Variant}
use Prim.Native.String

pub record Query : Type 0 where
  pub title : String
  pub variants : List Variant
  pub optional : Bool
  pub sensitivity : String
  pub row_limit : Option ℕ
  pub collection_scope : String

pub record Script : Type 0 where
  pub title : String
  pub file : String
  pub output : String

pub record Metric : Type 0 where
  pub title : String
  pub source_query : String
  pub source_sampler : String
  pub result_kind : String

pub record Item : Type 0 where
  pub title : String
  pub state : String
  pub query : String
  pub script : String
  pub metric : String
  pub tags : List String
  pub fallback_item : String
  pub fallback_on : List String

pub record FallbackItem : Type 0 where
  pub title : String
  pub query : String
  pub script : String

pub record Section : Type 0 where
  pub section_id : String
  pub title : String
  pub description : Option String
  pub state : Option String
  pub items : List (String × Item)

pub record Content : Type 0 where
  pub sections : List Section
  pub fallback_items : List (String × FallbackItem)
  pub queries : List (String × Query)
  pub scripts : List (String × Script)
  pub metrics : List (String × Metric)
  pub instructions : List (String × String)
  pub supported_lts_versions : List String

-- what `iter_report_items` yields
pub record Row : Type 0 where
  pub section_id : String
  pub item_key : String
  pub item_id : String
  pub item : Item

unfoldable pub section_rows : String → List (String × Item) → List Row
section_rows id [] = []
section_rows id ((key, item) ∷ rest) =
    record {
      section_id = id;
      item_key = key;
      item_id = String.◌++◌ id (String.◌++◌ "." key);
      item = item;
    }
    ∷ section_rows id rest

unfoldable pub report_rows : List Section → List Row
unfolding section_rows
report_rows [] = []
report_rows (s ∷ rest) = section_rows s.section_id s.items ++ report_rows rest

unfoldable pub iter_report_items : Content → List Row
unfolding report_rows
iter_report_items content = report_rows content.sections

-- `mapping.get(key)`
unfoldable pub find_key {ℓ} : {V : Type ℓ} → String → List (String × V) → Option V
find_key k [] = none
find_key k ((j, v) ∷ rest) = if j == k then some v else find_key k rest

-- `mapping[key]`
unfoldable pub at_key {ℓ} : {V : Type ℓ} → String → List (String × V) → Result V
unfolding find_key
at_key k entries = elim (find_key k entries) [ none ↦ err (key_error k) | some v ↦ ok v ]
