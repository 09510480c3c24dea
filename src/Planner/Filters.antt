-- ===== src/Planner/Filters.antt =====
-- The item and tag filters of ch_diag/planner.py. A filter is `none`, or the values it was given
-- (a single string is one value).
use ch_diag.Content.{Content, Row, iter_report_items}
use ch_diag.Prelude.{
  Bool, List, Option, String, [], false, map, none, not, some, true, ◌&&◌, ◌++◌, ◌==◌, ◌||◌, ◌∷◌,
}
use ch_diag.Prelude.Lists.{elem, keep}
use ch_diag.Prelude.Results.{
  Result, both_filters, err, ok, raise_if, unknown_items, unknown_tags, ◌>>=◌, ◌>>◌,
}
use ch_diag.Prelude.Strings.{casefold_eq, split_on, strip_text}
use ch_diag.Prelude.Tests.{if◌then◌else◌}
use ch_diag.Versioning.{add_new}

-- the inner loop of `_normalized_filter`, over the parts of one value
unfoldable pub add_parts : List String → List String → List String
add_parts [] result = result
add_parts (part ∷ rest) result =
    let normalized = strip_text part in
    add_parts rest
      (if normalized == "" || elem normalized result then result else result ++ (normalized ∷ []))

unfoldable pub add_values : List String → List String → List String
unfolding add_parts
add_values [] result = result
add_values (raw ∷ rest) result = add_values rest (add_parts (split_on b',' raw) result)

unfoldable pub normalized_filter : Option (List String) → Option (List String)
unfolding add_values
normalized_filter none = none
normalized_filter (some values) = some (add_values values [])

unfoldable pub available_item_ids : Content → List String
unfolding iter_report_items
available_item_ids content = map (λ (r : Row). r.item_id) (iter_report_items content)

unfoldable pub all_tags : List Row → List String
all_tags [] = []
all_tags (r ∷ rows) = r.item.tags ++ all_tags rows

-- the set of the tags; its order, by case-folded text, matters to no test below
unfoldable pub available_tags : Content → List String
unfolding iter_report_items all_tags add_new
available_tags content = add_new (all_tags (iter_report_items content)) []

-- `canonical_tags.get(tag.casefold())`: of the tags that fold alike the last one stays in the dict
unfoldable pub canonical : String → List String → Option String
canonical tag [] = none
canonical tag (t ∷ ts) = elim (canonical tag ts) [
  | some u ↦ some u
  | none ↦ if casefold_eq t tag then some t else none
]

unfoldable pub unknown_among : List String → List String → List String
unknown_among requested known = keep (λ id. not (elem id known)) requested

unfoldable pub has_canonical : List String → String → Bool
unfolding canonical
has_canonical tags tag = elim (canonical tag tags) [ none ↦ false | some _ ↦ true ]

unfoldable pub canonical_all : List String → List String → List String
unfolding canonical
canonical_all [] tags = []
canonical_all (t ∷ ts) tags = elim (canonical t tags) [
  | none ↦ canonical_all ts tags
  | some u ↦ u ∷ canonical_all ts tags
]

pub record Filters : Type 0 where
  pub items : Option (List String)
  pub tags : Option (List String)

unfoldable pub selected_items : Content → Option (List String) → Result (Unit {0})
unfolding available_item_ids unknown_among
selected_items content none = ok tt
selected_items content (some ids) = elim (unknown_among ids (available_item_ids content)) [
  | [] ↦ ok tt
  | u ∷ us ↦ err (unknown_items (u ∷ us))
]

unfoldable pub selected_tags : Content → Option (List String) → Result (Option (List String))
unfolding available_tags has_canonical canonical_all
selected_tags content none = ok none
selected_tags content (some tags) =
    elim (keep (λ t. not (has_canonical (available_tags content) t)) tags) [
      | [] ↦ ok (some (canonical_all tags (available_tags content)))
      | u ∷ us ↦ err (unknown_tags (u ∷ us))
    ]

abbrev pub is_given {ℓ} : {A : Type ℓ} → Option A → Bool
is_given none = false
is_given (some a) = true

unfoldable pub selected_filters :
    Content → Option (List String) → Option (List String) → Result Filters
unfolding normalized_filter selected_items selected_tags
selected_filters content item_ids tags = do
  let requested_items = normalized_filter item_ids
  let requested_tags = normalized_filter tags
  raise_if (is_given requested_items && is_given requested_tags) both_filters
  selected_items content requested_items
  canonical_tags ← selected_tags content requested_tags
  ok (record { items = requested_items; tags = canonical_tags })

-- `requested_tag_set.intersection(item_tags)` is not empty
unfoldable pub intersects : List String → List String → Bool
intersects requested [] = false
intersects requested (t ∷ ts) = elem t requested || intersects requested ts

-- the two `continue` guards at the head of the loops over the report
unfoldable pub in_items : Option (List String) → String → Bool
in_items none id = true
in_items (some ids) id = elem id ids

unfoldable pub in_tags : Option (List String) → List String → Bool
unfolding intersects
in_tags none tags = true
in_tags (some requested) tags = intersects requested tags

unfoldable pub is_selected : Filters → Row → Bool
unfolding in_items in_tags
is_selected f r = in_items f.items r.item_id && in_tags f.tags r.item.tags
