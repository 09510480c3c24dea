-- ===== src/Versioning/Tests.antt =====
-- Runs of ch_diag/versioning.py, and its theorems at concrete versions.
use ch_diag.Prelude.{List, String, [], none, refl, some, true, ◌∷◌, ◌≡◌}
use ch_diag.Prelude.Results.{err, invalid_lts_branch, ok}
use ch_diag.Prelude.Text.{codes, print_int}
use ch_diag.Versioning.{
  Variant, Version, parse, parse_lts_branch, resolve_lts_branch, select_variant, str, text,
  version_le,
}
use ch_diag.Versioning.Resolve.{IsNearest, resolve_lts_branch-IsNearest}
use ch_diag.Versioning.RoundTrip.{parse-str}
use ch_diag.Versioning.Select.{IsSelection, select_variant-IsSelection}

abbrev v22_9 : Version
v22_9 = record { major = 22; minor = 9; patch = 1; revision = 0 }

abbrev v23_8 : Version
v23_8 = record { major = 23; minor = 8; patch = 2; revision = 7 }

abbrev branches : List String
branches = "20.3" ∷ "22.8" ∷ "23.3" ∷ "21.8" ∷ []

abbrev late_branches : List String
late_branches = "23.3" ∷ "24.8" ∷ []

abbrev variants : List Variant
variants =
    record { id = "old"; sql_file = "old.sql"; lts_versions = "20.3" ∷ "21.8" ∷ []; scopes = [] }
    ∷ record { id = "new"; sql_file = "new.sql"; lts_versions = "22.8" ∷ []; scopes = "node" ∷ [] }
    ∷ []

resolves : resolve_lts_branch v22_9 branches ≡ ok (some "22.8")
unfolding resolve_lts_branch parse_lts_branch version_le
resolves = refl

test_resolve-none : resolve_lts_branch v22_9 late_branches ≡ ok none
unfolding resolve_lts_branch parse_lts_branch version_le
test_resolve-none = refl

test_select : select_variant variants v22_9 "cluster" none ≡ ok none
unfolding select_variant parse_lts_branch version_le
test_select = refl

test_str : str v22_9 ≡ codes "22.9.1.0"
unfolding str print_int
test_str = refl

test_parse : parse (text (codes "  22.9.x1.0")) ≡ ok (record v22_9 { patch = 0 })
unfolding parse
test_parse = refl

test_bad : parse_lts_branch (codes "22.08") ≡ err (invalid_lts_branch (codes "22.08"))
unfolding parse_lts_branch
test_bad = refl

resolve_lts_branch-IsNearest_example : IsNearest v22_9 branches "22.8"
resolve_lts_branch-IsNearest_example = resolve_lts_branch-IsNearest v22_9 branches "22.8" resolves

is_later : version_le v22_9 v23_8 ≡ true
unfolding version_le
is_later = refl

select_variant-IsSelection_example :
    IsSelection variants "22.8" "node" (select_variant variants v22_9 "node" (some branches))
select_variant-IsSelection_example =
    select_variant-IsSelection variants v22_9 "node" "22.8" branches resolves

parse-str_example : parse (text (str v22_9)) ≡ ok v22_9
parse-str_example = parse-str v22_9
