-- ===== src/Content/Lts/Tests.antt =====
-- The LTS contract, for a query with two variants of both scopes.
use ch_diag.Content.Lts.{supported_lts_versions, validate_variant_lts}
use ch_diag.Content.Lts.Coverage.{declares, select_variant-covered}
use ch_diag.Content.Lts.Supported.{supported_lts_versions-resolves}
use ch_diag.Prelude.{List, String, [], false, inr, none, refl, some, true, ◌++◌, ◌∷◌, ◌≡◌}
use ch_diag.Prelude.Results.{err, missing_lts, ok, overlapping_lts, unordered_lts_branches}
use ch_diag.Prelude.Text.{codes}
use ch_diag.Versioning.{
  Variant, Version, parse_lts_branch, resolve_lts_branch, select_variant, version_le,
}

abbrev variants : List Variant
variants =
    record { id = "new"; sql_file = "new.sql"; lts_versions = "22.8" ∷ "23.3" ∷ []; scopes = [] }
    ∷ record { id = "old"; sql_file = "old.sql"; lts_versions = "21.8" ∷ []; scopes = [] }
    ∷ []

abbrev branches : List String
branches = "21.8" ∷ "22.8" ∷ "23.3" ∷ []

abbrev v22_9 : Version
v22_9 = record { major = 22; minor = 9; patch = 1; revision = 0 }

is_valid : validate_variant_lts variants branches ≡ ok tt
unfolding validate_variant_lts
is_valid = refl

test_missing : validate_variant_lts variants ("20.3" ∷ []) ≡ err (missing_lts "node")
unfolding validate_variant_lts
test_missing = refl

test_overlap :
    validate_variant_lts
      (variants
        ++ (record {
          id = "x";
          sql_file = "x.sql";
          lts_versions = "22.8" ∷ [];
          scopes = "cluster" ∷ [];
        }
            ∷ []))
      branches
    ≡ err (overlapping_lts "new" "x")
unfolding validate_variant_lts
test_overlap = refl

is_supported : supported_lts_versions branches ≡ ok branches
unfolding supported_lts_versions parse_lts_branch version_le
is_supported = refl

test_unordered : supported_lts_versions ("22.8" ∷ "21.8" ∷ []) ≡ err unordered_lts_branches
unfolding supported_lts_versions parse_lts_branch version_le
test_unordered = refl

is_resolved : resolve_lts_branch v22_9 branches ≡ ok (some "22.8")
unfolding resolve_lts_branch parse_lts_branch version_le
is_resolved = refl

select_variant-covered_example :
    (declares "cluster" variants ≡ true
      → (r : Variant) × (select_variant variants v22_9 "cluster" (some branches) ≡ ok (some r)))
    × (declares "cluster" variants ≡ false
        → select_variant variants v22_9 "cluster" (some branches) ≡ ok none)
select_variant-covered_example =
    select_variant-covered variants branches v22_9 "cluster" "22.8" (inr refl) is_valid is_resolved

supported_lts_versions-resolves_example :
    (w : Version) × (parse_lts_branch (codes "21.8") ≡ ok w)
    × ((v : Version)
        → (version_le w v ≡ true → (lts : String) × (resolve_lts_branch v branches ≡ ok (some lts)))
          × (version_le w v ≡ false → resolve_lts_branch v branches ≡ ok none))
supported_lts_versions-resolves_example =
    supported_lts_versions-resolves "21.8" ("22.8" ∷ "23.3" ∷ []) branches is_supported
