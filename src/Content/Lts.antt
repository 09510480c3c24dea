-- ===== src/Content/Lts.antt =====
-- The LTS contract of the query catalog: `_supported_lts_versions` and `_validate_variant_lts` of
-- ch_diag/content_loader.py.
pub mod Coverage
pub mod Supported
pub mod Tests
use ch_diag.Content.{find_key}
use ch_diag.Prelude.{
  Bool, List, Option, String, [], false, none, not, some, true, ◌&&◌, ◌++◌, ◌==◌, ◌||◌, ◌∷◌,
}
use ch_diag.Prelude.Lists.{any, elem}
use ch_diag.Prelude.Results.{
  Result, duplicate_lts_branches, err, missing_lts, no_lts_branches, ok, overlapping_lts, raise_if,
  unordered_lts_branches, ◌>>=◌, ◌>>◌,
}
use ch_diag.Prelude.Tests.{if◌then◌else◌}
use ch_diag.Versioning.{Entry, Variant, branch, candidates, variant_scopes, version_le}

-- `len(set(branches)) != len(branches)`
abbrev pub has_duplicate : List String → Bool
has_duplicate [] = false
has_duplicate (b ∷ bs) = elem b bs || has_duplicate bs

-- `parsed != tuple(sorted(parsed))`, negated: each version is at most the next one
unfoldable pub is_ascending : List Entry → Bool
is_ascending [] = true
is_ascending (e ∷ []) = true
is_ascending (e ∷ f ∷ es) = version_le e.0 f.0 && is_ascending (f ∷ es)

unfoldable pub supported_lts_versions : List String → Result (List String)
unfolding candidates is_ascending
supported_lts_versions [] = err no_lts_branches
supported_lts_versions (b ∷ bs) = do
  raise_if (has_duplicate (b ∷ bs)) duplicate_lts_branches
  parsed ← candidates (b ∷ bs)
  raise_if (not (is_ascending parsed)) unordered_lts_branches
  ok (b ∷ bs)

abbrev pub Assigned : Type 0
Assigned = List (String × String)

abbrev pub raise_assigned : String → String → Option String → Result (Unit {0})
raise_assigned branch id none = ok tt
raise_assigned branch id (some previous) = err (overlapping_lts previous id)

-- the inner loop over the branches of one variant
unfoldable pub assign_branches : String → List String → Assigned → Result Assigned
unfolding find_key
assign_branches id [] assigned = ok assigned
assign_branches id (b ∷ bs) assigned = do
  raise_assigned b id (find_key b assigned)
  assign_branches id bs (assigned ++ ((b, id) ∷ []))

-- the loop over the variants, with `scope_declared`
unfoldable pub assign_variants : String → List Variant → Bool → Assigned → Result (Bool × Assigned)
unfolding assign_branches variant_scopes
assign_variants scope [] declared assigned = ok (declared, assigned)
assign_variants scope (r ∷ rs) declared assigned =
    let skipped_variant = assign_variants scope rs declared assigned in
    if elem scope (variant_scopes r)
    then (do
      next ← assign_branches r.id r.lts_versions assigned
      assign_variants scope rs true next)
    else skipped_variant

abbrev pub is_assigned : Assigned → String → Bool
is_assigned [] b = false
is_assigned ((c, id) ∷ rest) b = (c == b) || is_assigned rest b

-- the body of the loop over the scopes
unfoldable pub validate_scope : String → List Variant → List String → Result (Unit {0})
unfolding assign_variants
validate_scope scope variants supported = do
  found ← assign_variants scope variants false []
  raise_if (found.0 && any (λ b. not (is_assigned found.1 b)) supported) (missing_lts scope)

unfoldable pub validate_variant_lts : List Variant → List String → Result (Unit {0})
unfolding validate_scope
validate_variant_lts variants supported = do
  validate_scope "node" variants supported
  validate_scope "cluster" variants supported
