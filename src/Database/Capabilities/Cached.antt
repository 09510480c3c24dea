-- ===== src/Database/Capabilities/Cached.antt =====
-- The cache changes no answer: `supports_requirements` against a check that asks the catalog for
-- every name.
use ch_diag.Artifact.{values}
use ch_diag.Database.Capabilities.{
  Cache, Catalog, Key, Requires, cached, check_name, column_key, find_missing, follow, from_cache,
  object_exists, remember, same_key, same_parts, supports_requirements, table_key, unless_found,
  verdict,
}
use ch_diag.Database.Reconnect.{and_then}
use ch_diag.Database.Session.{Reply, gave, threw}
use ch_diag.Database.Sql.{split_qualified_name}
use ch_diag.Planner.Plan.{plain}
use ch_diag.Prelude.{
  Bool, List, Option, String, [], ap, arith, eq_iff, inl, inr, none, refl, some, subst, sym, true,
  ℕ, ◌∙◌, ◌∷◌, ◌≡◌,
}
use ch_diag.Prelude.Lists.{All}
use ch_diag.Prelude.Tests.{Bool-cases}

-- every entry is what the catalog says
abbrev pub IsSound : Catalog → Cache → Type 0
IsSound catalog cache = All (λ (entry : Key × Bool). catalog entry.0 ≡ gave entry.1) cache

same_parts-eq : (xs ys : List String) → same_parts xs ys ≡ true → xs ≡ ys
same_parts-eq [] [] h = refl
same_parts-eq [] (y ∷ ys) h = cc
same_parts-eq (x ∷ xs) [] h = cc
same_parts-eq (x ∷ xs) (y ∷ ys) h = ground (arith, eq_iff x y, same_parts-eq xs ys)

same_key-eq : (j k : Key) → same_key j k ≡ true → j ≡ k
same_key-eq (table_key xs) (table_key ys) h = ap table_key (same_parts-eq xs ys h)
same_key-eq (table_key xs) (column_key ys) h = cc
same_key-eq (column_key xs) (table_key ys) h = cc
same_key-eq (column_key xs) (column_key ys) h = ap column_key (same_parts-eq xs ys h)

module _ (catalog : Catalog) where
  cached-IsSound :
      (k : Key) (cache : Cache) (b : Bool)
      → IsSound catalog cache
      → cached k cache ≡ some b
      → catalog k ≡ gave b
  cached-IsSound k [] b s h = cc
  cached-IsSound k ((j, c) ∷ rest) b s h = elim (Bool-cases (same_key j k)) [
    | inl e ↦
        let found : some c ≡ some b = rw e at h in
        subst (λ x. catalog x ≡ gave b) (same_key-eq j k e)
          (s.0 ∙ (let same : c ≡ b = cc found in ap gave same))
    | inr e ↦ cached-IsSound k rest b s.1 (rw e at h)
  ]

  -- the check without a cache
  unfoldable pub plain_missing :
      ℕ → (List String → Key) → List String → List String → Reply (List String)
  unfolding split_qualified_name
  plain_missing expected key [] missing = gave missing
  plain_missing expected key (value ∷ values) missing =
      and_then
        (and_then (split_qualified_name expected value) λ pieces.
          and_then (catalog (key pieces)) λ found. gave (unless_found value missing found))
        (plain_missing expected key values)

  unfoldable pub plain_supports : Requires → Reply (Bool × Option String)
  unfolding plain_missing
  plain_supports required = and_then (plain_missing 2 table_key required.tables []) λ missing.
      and_then (plain_missing 3 column_key required.columns missing) λ all. gave (verdict all)

  -- a sound cache stays sound, and the reply is that of the catalog
  abbrev pub Agrees {ℓ} : {A : Type ℓ} → Cache × Reply A → Reply A → Type ℓ
  Agrees (cache, reply) r = IsSound catalog cache × (reply ≡ r)

  follow-Agrees {ℓ κ} :
      {A : Type ℓ} {B : Type κ} (x : Cache × Reply A) (r : Reply A)
      (next : A → Cache → Cache × Reply B) (plain : A → Reply B)
      → Agrees x r
      → ((a : A) (cache : Cache) → IsSound catalog cache → Agrees (next a cache) (plain a))
      → Agrees (follow x next) (and_then r plain)
  follow-Agrees (cache, threw e) r next plain h k =
      subst (λ y. Agrees (follow (cache, threw e) next) (and_then y plain)) h.1 (h.0, refl)
  follow-Agrees (cache, gave a) r next plain h k =
      subst (λ y. Agrees (follow (cache, gave a) next) (and_then y plain)) h.1 (k a cache h.0)

  object_exists-Agrees :
      (k : Key) (cache : Cache)
      → IsSound catalog cache
      → Agrees (object_exists catalog k cache) (catalog k)
  unfolding object_exists
  object_exists-Agrees k cache s = by_cache (cached k cache) refl
    where
      by_catalog : (r : Reply Bool) → catalog k ≡ r → Agrees (remember k cache r) r
      by_catalog (threw e) h = (s, refl)
      by_catalog (gave b) h = ((h, s), refl)

      by_cache :
          (o : Option Bool) → cached k cache ≡ o → Agrees (from_cache catalog k cache o) (catalog k)
      by_cache none h = by_catalog (catalog k) refl
      by_cache (some b) h = (s, sym (cached-IsSound k cache b s h))

  check_name-Agrees :
      (key : List String → Key) (value : String) (missing : List String) (cache : Cache)
      (pieces : Reply (List String))
      → IsSound catalog cache
      → Agrees (check_name catalog key value missing cache pieces) (
          and_then pieces
            λ found. and_then (catalog (key found)) λ b. gave (unless_found value missing b))
  unfolding check_name
  check_name-Agrees key value missing cache (threw e) s = (s, refl)
  check_name-Agrees key value missing cache (gave pieces) s =
      follow-Agrees (object_exists catalog (key pieces) cache) (catalog (key pieces)) _ _
        (object_exists-Agrees (key pieces) cache s) (λ b later t. (t, refl))

  find_missing-Agrees :
      (expected : ℕ) (key : List String → Key) (values missing : List String) (cache : Cache)
      → IsSound catalog cache
      → Agrees
          (find_missing catalog expected key values missing cache)
          (plain_missing expected key values missing)
  unfolding find_missing plain_missing
  find_missing-Agrees expected key [] missing cache s = (s, refl)
  find_missing-Agrees expected key (value ∷ values) missing cache s =
      follow-Agrees
        (check_name catalog key value missing cache (split_qualified_name expected value)) _ _ _
        (check_name-Agrees key value missing cache (split_qualified_name expected value) s)
        (λ found later t. find_missing-Agrees expected key values found later t)

  -- With a cache that holds what the catalog said, `supports_requirements` replies as a check that
  -- asks the catalog for every name, exceptions included, and leaves such a cache.
  pub supports_requirements-Agrees :
      (required : Requires) (cache : Cache)
      → IsSound catalog cache
      → Agrees (supports_requirements catalog required cache) (plain_supports required)
  unfolding supports_requirements plain_supports
  supports_requirements-Agrees required cache s =
      follow-Agrees (find_missing catalog 2 table_key required.tables [] cache) _ _ _
        (find_missing-Agrees 2 table_key required.tables [] cache s)
        λ missing later t.
          follow-Agrees (find_missing catalog 3 column_key required.columns missing later) _ _ _
            (find_missing-Agrees 3 column_key required.columns missing later t)
            λ all last u. (u, refl)
