-- ===== src/Content/Lts/Coverage.antt =====
-- A validated query has exactly one variant for each supported branch, so that `select_variant`
-- neither raises nor comes back empty.
use ch_diag.Collector.Lifecycle.{after}
use ch_diag.Content.{find_key}
use ch_diag.Content.Lts.{
  Assigned, assign_branches, assign_variants, is_assigned, raise_assigned, validate_scope,
  validate_variant_lts,
}
use ch_diag.Prelude.{
  Bool, List, Option, String, [], ap, arith, eq_iff, false, inl, inr, none, not, refl, some, subst,
  sym, true, ℕ, ◌&&◌, ◌++◌, ◌+◌, ◌==◌, ◌||◌, ◌∙◌, ◌∷◌, ◌≡◌, ◌⊎◌,
}
use ch_diag.Prelude.Lists.{Any, any, count_if, elem, first, keep, length}
use ch_diag.Prelude.Results.{>>=-eq-ok, missing_lts, ok, raise_if}
use ch_diag.Prelude.Tests.{Bool-cases}
use ch_diag.Versioning.{
  Variant, Version, resolve_lts_branch, select_among, select_variant, serves, single,
  variant_scopes,
}
use ch_diag.Versioning.Resolve.{resolve_lts_branch-IsNearest}

abbrev as_number : Bool → ℕ
as_number false = 0
as_number true = 1

find_key-is_assigned :
    (b : String) (assigned : Assigned) → find_key b assigned ≡ none → is_assigned assigned b ≡ false
unfolding find_key
find_key-is_assigned b [] h = refl
find_key-is_assigned b ((c, id) ∷ rest) h = elim (Bool-cases (c == b)) [
  | inl e ↦ absurd (let x : ⊥ = cc (rw (e, find_key) at h) in x)
  | inr e ↦ rw e (find_key-is_assigned b rest (rw (e, find_key) at h))
]

is_assigned-snoc :
    (assigned : Assigned) (c id b : String)
    → is_assigned (assigned ++ ((c, id) ∷ [])) b ≡ (is_assigned assigned b || (c == b))
is_assigned-snoc [] c id b = ground arith
is_assigned-snoc ((d, j) ∷ rest) c id b = ground (arith, is_assigned-snoc rest c id b)

-- the branches of one variant are new, each once
assign_branches-adds :
    (id : String) (bs : List String) (before after : Assigned) (b : String)
    → assign_branches id bs before ≡ ok after
    → as_number (is_assigned before b) + as_number (elem b bs) ≡ as_number (is_assigned after b)
unfolding assign_branches
assign_branches-adds id [] before after b h =
    let e : before ≡ after = cc h in
    ap (λ (a : Assigned). as_number (is_assigned a b) + 0) e ∙ omega arith
assign_branches-adds id (c ∷ bs) before after b h =
    let (_, free, h') = >>=-eq-ok (raise_assigned c id (find_key c before)) _ h in
    let ih = assign_branches-adds id bs (before ++ ((c, id) ∷ [])) after b h' in
    let new = find_key-is_assigned c before (unassigned (find_key c before) free) in
    elim (Bool-cases (c == b)) [
      | inl e ↦
          let new' = subst (λ d. is_assigned before d ≡ false) ((eq_iff c b).0 e) new in
          step (is_assigned before b) (c == b) (elem b bs) (is_assigned after b)
            (rw (is_assigned-snoc before c id b) at ih) (λ _. new')
      | inr e ↦
          step (is_assigned before b) (c == b) (elem b bs) (is_assigned after b)
            (rw (is_assigned-snoc before c id b) at ih) (λ t. absurd (let x : ⊥ = cc (e, t) in x))
    ]
  where
    step :
        (x y z w : Bool)
        → as_number (x || y) + as_number z ≡ as_number w
        → (y ≡ true → x ≡ false)
        → as_number x + as_number (y || z) ≡ as_number w
    step true true z w k g = absurd (let b : ⊥ = cc (g refl) in b)
    step false true false w k g = k
    step false true true true k g = absurd (omega (arith, k))
    step false true true false k g = absurd (omega (arith, k))
    step x false z w k g = ground (arith, k)

    unassigned : {u : Unit {0}} (o : Option String) → raise_assigned c id o ≡ ok u → o ≡ none
    unassigned none k = refl
    unassigned (some p) k = absurd (let x : ⊥ = cc k in x)

-- no branch has two variants of the scope
assign_variants-counts :
    (scope : String) (rs : List Variant) (declared : Bool) (before : Assigned)
    (found : Bool × Assigned) (lts : String)
    → assign_variants scope rs declared before ≡ ok found
    → (count_if (serves lts scope) rs + as_number (is_assigned before lts)
        ≡ as_number (is_assigned found.1 lts))
      × (found.0 ≡ (declared || any (λ r. elem scope (variant_scopes r)) rs))
unfolding assign_variants serves
assign_variants-counts scope [] declared before found lts h =
    let e : (declared, before) ≡ found = cc h in
    subst
      (λ (f : Bool × Assigned).
        (0 + as_number (is_assigned before lts) ≡ as_number (is_assigned f.1 lts))
        × (f.0 ≡ (declared || false)))
      e (omega arith, ground arith)
assign_variants-counts scope (r ∷ rs) declared before found lts h =
    elim (Bool-cases (elem scope (variant_scopes r))) [
      | inl e ↦
          let (next, first, h') =
            >>=-eq-ok (assign_branches r.id r.lts_versions before) _
              (rw (e, assign_variants) at h) in
          let (counts, declares) = assign_variants-counts scope rs true next found lts h' in
          let adds = assign_branches-adds r.id r.lts_versions before next lts first in
          (ground (arith, e, counts, adds), ground (arith, e, declares))
      | inr e ↦
          let (counts, declares) =
            assign_variants-counts scope rs declared before found lts
              (rw (e, assign_variants) at h) in
          (ground (arith, e, counts), ground (arith, e, declares))
    ]

keep-count {ℓ} : {A : Type ℓ} (p : A → Bool) (xs : List A) → length (keep p xs) ≡ count_if p xs
keep-count p [] = refl
keep-count p (x ∷ xs) = ground (arith, keep-count p xs)

is_assigned-covered :
    (assigned : Assigned) (b : String) (supported : List String)
    → elem b supported ≡ true
    → any (λ c. not (is_assigned assigned c)) supported ≡ false
    → is_assigned assigned b ≡ true
is_assigned-covered assigned b [] h k = absurd (let x : ⊥ = cc h in x)
is_assigned-covered assigned b (c ∷ cs) h k = elim (Bool-cases (c == b)) [
  | inl e ↦ subst (λ d. is_assigned assigned d ≡ true) ((eq_iff c b).0 e) (ground (arith, k))
  | inr e ↦ is_assigned-covered assigned b cs (ground (arith, e, h)) (ground (arith, k))
]

single-one : (rs : List Variant) → length rs ≡ 1 → (r : Variant) × (single rs ≡ ok (some r))
unfolding single
single-one [] h = absurd (omega (arith, h))
single-one (r ∷ []) h = (r, refl)
single-one (r ∷ s ∷ rs) h = absurd (omega (arith, h))

single-none : (rs : List Variant) → length rs ≡ 0 → single rs ≡ ok none
unfolding single
single-none [] h = refl
single-none (r ∷ rs) h = absurd (omega (arith, h))

-- a variant is meant for the scope
abbrev pub declares : String → List Variant → Bool
declares scope variants = any (λ r. elem scope (variant_scopes r)) variants

validate_scope-covers :
    (scope lts : String) (variants : List Variant) (supported : List String) (u : Unit {0})
    → elem lts supported ≡ true
    → declares scope variants ≡ true
    → validate_scope scope variants supported ≡ ok u
    → length (keep (serves lts scope) variants) ≡ 1
unfolding validate_scope
validate_scope-covers scope lts variants supported u listed declared h =
    let (found, assigned, h') = >>=-eq-ok (assign_variants scope variants false []) _ h in
    let (counts, same) = assign_variants-counts scope variants false [] found lts assigned in
    let covered = is_assigned-covered found.1 lts supported listed (all_covered found same h') in
    keep-count (serves lts scope) variants ∙ omega (arith, counts, ap as_number covered)
  where
    all_covered :
        (found : Bool × Assigned)
        → found.0 ≡ (false || declares scope variants)
        → raise_if (found.0 && any (λ b. not (is_assigned found.1 b)) supported) (missing_lts scope)
          ≡ ok u
        → any (λ b. not (is_assigned found.1 b)) supported ≡ false
    all_covered found same k =
        elim (Bool-cases (any (λ b. not (is_assigned found.1 b)) supported)) [
          | inl e ↦ absurd (let x : ⊥ = cc (rw (same, declared, e) at k) in x)
          | inr e ↦ e
        ]

undeclared :
    (scope lts : String) (variants : List Variant)
    → declares scope variants ≡ false
    → length (keep (serves lts scope) variants) ≡ 0
unfolding serves
undeclared scope lts [] h = refl
undeclared scope lts (r ∷ rs) h = ground (arith, h, undeclared scope lts rs)

elem-of-Any : (b : String) (xs : List String) → Any (λ x. x ≡ b) xs → elem b xs ≡ true
elem-of-Any b [] h = absurd h
elem-of-Any b (x ∷ xs) (inl e) = rw ((eq_iff x b).1 e) refl
elem-of-Any b (x ∷ xs) (inr h) = ground (arith, elem-of-Any b xs h)

-- For a query whose variants `_validate_variant_lts` accepts and a server that resolves to a
-- supported branch, `select_variant` never raises: it gives a variant if some variant is meant for
-- the scope, and none otherwise.
pub select_variant-covered :
    (variants : List Variant) (supported : List String) (v : Version) (scope lts : String)
    → (scope ≡ "node") ⊎ (scope ≡ "cluster")
    → validate_variant_lts variants supported ≡ ok tt
    → resolve_lts_branch v supported ≡ ok (some lts)
    → (declares scope variants ≡ true
        → (r : Variant) × (select_variant variants v scope (some supported) ≡ ok (some r)))
      × (declares scope variants ≡ false
          → select_variant variants v scope (some supported) ≡ ok none)
unfolding select_variant select_among validate_variant_lts
select_variant-covered variants supported v scope lts which valid resolved = rw resolved (
  λ d. single-one (keep (serves lts scope) variants) (one which d),
  λ d. single-none (keep (serves lts scope) variants) (undeclared scope lts variants d),
)
  where
    listed : elem lts supported ≡ true
    listed =
        elem-of-Any lts supported (resolve_lts_branch-IsNearest v supported lts resolved).listed

    one :
        (scope ≡ "node") ⊎ (scope ≡ "cluster")
        → declares scope variants ≡ true
        → length (keep (serves lts scope) variants) ≡ 1
    one which d =
        let (_, on_node, on_cluster) =
          >>=-eq-ok (validate_scope "node" variants supported) _ valid in
        elim which [
          | inl e ↦
              validate_scope-covers scope lts variants supported _ listed d
                (subst (λ s. validate_scope s variants supported ≡ ok _) (sym e) on_node)
          | inr e ↦
              validate_scope-covers scope lts variants supported _ listed d
                (subst (λ s. validate_scope s variants supported ≡ ok _) (sym e) on_cluster)
        ]
