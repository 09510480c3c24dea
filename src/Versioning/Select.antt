-- ===== src/Versioning/Select.antt =====
-- `select_variant`: which variant it takes, when there is none, and when it raises.
use ch_diag.Prelude.{
  Bool, List, Option, String, [], ap, arith, inl, inr, none, refl, some, subst, suc, sym, true, ◌↔◌,
  ◌∙◌, ◌∷◌, ◌≡◌, ◌≤◌,
}
use ch_diag.Prelude.Lists.{Any, Any-of-keep, count_if, keep, length}
use ch_diag.Prelude.Results.{Result, err, ok, overlapping_variants}
use ch_diag.Prelude.Tests.{Bool-cases}
use ch_diag.Versioning.{Variant, Version, resolve_lts_branch, select_variant, serves, single}

module _ {ℓ} {A : Type ℓ} where
  length-keep : (p : A → Bool) (xs : List A) → length (keep p xs) ≡ count_if p xs
  length-keep p [] = refl
  length-keep p (x ∷ xs) = elim (Bool-cases (p x)) [
    | inl e ↦ rw e (ap suc (length-keep p xs))
    | inr e ↦ rw e (length-keep p xs)
  ]

-- What the number of matching variants says of the result of `select_variant`.
pub record IsSelection (variants : List Variant) (lts scope : String)
    (result : Result (Option Variant)) : Type 0 where
  pub none_iff : (result ≡ ok none) ↔ (count_if (serves lts scope) variants ≡ 0)
  pub overlap_iff :
      ((ids : List String) × (result ≡ err (overlapping_variants ids)))
      ↔ (2 ≤ count_if (serves lts scope) variants)
  pub chosen :
      (r : Variant)
      → result ≡ ok (some r)
      → (count_if (serves lts scope) variants ≡ 1)
        × Any (λ x. (x ≡ r) × (serves lts scope x ≡ true)) variants

single-none : (ms : List Variant) → (single ms ≡ ok none) ↔ (length ms ≡ 0)
unfolding single
single-none [] = ((λ _. refl), (λ _. refl))
single-none (m ∷ []) = ((λ e. cc), (λ e. absurd (omega arith)))
single-none (m ∷ n ∷ ms) = ((λ e. cc), (λ e. absurd (omega arith)))

single-overlap :
    (ms : List Variant)
    → ((ids : List String) × (single ms ≡ err (overlapping_variants ids))) ↔ (2 ≤ length ms)
unfolding single
single-overlap [] = ((λ (ids, e). cc), (λ e. absurd (omega arith)))
single-overlap (m ∷ []) = ((λ (ids, e). cc), (λ e. absurd (omega arith)))
single-overlap (m ∷ n ∷ ms) = ((λ _. omega arith), (λ _. (_, refl)))

single-some : (ms : List Variant) (r : Variant) → single ms ≡ ok (some r) → (ms ≡ r ∷ [])
unfolding single
single-some [] r e = cc
single-some (m ∷ []) r e = cc
single-some (m ∷ n ∷ ms) r e = cc

single-IsSelection :
    (variants : List Variant) (lts scope : String)
    → IsSelection variants lts scope (single (keep (serves lts scope) variants))
single-IsSelection variants lts scope =
    let same = length-keep (serves lts scope) variants in
    let n = single-none (keep (serves lts scope) variants) in
    let o = single-overlap (keep (serves lts scope) variants) in
    record {
      none_iff = ((λ e. sym same ∙ n.0 e), (λ e. n.1 (same ∙ e)));
      overlap_iff =
          ((λ e. subst (λ k. 2 ≤ k) same (o.0 e)), (λ h. o.1 (subst (λ k. 2 ≤ k) (sym same) h)));
      chosen = λ r e.
          let one = single-some (keep (serves lts scope) variants) r e in
          (
            sym same ∙ ap length one,
            Any-of-keep (λ x. x ≡ r) (serves lts scope) variants
                (subst (Any (λ x. x ≡ r)) (sym one) (inl refl)),
          );
    }

-- Once the server version resolves to a branch: there is no variant exactly when none serves that
-- branch and the scope, the call raises exactly when several do, and a variant that it gives is
-- the only one that does.
pub select_variant-IsSelection :
    (variants : List Variant) (v : Version) (scope lts : String) (supported : List String)
    → resolve_lts_branch v supported ≡ ok (some lts)
    → IsSelection variants lts scope (select_variant variants v scope (some supported))
unfolding select_variant
select_variant-IsSelection variants v scope lts supported resolved =
    rw resolved (single-IsSelection variants lts scope)
