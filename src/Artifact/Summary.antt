-- ===== src/Artifact/Summary.antt =====
-- The summary that `finalize_collection_summary` writes counts the items, and the completion
-- status follows from the counts.
use mathlib.Core.Option.{some-injective}
use ch_diag.Artifact.{
  Artifact, CollectedItem, CollectionSummary, failed_statuses, is_failed, is_successful,
  successful_statuses, values,
}
use ch_diag.Artifact.Finish.{
  completion, finalize_collection_summary, is_complete, item_coverage_incomplete, uses_fallback,
}
use ch_diag.Prelude.{
  Bool, List, Option, String, [], ap, arith, eq_iff, false, inl, inr, refl, some, subst, suc, true,
  ℕ, ◌+◌, ◌<◌, ◌==◌, ◌↔◌, ◌∷◌, ◌≡◌, ◌≤◌, ◌⊎◌,
}
use ch_diag.Prelude.Lists.{All, count_if, elem, length}
use ch_diag.Prelude.Tests.{Bool-cases}

statuses_disjoint :
    (s : String) → elem s successful_statuses ≡ true → elem s failed_statuses ≡ false
statuses_disjoint s h = elim (Bool-cases ("ok" == s)) [
  | inl e ↦ subst (λ t. elem t failed_statuses ≡ false) ((eq_iff "ok" s).0 e) refl
  | inr e ↦
      let e' : ("empty" == s) ≡ true = ground arith in
      subst (λ t. elem t failed_statuses ≡ false) ((eq_iff "empty" s).0 e') refl
]

pub successful_not_failed : (i : CollectedItem) → is_successful i ≡ true → is_failed i ≡ false
unfolding is_successful is_failed
successful_not_failed i h = statuses_disjoint i.collection_status h

module _ {A : Type 0} (p q : A → Bool) where
  count_if-disjoint :
      (xs : List A)
      → ((x : A) → p x ≡ true → q x ≡ false)
      → count_if p xs + count_if q xs ≤ length xs
  count_if-disjoint [] h = omega arith
  count_if-disjoint (x ∷ xs) h = ground (arith, h x, count_if-disjoint xs h)

  count_if_mono :
      (xs : List A) → ((x : A) → p x ≡ true → q x ≡ true) → count_if p xs ≤ count_if q xs
  count_if_mono [] h = omega arith
  count_if_mono (x ∷ xs) h = ground (arith, h x, count_if_mono xs h)

module _ {A : Type 0} (p q r : A → Bool) where
  count_if-cover :
      (xs : List A)
      → ((x : A) → p x ≡ true → (q x ≡ true) ⊎ (r x ≡ true))
      → count_if p xs ≤ count_if q xs + count_if r xs
  count_if-cover [] h = omega arith
  count_if-cover (x ∷ xs) h = ground (arith, h x, count_if-cover xs h)

count_if-zero :
    {A : Type 0} (p : A → Bool) (xs : List A) → count_if p xs ≡ 0 → All (λ x. p x ≡ false) xs
count_if-zero p [] h = tt
count_if-zero p (x ∷ xs) h = elim (Bool-cases (p x)) [
  | inl e ↦ absurd (let z : suc (count_if p xs) ≡ 0 = rw e at h in omega arith)
  | inr e ↦ (e, count_if-zero p xs (rw e at h))
]

zero-count_if :
    {A : Type 0} (p : A → Bool) (xs : List A) → All (λ x. p x ≡ false) xs → count_if p xs ≡ 0
zero-count_if p [] a = refl
zero-count_if p (x ∷ xs) a = rw a.0 (zero-count_if p xs a.1)

completion_succeeded : (f s c : ℕ) → (completion f s c ≡ "succeeded") ↔ ((f ≡ 0) × (c ≡ 0))
unfolding completion
completion_succeeded f s c =
    ground (arith, eq_iff "failed" "succeeded", eq_iff "partial" "succeeded")

completion_failed : (f s c : ℕ) → (completion f s c ≡ "failed") ↔ ((0 < f) × (s ≡ 0))
unfolding completion
completion_failed f s c = ground (arith, eq_iff "partial" "failed", eq_iff "succeeded" "failed")

-- The counts of a summary fit together.
pub record IsConsistent (s : CollectionSummary) : Type 0 where
  pub disjoint : s.successful_items + s.failed_items ≤ s.total_items
  pub complete : s.complete_items ≤ s.successful_items
  pub covered : s.successful_items ≤ s.complete_items + s.coverage_incomplete_items

-- The completion status says of the items: "succeeded" exactly when none failed and none has
-- incomplete coverage, "failed" exactly when some item failed and none was successful.
pub record Tells (items : List CollectedItem) (status : Option String) : Type 0 where
  pub succeeded :
      (status ≡ some "succeeded")
      ↔ (All (λ i. is_failed i ≡ false) items × All (λ i. item_coverage_incomplete i ≡ false) items)
  pub failed :
      (status ≡ some "failed")
      ↔ ((0 < count_if is_failed items) × All (λ i. is_successful i ≡ false) items)

-- The summary of an artifact counts its items: no item is both successful and failed, a complete
-- item is successful, and a successful one is complete unless its coverage is not.
pub finalize-IsConsistent :
    (a : Artifact) (s : CollectionSummary)
    → (finalize_collection_summary a).collection_summary ≡ some s
    → IsConsistent s
unfolding finalize_collection_summary
finalize-IsConsistent a s h = subst IsConsistent (some_path h) (counts (values a.items))
  where
    some_path : {s t : CollectionSummary} → some s ≡ some t → s ≡ t
    some_path e = cc e

    counts :
        (items : List CollectedItem)
        → IsConsistent (record {
          total_items = length items;
          successful_items = count_if is_successful items;
          complete_items = count_if is_complete items;
          failed_items = count_if is_failed items;
          coverage_incomplete_items = count_if item_coverage_incomplete items;
          fallback_items = count_if uses_fallback items;
        })
    counts items = record {
      disjoint = count_if-disjoint is_successful is_failed items successful_not_failed;
      complete = count_if_mono is_complete is_successful items complete_successful;
      covered = count_if-cover is_successful is_complete item_coverage_incomplete items split;
    }
      where
        complete_successful : (i : CollectedItem) → is_complete i ≡ true → is_successful i ≡ true
        complete_successful i e = ground arith

        split :
            (i : CollectedItem)
            → is_successful i ≡ true
            → (is_complete i ≡ true) ⊎ (item_coverage_incomplete i ≡ true)
        split i e = ground arith

-- The completion status of a finalized artifact tells the outcome of its items.
pub finalize-Tells :
    (a : Artifact) → Tells (values a.items) (finalize_collection_summary a).completion_status
unfolding finalize_collection_summary
finalize-Tells a =
    let items = values a.items in
    let f = count_if is_failed items in
    let s = count_if is_successful items in
    let c = count_if item_coverage_incomplete items in
    record {
      succeeded = (
        λ e.
            let (none_failed, none_cut) = (completion_succeeded f s c).0 (some-injective _ _ e) in
            (
              count_if-zero is_failed items none_failed,
              count_if-zero item_coverage_incomplete items none_cut,
            ),
        λ (a, b). ap some (
            (completion_succeeded f s c).1
              (zero-count_if is_failed items a, zero-count_if item_coverage_incomplete items b)),
      );
      failed = (
        λ e.
            let (some_failed, none_ok) = (completion_failed f s c).0 (some-injective _ _ e) in
            (some_failed, count_if-zero is_successful items none_ok),
        λ (a, b). ap some ((completion_failed f s c).1 (a, zero-count_if is_successful items b)),
      );
    }
