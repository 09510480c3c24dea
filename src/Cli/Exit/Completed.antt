-- ===== src/Cli/Exit/Completed.antt =====
-- The exit status of a collection against what its items came to.
use ch_diag.Artifact.{Artifact, CollectedItem, is_failed, is_successful, values}
use ch_diag.Artifact.Finish.{completion, finalize_collection_summary, item_coverage_incomplete}
use ch_diag.Cli.Exit.{
  Code, Command, Ending, artifact_fails, cancelled, collection_exit_status, collects,
  execution_error, exit_code, exited, exited_code, integrity_error, interrupted, machine_code,
  machine_status, other_error, validates, validation_error,
}
use ch_diag.Prelude.{
  Bool, List, [], ap₂, arith, false, inl, inr, map, refl, subst, sym, true, ℕ, ◌&&◌, ◌==◌, ◌||◌,
  ◌↔◌, ◌∙◌, ◌∷◌, ◌≡◌,
}
use ch_diag.Prelude.Lists.{any, count_if, elem}
use ch_diag.Prelude.Tests.{Bool-cases, if_both, if_cases, if◌then◌else◌, ltb, nat_eq}

-- an item that failed, or whose coverage is not complete
abbrev pub falls_short : CollectedItem → Bool
falls_short i = is_failed i || item_coverage_incomplete i

abbrev pub artifact_falls_short : Artifact → Bool
artifact_falls_short a = any falls_short (values a.items)

count_if-positive {ℓ} : {A : Type ℓ} (p : A → Bool) (xs : List A) → ltb 0 (count_if p xs) ≡ any p xs
count_if-positive p [] = refl
count_if-positive p (x ∷ xs) = ground (arith, count_if-positive p xs)

any-or {ℓ} :
    {A : Type ℓ} (p q : A → Bool) (xs : List A) → any (λ x. p x || q x) xs ≡ (any p xs || any q xs)
any-or p q [] = refl
any-or p q (x ∷ xs) = ground (arith, any-or p q xs)

completion-incomplete :
    (f s c : ℕ) → elem (completion f s c) ("partial" ∷ "failed" ∷ []) ≡ (ltb 0 f || ltb 0 c)
unfolding completion
completion-incomplete f s c = by_tests (ltb 0 f) (nat_eq s 0) (ltb 0 c)
  where
    by_tests :
        (x y z : Bool)
        → elem
            (if x && y then "failed" else if x || z then "partial" else "succeeded")
            ("partial" ∷ "failed" ∷ [])
          ≡ (x || z)
    by_tests true true z = refl
    by_tests true false z = refl
    by_tests false y true = refl
    by_tests false y false = refl

or_false_right : (b : Bool) → (b || false) ≡ b
or_false_right true = refl
or_false_right false = refl

finalize-fails :
    (a : Artifact) → artifact_fails (finalize_collection_summary a) ≡ artifact_falls_short a
unfolding artifact_fails finalize_collection_summary
finalize-fails a =
    or_false_right _
    ∙ (completion-incomplete (count_if is_failed items) (count_if is_successful items)
          (count_if item_coverage_incomplete items)
        ∙ (ap₂ ◌||◌ (count_if-positive is_failed items)
              (count_if-positive item_coverage_incomplete items)
            ∙ sym (any-or is_failed item_coverage_incomplete items)))
  where
    items : List CollectedItem
    items = values a.items

-- The exit status of a collection whose artifacts have their summaries is 1 exactly when some item of
-- some artifact failed or has no complete coverage, and 0 otherwise.
pub collection_exit_status-completed :
    (artifacts : List Artifact)
    → collection_exit_status (map finalize_collection_summary artifacts)
      ≡ (if any artifact_falls_short artifacts then 1 else 0)
unfolding collection_exit_status
collection_exit_status-completed [] = refl
collection_exit_status-completed (a ∷ rest) =
    ground (arith, finalize-fails a, collection_exit_status-completed rest)

-- what the machine interface says and what the program exits with agree
abbrev pub IsTruthful : Command → Ending → Bool → Type 0
IsTruthful command ending has_artifacts =
    ((exit_code (machine_code command ending has_artifacts) ≡ 0) ↔ (ending ≡ exited 0))
    × ((machine_status (machine_code command ending has_artifacts) == "partial") ≡ true
        → (collects command ≡ true) × (has_artifacts ≡ true))

-- of a code other than that of success
abbrev IsFailure : Command → Bool → Code → Type 0
IsFailure command has_artifacts code =
    (exit_code code ≡ 0 → ⊥)
    × ((machine_status code == "partial") ≡ true
        → (collects command ≡ true) × (has_artifacts ≡ true))

exited_code-IsFailure :
    (command : Command) (n : ℕ) (has_artifacts : Bool)
    → nat_eq n 0 ≡ false
    → IsFailure command has_artifacts (exited_code command n has_artifacts)
unfolding exited_code
exited_code-IsFailure command n has_artifacts h = rw h (
    if_cases Q (validates command || nat_eq n 2) _ _
      (λ t. ((λ e. omega arith), (λ e. absurd (let x : ⊥ = cc e in x))))
      λ f.
        if_cases Q (collects command && has_artifacts) _ _
          (λ t. ((λ e. omega arith), (λ e. (ground arith, ground arith))))
          (λ g. ((λ e. omega arith), (λ e. absurd (let x : ⊥ = cc e in x)))))
  where
    Q : Code → Type 0
    Q = IsFailure command has_artifacts

-- a code that is neither success nor partial, of an ending that is no exit with 0
plain_failure :
    (command : Command) (ending : Ending) (has_artifacts : Bool) (code : Code)
    → (exit_code code ≡ 0 → ⊥)
    → (ending ≡ exited 0 → ⊥)
    → ((machine_status code == "partial") ≡ true → ⊥)
    → ((exit_code code ≡ 0) ↔ (ending ≡ exited 0))
      × ((machine_status code == "partial") ≡ true
          → (collects command ≡ true) × (has_artifacts ≡ true))
plain_failure command ending has_artifacts code wrong other whole =
    (((λ e. absurd (wrong e)), (λ e. absurd (other e))), (λ k. absurd (whole k)))

-- The machine interface tells the truth about how a command ended: its code is 0 exactly when the
-- command exited with 0, and it says that a result is partial only of a collection that left
-- artifacts.
pub machine_code-IsTruthful :
    (command : Command) (ending : Ending) (has_artifacts : Bool)
    → IsTruthful command ending has_artifacts
unfolding machine_code exited_code
machine_code-IsTruthful command (exited n) has_artifacts = elim (Bool-cases (nat_eq n 0)) [
  | inl t ↦
      let zero_n : n ≡ 0 = ground arith in
      subst (λ m. IsTruthful command (exited m) has_artifacts) (sym zero_n) success_is
  | inr f ↦
      let (wrong, some_left) = exited_code-IsFailure command n has_artifacts f in
      (
        (
          λ e. absurd (wrong e),
          λ e. absurd (let same : n ≡ 0 = cc e in let x : ⊥ = ground (arith, f, same) in x),
        ),
        some_left,
      )
]
  where
    success_is : IsTruthful command (exited 0) has_artifacts
    success_is = (((λ _. refl), (λ _. refl)), (λ k. absurd (let x : ⊥ = cc k in x)))
machine_code-IsTruthful command interrupted has_artifacts =
    plain_failure command interrupted has_artifacts cancelled (λ e. omega arith) (λ e. cc e)
      (λ k. cc k)
machine_code-IsTruthful command integrity_error has_artifacts =
    plain_failure command integrity_error has_artifacts validation_error (λ e. omega arith)
      (λ e. cc e) (λ k. cc k)
machine_code-IsTruthful command other_error has_artifacts =
    if_both
      (λ code.
        ((exit_code code ≡ 0) ↔ (other_error ≡ exited 0))
        × ((machine_status code == "partial") ≡ true
            → (collects command ≡ true) × (has_artifacts ≡ true)))
      (validates command) _ _
      (plain_failure command other_error has_artifacts validation_error (λ e. omega arith)
        (λ e. cc e) (λ k. cc k))
      (plain_failure command other_error has_artifacts execution_error (λ e. omega arith)
        (λ e. cc e) (λ k. cc k))
