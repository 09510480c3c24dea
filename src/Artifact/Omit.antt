-- ===== src/Artifact/Omit.antt =====
-- `omit_uncollected_items` takes the omitted items out of the items and out of the sections.
use ch_diag.Artifact.{CollectedItem, keys, put_item}
use ch_diag.Artifact.Finish.{drop_items, retain_sections, strip_items}
use ch_diag.Planner.Build.{PlanSection}
use ch_diag.Planner.Build.Listing.{listed}
use ch_diag.Prelude.{
  Bool, List, String, [], ap, arith, eq_iff, inl, inr, not, refl, sym, ◌&&◌, ◌++◌, ◌==◌, ◌||◌, ◌∙◌,
  ◌∷◌, ◌≡◌, ◌⊎◌,
}
use ch_diag.Prelude.Lists.{elem, keep}
use ch_diag.Prelude.Tests.{Bool-cases}

pub elem-keys-put_item :
    (x k : String) (i : CollectedItem) (items : List (String × CollectedItem))
    → elem x (keys (put_item k i items)) ≡ (elem x (keys items) || k == x)
unfolding put_item
elem-keys-put_item x k i [] = ground arith
elem-keys-put_item x k i ((j, old) ∷ rest) =
    ground (arith, elem-keys-put_item x k i rest, eq_iff j k, eq_iff j x, eq_iff k x)

pub elem-keys-drop_items :
    (x : String) (omitted : List String) (items : List (String × CollectedItem))
    → elem x (keys (drop_items omitted items)) ≡ (elem x (keys items) && not (elem x omitted))
unfolding drop_items
elem-keys-drop_items x omitted [] = refl
elem-keys-drop_items x omitted ((k, i) ∷ rest) = ground (
  arith,
  elem-keys-drop_items x omitted rest,
  eq_iff k x,
  λ (e : k ≡ x). ap (λ y. elem y omitted) e,
)

pub keys-strip_items :
    (items : List (String × CollectedItem)) → keys (strip_items items) ≡ keys items
unfolding strip_items
keys-strip_items [] = refl
keys-strip_items ((k, i) ∷ rest) = ap (λ (ks : List String). k ∷ ks) (keys-strip_items rest)

keep-append {ℓ} :
    {A : Type ℓ} (p : A → Bool) (xs ys : List A) → keep p (xs ++ ys) ≡ keep p xs ++ keep p ys
keep-append p [] ys = refl
keep-append p (x ∷ xs) ys = elim (Bool-cases (p x)) [
  | inl e ↦ rw e (ap (λ zs. x ∷ zs) (keep-append p xs ys))
  | inr e ↦ rw e (keep-append p xs ys)
]

-- The sections that are retained list, in order, what the sections listed and nothing omitted; a
-- section that is left with no item is gone.
pub listed-retain_sections :
    (omitted : List String) (secs : List PlanSection)
    → listed (retain_sections omitted secs) ≡ keep (λ id. not (elem id omitted)) (listed secs)
unfolding retain_sections
listed-retain_sections omitted [] = refl
listed-retain_sections omitted (s ∷ rest) =
    let p : String → Bool = λ id. not (elem id omitted) in
    elim (shape (keep p s.items)) [
      | inl e ↦
          rw (e, retain_sections)
            (listed-retain_sections omitted rest ∙ sym (keep-append p s.items (listed rest) ∙ rw e))
      | inr (y, ys, e) ↦
          rw (e, retain_sections)
            (ap (λ (zs : List String). (y ∷ ys) ++ zs) (listed-retain_sections omitted rest)
              ∙ sym (keep-append p s.items (listed rest) ∙ rw e))
    ]
  where
    shape : (l : List String) → (l ≡ []) ⊎ ((y : String) × (ys : List String) × (l ≡ y ∷ ys))
    shape [] = inl refl
    shape (y ∷ ys) = inr (y, ys, refl)
