-- ===== src/Artifact/Validate.antt =====
-- The checks of `validate_artifact` on the references between sections and items.
use ch_diag.Artifact.{Artifact, keys}
use ch_diag.Artifact.Check.{reference_items, reference_sections, same_members}
use ch_diag.Planner.Build.{PlanSection}
use ch_diag.Planner.Build.Items.{ids}
use ch_diag.Planner.Build.Listing.{listed}
use ch_diag.Prelude.{
  List, String, [], ap, append-nil, append_assoc, arith, eq_iff, false, refl, sym, true, ◌++◌, ◌∙◌,
  ◌∷◌, ◌≡◌,
}
use ch_diag.Prelude.Lists.{All, Uniq, elem}
use ch_diag.Prelude.Names.{any-missing, elem-append}
use ch_diag.Prelude.Results.{ok}

reference_items-eq :
    (ids referenced : List String)
    → Uniq ids
    → All (λ id. elem id referenced ≡ false) ids
    → reference_items ids referenced ≡ ok (referenced ++ ids)
unfolding reference_items
reference_items-eq [] referenced u a = ap ok (sym (append-nil referenced))
reference_items-eq (id ∷ rest) referenced u a = rw a.0 (
    reference_items-eq rest (referenced ++ (id ∷ [])) u.1 (later rest u.0 a.1)
    ∙ ap ok (append_assoc referenced (id ∷ []) rest))
  where
    later :
        (ids : List String)
        → elem id ids ≡ false
        → All (λ x. elem x referenced ≡ false) ids
        → All (λ x. elem x (referenced ++ (id ∷ [])) ≡ false) ids
    later [] h a = tt
    later (x ∷ ids) h a = (
      ground (arith, elem-append x referenced (id ∷ []), eq_iff x id, eq_iff id x),
      later ids (ground arith) a.1,
    )

Uniq-append :
    (xs ys : List String) → Uniq (xs ++ ys) → Uniq xs × Uniq ys × All (λ y. elem y xs ≡ false) ys
Uniq-append [] ys u = (tt, u, none-elem ys)
  where
    none-elem : (ys : List String) → All (λ y. elem y [] ≡ false) ys
    none-elem [] = tt
    none-elem (y ∷ ys) = (refl, none-elem ys)
Uniq-append (x ∷ xs) ys u =
    let (a, b, c) = Uniq-append xs ys u.1 in
    (
      (ground (arith, elem-append x xs ys, u.0), a),
      b,
      other ys c (ground (arith, elem-append x xs ys, u.0)),
    )
  where
    other :
        (zs : List String)
        → All (λ y. elem y xs ≡ false) zs
        → elem x zs ≡ false
        → All (λ y. elem y (x ∷ xs) ≡ false) zs
    other [] a h = tt
    other (z ∷ zs) a h = (ground (arith, eq_iff x z, eq_iff z x), other zs a.1 (ground arith))

All-elem-append :
    (xs ys zs : List String)
    → All (λ z. elem z xs ≡ false) zs
    → All (λ z. elem z ys ≡ false) zs
    → All (λ z. elem z (xs ++ ys) ≡ false) zs
All-elem-append xs ys [] a b = tt
All-elem-append xs ys (z ∷ zs) a b =
    (ground (arith, elem-append z xs ys), All-elem-append xs ys zs a.1 b.1)

All-front : (P : String → Type 0) (xs ys : List String) → All P (xs ++ ys) → All P xs
All-front P [] ys a = tt
All-front P (x ∷ xs) ys a = (a.0, All-front P xs ys a.1)

All-back : (P : String → Type 0) (xs ys : List String) → All P (xs ++ ys) → All P ys
All-back P [] ys a = a
All-back P (x ∷ xs) ys a = All-back P xs ys a.1

reference_sections-eq :
    (secs : List PlanSection) (referenced : List String)
    → Uniq (listed secs)
    → All (λ id. elem id referenced ≡ false) (listed secs)
    → reference_sections secs referenced ≡ ok (referenced ++ listed secs)
unfolding reference_sections
reference_sections-eq [] referenced u a = ap ok (sym (append-nil referenced))
reference_sections-eq (s ∷ rest) referenced u a =
    let (us, ur, apart) = Uniq-append s.items (listed rest) u in
    rw
      (reference_items-eq s.items referenced us
        (All-front (λ id. elem id referenced ≡ false) s.items (listed rest) a))
      (reference_sections-eq rest (referenced ++ s.items) ur (
          All-elem-append referenced s.items (listed rest)
            (All-back (λ id. elem id referenced ≡ false) s.items (listed rest) a) apart)
        ∙ ap ok (append_assoc referenced s.items (listed rest)))

pub same_members_of :
    (xs ys : List String) → ((x : String) → elem x xs ≡ elem x ys) → same_members xs ys ≡ true
unfolding same_members
same_members_of xs ys h =
    rw (any-missing xs ys (λ x e. sym (h x) ∙ e), any-missing ys xs (λ x e. h x ∙ e))

-- The references hold: no item stands in two sections, and the sections name just the items.
pub record IsReferenced (a : Artifact) : Type 0 where
  pub unshared : reference_sections a.sections [] ≡ ok (listed a.sections)
  pub same : same_members (listed a.sections) (keys a.items) ≡ true

pub IsReferenced-of :
    (a : Artifact)
    → Uniq (listed a.sections)
    → ((x : String) → elem x (listed a.sections) ≡ elem x (keys a.items))
    → IsReferenced a
IsReferenced-of a u h = record {
  unshared = reference_sections-eq a.sections [] u (fresh (listed a.sections));
  same = same_members_of (listed a.sections) (keys a.items) h;
}
  where
    fresh : (ids : List String) → All (λ id. elem id [] ≡ false) ids
    fresh [] = tt
    fresh (id ∷ ids) = (refl, fresh ids)
