-- ===== src/Versioning/Greatest.antt =====
-- The greatest of the candidates of `resolve_lts_branch`.
use ch_diag.Prelude.{List, String, [], ap, false, inl, inr, refl, subst, sym, true, ◌∷◌, ◌≡◌}
use ch_diag.Prelude.Lists.{All, Any}
use ch_diag.Prelude.Results.{>>=-eq-ok, ok}
use ch_diag.Prelude.Tests.{Bool-cases}
use ch_diag.Prelude.Text.{codes}
use ch_diag.Versioning.{Entry, Version, candidates, max_entry, parse_lts_branch, version_le}
use ch_diag.Versioning.Order.{version_le_refl, version_le_total, version_le_trans}

max_entry-cons_le :
    (best e : Entry) (es : List Entry)
    → version_le e.0 best.0 ≡ true
    → max_entry best (e ∷ es) ≡ max_entry best es
unfolding max_entry
max_entry-cons_le best e es h = rw h

max_entry-cons_lt :
    (best e : Entry) (es : List Entry)
    → version_le e.0 best.0 ≡ false
    → max_entry best (e ∷ es) ≡ max_entry e es
unfolding max_entry
max_entry-cons_lt best e es h = rw h

pub max_entry-le : (best : Entry) (es : List Entry) → version_le best.0 (max_entry best es).0 ≡ true
max_entry-le best [] = unfold max_entry in version_le_refl best.0
max_entry-le best (e ∷ es) = elim (Bool-cases (version_le e.0 best.0)) [
  | inl h ↦ rw (max_entry-cons_le best e es h) (max_entry-le best es)
  | inr h ↦ rw (max_entry-cons_lt best e es h) (
      version_le_trans best.0 e.0 (max_entry e es).0 (version_le_total e.0 best.0 h)
        (max_entry-le e es))
]

abbrev Tops : List Entry → Entry → Type 0
Tops es m = All (λ e. version_le e.0 m.0 ≡ true) es

pub max_entry-Tops : (best : Entry) (es : List Entry) → Tops es (max_entry best es)
max_entry-Tops best [] = tt
max_entry-Tops best (e ∷ es) = elim (Bool-cases (version_le e.0 best.0)) [
  | inl h ↦ subst (Tops (e ∷ es)) (sym (max_entry-cons_le best e es h)) (
    version_le_trans e.0 best.0 (max_entry best es).0 h (max_entry-le best es),
    max_entry-Tops best es,
  )
  | inr h ↦
      subst (Tops (e ∷ es)) (sym (max_entry-cons_lt best e es h))
        (max_entry-le e es, max_entry-Tops e es)
]

abbrev Among : List Entry → Entry → Type 0
Among es m = Any (λ e. e ≡ m) es

pub max_entry-Among : (best : Entry) (es : List Entry) → Among (best ∷ es) (max_entry best es)
max_entry-Among best [] = inl (unfold max_entry in refl)
max_entry-Among best (e ∷ es) = elim (Bool-cases (version_le e.0 best.0)) [
  | inl h ↦
      subst (Among (best ∷ e ∷ es)) (sym (max_entry-cons_le best e es h))
        (skip (max_entry best es) (max_entry-Among best es))
  | inr h ↦
      subst (Among (best ∷ e ∷ es)) (sym (max_entry-cons_lt best e es h))
        (inr (max_entry-Among e es))
]
  where
    skip : (m : Entry) → Among (best ∷ es) m → Among (best ∷ e ∷ es) m
    skip m (inl p) = inl p
    skip m (inr t) = inr (inr t)

candidates-cons :
    (b : String) (bs : List String) (es : List Entry)
    → candidates (b ∷ bs) ≡ ok es
    → (v : Version) × (rest : List Entry) × (parse_lts_branch (codes b) ≡ ok v)
      × (candidates bs ≡ ok rest)
      × ((v, b) ∷ rest ≡ es)
unfolding candidates
candidates-cons b bs es h =
    let (v, p, h') = >>=-eq-ok (parse_lts_branch (codes b)) _ h in
    let (rest, q, r) = >>=-eq-ok (candidates bs) _ h' in (v, rest, p, q, cc r)

abbrev pub Parsed : Entry → Type 0
Parsed e = parse_lts_branch (codes e.1) ≡ ok e.0

-- The parsed entries stand for the branches, in order.
module _ (P : String → Type 0) where
  pub candidates-All :
      (bs : List String) (es : List Entry)
      → candidates bs ≡ ok es
      → All (λ e. Parsed e → P e.1) es
      → All P bs
  candidates-All [] es h a = tt
  candidates-All (b ∷ bs) es h a =
      let (v, rest, p, q, r) = candidates-cons b bs es h in
      let a' : All (λ e. Parsed e → P e.1) ((v, b) ∷ rest) =
        subst (All (λ e. Parsed e → P e.1)) (sym r) a in
      (a'.0 p, candidates-All bs rest q a'.1)

pub candidates-Parsed : (bs : List String) (es : List Entry) → candidates bs ≡ ok es → All Parsed es
candidates-Parsed [] es h = subst (All Parsed) {x = []} (unfold candidates in cc h) tt
candidates-Parsed (b ∷ bs) es h =
    let (v, rest, p, q, r) = candidates-cons b bs es h in
    subst (All Parsed) r (p, candidates-Parsed bs rest q)

pub candidates-Any :
    (bs : List String) (es : List Entry) (m : Entry)
    → candidates bs ≡ ok es
    → Any (λ e. e ≡ m) es
    → Any (λ x. x ≡ m.1) bs
candidates-Any [] es m h a =
    absurd (subst (Any (λ e. e ≡ m)) {x = es} {y = []} (unfold candidates in cc h) a)
candidates-Any (b ∷ bs) es m h a =
    let (v, rest, p, q, r) = candidates-cons b bs es h in
    shift v rest (subst (Any (λ e. e ≡ m)) (sym r) a) (candidates-Any bs rest m q)
  where
    shift :
        (v : Version) (rest : List Entry)
        → Any (λ e. e ≡ m) ((v, b) ∷ rest)
        → (Any (λ e. e ≡ m) rest → Any (λ x. x ≡ m.1) bs)
        → Any (λ x. x ≡ m.1) (b ∷ bs)
    shift v rest (inl e) next = inl (ap (λ (x : Entry). x.1) e)
    shift v rest (inr t) next = inr (next t)
