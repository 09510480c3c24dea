-- ===== src/Versioning/Resolve.antt =====
-- `resolve_lts_branch`: the branch that it finds is the nearest one that the version has reached.
use ch_diag.Prelude.{
  Bool, List, String, [], false, inl, inr, none, refl, some, subst, subst₂, sym, true, ◌↔◌, ◌∷◌,
  ◌≡◌, ◌⊎◌,
}
use ch_diag.Prelude.Lists.{
  All, All-at, All-keep_self, All-mono, All-of-keep, Any, Any-mono, Any-of-keep, keep,
}
use ch_diag.Prelude.Results.{>>=-eq-ok, ok}
use ch_diag.Prelude.Tests.{Bool-cases, Option-cases}
use ch_diag.Prelude.Text.{codes}
use ch_diag.Versioning.{
  Entry, Version, candidates, max_branch, max_entry, parse_lts_branch, resolve_lts_branch,
  version_le,
}
use ch_diag.Versioning.Greatest.{
  Parsed, candidates-All, candidates-Any, candidates-Parsed, max_entry-Among, max_entry-Tops,
  max_entry-le,
}
use ch_diag.Versioning.Order.{version_le_trans}

-- The branch `x`, if it is valid and `v` has reached it, is at most `found`.
abbrev pub Below : Version → Version → String → Type 0
Below v found x =
    (w : Version)
    → parse_lts_branch (codes x) ≡ ok w
    → version_le w v ≡ true
    → version_le w found ≡ true

-- The branch `b` of the list `supported` is the greatest that `v` has reached.
pub record IsNearest (v : Version) (supported : List String) (b : String) : Type 0 where
  pub found : Version
  pub listed : Any (λ x. x ≡ b) supported
  pub parsed : parse_lts_branch (codes b) ≡ ok found
  pub reached : version_le found v ≡ true
  pub nearest : All (Below v found) supported

max_branch_lem :
    (es : List Entry) (b : String)
    → max_branch es ≡ some b
    → (m : Entry) × (m.1 ≡ b) × Any (λ e. e ≡ m) es × All (λ e. version_le e.0 m.0 ≡ true) es
unfolding max_branch
max_branch_lem [] b h = cc
max_branch_lem (e ∷ es) b h =
    (max_entry e es, cc, max_entry-Among e es, (max_entry-le e es, max_entry-Tops e es))

-- Where `resolve_lts_branch` gives a branch, that branch is listed, is a valid LTS branch that the
-- version has reached, and no listed branch that the version has reached is greater.
pub resolve_lts_branch-IsNearest :
    (v : Version) (supported : List String) (b : String)
    → resolve_lts_branch v supported ≡ ok (some b)
    → IsNearest v supported b
unfolding resolve_lts_branch
resolve_lts_branch-IsNearest v supported b h =
    let (es, p, q) = >>=-eq-ok (candidates supported) _ h in
    let reaches : Entry → Bool = λ e. version_le e.0 v in
    let (m, mb, listed, above) = max_branch_lem (keep reaches es) b (cc q) in
    let in_es : Any (λ e. e ≡ m) es =
      Any-mono _ _ es (λ x (e, _). e) (Any-of-keep (λ e. e ≡ m) reaches es listed) in
    record {
      found = m.0;
      listed = subst (λ y. Any (λ x. x ≡ y) supported) mb (candidates-Any supported es m p in_es);
      parsed =
          subst (λ y. parse_lts_branch (codes y) ≡ ok m.0) mb
            (All-at Parsed m es in_es (candidates-Parsed supported es p));
      reached =
          All-at (λ e. reaches e ≡ true) m (keep reaches es) listed (All-keep_self reaches es);
      nearest = candidates-All (Below v m.0) supported es p (
          All-mono (λ e. reaches e ≡ true → version_le e.0 m.0 ≡ true) _ es
            (λ e le same w here below.
              let e_w : e.0 ≡ w = cc (same, here) in
              subst (λ u. version_le u m.0 ≡ true) e_w
                (le (subst (λ u. version_le u v ≡ true) (sym e_w) below)))
            (All-of-keep _ reaches es above));
    }

candidates-total :
    (bs : List String)
    → All (λ x. (w : Version) × (parse_lts_branch (codes x) ≡ ok w)) bs
    → (es : List Entry) × (candidates bs ≡ ok es)
unfolding candidates
candidates-total [] h = ([], refl)
candidates-total (b ∷ bs) ((w, p), h) =
    let (es, q) = candidates-total bs h in ((w, b) ∷ es, rw (p, q))

-- A branch that is valid and that `v` has not reached.
abbrev pub Ahead : Version → String → Type 0
Ahead v x = (w : Version) × (parse_lts_branch (codes x) ≡ ok w) × (version_le w v ≡ false)

nil_of_none : (es : List Entry) → max_branch es ≡ none → All (λ _. ⊥) es
unfolding max_branch
nil_of_none [] h = tt
nil_of_none (e ∷ es) h = cc

none_of_Ahead :
    (v : Version) (bs : List String)
    → All (Ahead v) bs
    → (es : List Entry) × (candidates bs ≡ ok es) × (keep (λ e. version_le e.0 v) es ≡ [])
unfolding candidates
none_of_Ahead v [] h = ([], refl, refl)
none_of_Ahead v (b ∷ bs) ((w, p, late), h) =
    let (es, q, r) = none_of_Ahead v bs h in ((w, b) ∷ es, rw (p, q), rw (late, r))

-- There is no branch exactly when every listed branch is valid and lies after the version.
pub resolve_lts_branch-none :
    (v : Version) (supported : List String)
    → (resolve_lts_branch v supported ≡ ok none) ↔ All (Ahead v) supported
unfolding resolve_lts_branch max_branch
resolve_lts_branch-none v supported = (to, from)
  where
    to : resolve_lts_branch v supported ≡ ok none → All (Ahead v) supported
    to h =
        let (es, p, q) = >>=-eq-ok (candidates supported) _ h in
        candidates-All (Ahead v) supported es p (
          All-mono (λ e. version_le e.0 v ≡ true → ⊥) _ es
            (λ e late here. (
              e.0,
              here,
              elim (Bool-cases (version_le e.0 v)) [ inl le ↦ absurd (late le) | inr lt ↦ lt ],
            ))
            (All-of-keep _ (λ e. version_le e.0 v) es (nil_of_none _ (cc q))))

    from : All (Ahead v) supported → resolve_lts_branch v supported ≡ ok none
    from h = let (es, p, q) = none_of_Ahead v supported h in rw (p, q)

outcome :
    (w : Version) (bs : List String)
    → ((es : List Entry) × (candidates bs ≡ ok es))
    → (resolve_lts_branch w bs ≡ ok none) ⊎ ((c : String) × (resolve_lts_branch w bs ≡ ok (some c)))
unfolding resolve_lts_branch
outcome w bs (es, p) = elim (Option-cases (max_branch (keep (λ e. version_le e.0 w) es))) [
  | inl e ↦ inl (rw (p, e))
  | inr (c, e) ↦ inr (c, rw (p, e))
]

-- Where a server version resolves to a branch, a newer version resolves too, and to a branch that is
-- at least as new.
pub resolve_lts_branch_mono :
    (v w : Version) (supported : List String) (b : String)
    → version_le v w ≡ true
    → resolve_lts_branch v supported ≡ ok (some b)
    → (c : String) × (resolve_lts_branch w supported ≡ ok (some c))
      × ((x y : Version)
          → parse_lts_branch (codes b) ≡ ok x
          → parse_lts_branch (codes c) ≡ ok y
          → version_le x y ≡ true)
resolve_lts_branch_mono v w supported b le h = elim (outcome w supported valid) [
  | inl none_w ↦
      let n = resolve_lts_branch-IsNearest v supported b h in
      let (u, p, late) =
        All-at (Ahead w) b supported n.listed ((resolve_lts_branch-none w supported).0 none_w) in
      absurd (clash n.found u (cc (p, n.parsed)) (version_le_trans n.found v w n.reached le) late)
  | inr (c, some_c) ↦
      let n = resolve_lts_branch-IsNearest v supported b h in
      let m = resolve_lts_branch-IsNearest w supported c some_c in
      let reached = version_le_trans n.found v w n.reached le in
      let below =
        All-at (Below w m.found) b supported n.listed m.nearest n.found n.parsed reached in
      (
        c,
        some_c,
        λ x y px py.
            subst₂ (λ s t. version_le s t ≡ true) (cc (n.parsed, px)) (cc (m.parsed, py)) below,
      )
]
  where
    valid : (es : List Entry) × (candidates supported ≡ ok es)
    valid =
        unfold resolve_lts_branch in
        let (es, p, _) = >>=-eq-ok (candidates supported) _ h in (es, p)

    clash : (x u : Version) → x ≡ u → version_le x w ≡ true → version_le u w ≡ false → ⊥
    clash x u e le lt = cc (e, le, lt)
