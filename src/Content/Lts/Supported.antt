-- ===== src/Content/Lts/Supported.antt =====
-- What the catalog's list of LTS branches promises to the resolution of a server version.
use ch_diag.Content.Lts.{has_duplicate, is_ascending, supported_lts_versions}
use ch_diag.Prelude.{
  Bool, List, String, [], arith, false, inl, inr, none, not, refl, some, subst, sym, true, ◌∙◌, ◌∷◌,
  ◌≡◌,
}
use ch_diag.Prelude.Lists.{All, All-mono, first, keep}
use ch_diag.Prelude.Results.{
  >>=-eq-ok, duplicate_lts_branches, ok, raise_if, unordered_lts_branches,
}
use ch_diag.Prelude.Tests.{Bool-cases}
use ch_diag.Prelude.Text.{codes}
use ch_diag.Versioning.{
  Entry, Version, candidates, max_branch, max_entry, parse_lts_branch, resolve_lts_branch,
  version_le,
}
use ch_diag.Versioning.Order.{version_le_trans}

-- the entries of an ascending list are at least its first
ascending-le :
    (e : Entry) (es : List Entry)
    → is_ascending (e ∷ es) ≡ true
    → All (λ f. version_le e.0 f.0 ≡ true) es
unfolding is_ascending
ascending-le e [] h = tt
ascending-le e (f ∷ es) h =
    let first : version_le e.0 f.0 ≡ true = ground (arith, h) in
    (
      first,
      All-mono (λ g. version_le f.0 g.0 ≡ true) (λ g. version_le e.0 g.0 ≡ true) es
          (λ g k. version_le_trans e.0 f.0 g.0 first k) (ascending-le f es (ground (arith, h))),
    )

keep-none : (p : Entry → Bool) (es : List Entry) → All (λ e. p e ≡ false) es → keep p es ≡ []
keep-none p [] h = refl
keep-none p (e ∷ es) h = rw h.0 (keep-none p es h.1)

-- not reached before, not reached after
unreached :
    (v w x : Version) → version_le w v ≡ false → version_le w x ≡ true → version_le x v ≡ false
unreached v w x late above = elim (Bool-cases (version_le x v)) [
  | inl e ↦ absurd (let y : ⊥ = cc (version_le_trans w x v above e, late) in y)
  | inr e ↦ e
]

module _ (w : Version) (b : String) (rest : List Entry) (supported : List String) where
  resolves_from :
      (v : Version)
      → candidates supported ≡ ok ((w, b) ∷ rest)
      → is_ascending ((w, b) ∷ rest) ≡ true
      → (version_le w v ≡ true → (lts : String) × (resolve_lts_branch v supported ≡ ok (some lts)))
        × (version_le w v ≡ false → resolve_lts_branch v supported ≡ ok none)
  unfolding resolve_lts_branch max_branch
  resolves_from v all sorted = (
    λ reached. ((max_entry (w, b) (keep (λ e. version_le e.0 v) rest)).1, rw (all, reached) refl),
    λ late. rw (
      all,
      late,
      keep-none (λ e. version_le e.0 v) rest
          (All-mono (λ e. version_le w e.0 ≡ true) (λ e. version_le e.0 v ≡ false) rest
            (λ e above. unreached v w e.0 late above) (ascending-le (w, b) rest sorted)),
    ),
  )

-- For a list of branches that `_supported_lts_versions` accepts, the first branch is valid, and the
-- resolution of a server version never raises: it gives a branch if the server has reached the first
-- one, and none otherwise.
pub supported_lts_versions-resolves :
    (b : String) (bs supported : List String)
    → supported_lts_versions (b ∷ bs) ≡ ok supported
    → (w : Version) × (parse_lts_branch (codes b) ≡ ok w)
      × ((v : Version)
          → (version_le w v ≡ true
              → (lts : String) × (resolve_lts_branch v supported ≡ ok (some lts)))
            × (version_le w v ≡ false → resolve_lts_branch v supported ≡ ok none))
unfolding supported_lts_versions candidates
supported_lts_versions-resolves b bs supported h =
    let (_, _, h₁) = >>=-eq-ok (raise_if (has_duplicate (b ∷ bs)) duplicate_lts_branches) _ h in
    let (parsed, all, h₂) = >>=-eq-ok (candidates (b ∷ bs)) _ h₁ in
    let (_, sorted, done) =
      >>=-eq-ok (raise_if (not (is_ascending parsed)) unordered_lts_branches) _ h₂ in
    let (w, first, h₃) = >>=-eq-ok (parse_lts_branch (codes b)) _ all in
    let (rest, others, shape) = >>=-eq-ok (candidates bs) _ h₃ in
    let all' : candidates supported ≡ ok ((w, b) ∷ rest) =
      (let same : (b ∷ bs) ≡ supported = cc done in
        subst (λ l. candidates l ≡ ok ((w, b) ∷ rest)) same (all ∙ sym shape)) in
    let ascending : is_ascending ((w, b) ∷ rest) ≡ true =
      (let same : parsed ≡ ((w, b) ∷ rest) = cc shape in
        subst (λ l. is_ascending l ≡ true) same (passed (is_ascending parsed) sorted)) in
    (w, first, λ v. resolves_from w b rest supported v all' ascending)
  where
    passed :
        {u : Unit {0}} (ordered : Bool)
        → raise_if (not ordered) unordered_lts_branches ≡ ok u
        → ordered ≡ true
    passed true k = refl
    passed false k = absurd (let x : ⊥ = cc k in x)
