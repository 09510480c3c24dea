-- ===== src/Config/File.antt =====
-- What the sections of a configuration file decide.
use ch_diag.Collector.Lifecycle.{after}
use ch_diag.Config.{Python, Setting, Value, coerce}
use ch_diag.Config.Environment.{destinations}
use ch_diag.Config.Resolve.{coerce_values, field_of}
use ch_diag.Prelude.{
  Bool, Option, String, [], ap, eq_iff, eq_refl, false, inl, inr, none, refl, some, subst, sym,
  true, ◌==◌, ◌||◌, ◌∙◌, ◌∷◌, ◌≡◌,
}
use ch_diag.Prelude.Dict.{Dict, dict_keys, get, get-put, get-put_other, put}
use ch_diag.Prelude.Lists.{Uniq, elem}
use ch_diag.Prelude.Results.{>>=-eq-ok, ok}
use ch_diag.Prelude.Tests.{Bool-cases, if_cases}

elem-destinations :
    (fields : Dict String) (key d : String)
    → get key fields ≡ some d
    → elem d (destinations fields) ≡ true
elem-destinations [] key d h = cc
elem-destinations ((j, e) ∷ rest) key d h = elim (Bool-cases (j == key)) [
  | inl t ↦
      let same : e ≡ d = cc (rw t at h) in
      subst (λ x. ((x == d) || elem d (destinations rest)) ≡ true) (sym same) (rw (eq_refl d) refl)
  | inr t ↦
      let r : elem d (destinations rest) ≡ true = elem-destinations rest key d (rw t at h) in
      or_right (e == d) _ r
]
  where
    or_right : (a b : Bool) → b ≡ true → (a || b) ≡ true
    or_right true b p = refl
    or_right false b p = p

-- of distinct destinations, each has one key
one_key :
    (fields : Dict String) (i j d : String)
    → Uniq (destinations fields)
    → get i fields ≡ some d
    → get j fields ≡ some d
    → i ≡ j
one_key [] i j d u h k = cc
one_key ((n, e) ∷ rest) i j d u h k = elim (Bool-cases (n == i)) [
  | inl t ↦ elim (Bool-cases (n == j)) [
    | inl s ↦ sym ((eq_iff n i).0 t) ∙ (eq_iff n j).0 s
    | inr s ↦
        let same : e ≡ d = cc (rw t at h) in
        let later : elem d (destinations rest) ≡ true = elem-destinations rest j d (rw s at k) in
        let first : elem d (destinations rest) ≡ false =
          subst (λ x. elem x (destinations rest) ≡ false) same u.0 in
        absurd (let x : ⊥ = cc (later, first) in x)
  ]
  | inr t ↦ elim (Bool-cases (n == j)) [
    | inl s ↦
        let same : e ≡ d = cc (rw s at k) in
        let later : elem d (destinations rest) ≡ true = elem-destinations rest i d (rw t at h) in
        let first : elem d (destinations rest) ≡ false =
          subst (λ x. elem x (destinations rest) ≡ false) same u.0 in
        absurd (let x : ⊥ = cc (later, first) in x)
    | inr s ↦ one_key rest i j d u.1 (rw t at h) (rw s at k)
  ]
]

-- from the first defaults to the second: the value decides, and without one nothing changes
abbrev pub Decides : Python → Dict Setting → Dict Setting → String → Option Value → Type 0
Decides python before after destination none = get destination after ≡ get destination before
Decides python before after destination (some v) =
    (s : Setting) × (coerce python destination v ≡ ok s) × (get destination after ≡ some s)

pub Decides-before :
    (python : Python) (before middle after : Dict Setting) (destination : String)
    → get destination middle ≡ get destination before
    → (o : Option Value) → Decides python middle after destination o
    → Decides python before after destination o
Decides-before python before middle after destination e none w = w ∙ e
Decides-before python before middle after destination e (some v) w = w

get-absent :
    (values : Dict Value) (key : String)
    → elem key (dict_keys values) ≡ false
    → get key values ≡ none
get-absent [] key h = refl
get-absent ((j, v) ∷ rest) key h = elim (Bool-cases (j == key)) [
  | inl t ↦ let x : true ≡ false = rw t at h in absurd (let y : ⊥ = cc x in y)
  | inr t ↦ let r : elem key (dict_keys rest) ≡ false = rw t at h in rw t (get-absent rest key r)
]

field_of-eq-ok : (o : Option String) (d : String) → field_of o ≡ ok d → o ≡ some d
field_of-eq-ok none d h = cc
field_of-eq-ok (some e) d h = ap some (let x : e ≡ d = cc h in x)

module _ (python : Python) (fields : Dict String) where
  pub coerce_values-skips :
      (values : Dict Value) (before after : Dict Setting) (destination : String)
      → elem destination (destinations fields) ≡ false
      → coerce_values python fields values before ≡ ok after
      → get destination after ≡ get destination before
  unfolding coerce_values
  coerce_values-skips [] before after destination h e =
      ap (get destination) (let x : after ≡ before = cc e in x)
  coerce_values-skips ((key, v) ∷ rest) before after destination h e =
      let (d, field, later) = >>=-eq-ok (field_of (get key fields)) _ e in
      let (s, coerced, done) = >>=-eq-ok (coerce python d v) _ later in
      let listed : elem d (destinations fields) ≡ true =
        elem-destinations fields key d (field_of-eq-ok _ d field) in
      coerce_values-skips rest (put d s before) after destination h done
      ∙ get-put_other destination d s before (apart d listed)
    where
      apart : (d : String) → elem d (destinations fields) ≡ true → (d == destination) ≡ false
      apart d listed = elim (Bool-cases (d == destination)) [
        | inl t ↦
            let x : elem destination (destinations fields) ≡ true =
              subst (λ y. elem y (destinations fields) ≡ true) ((eq_iff d destination).0 t)
                listed in
            absurd (let y : ⊥ = cc (x, h) in y)
        | inr t ↦ t
      ]

  module _ (key destination : String) (field : get key fields ≡ some destination)
      (unique : Uniq (destinations fields)) where
    pub coerce_values-Decides :
        (values : Dict Value) (before after : Dict Setting)
        → Uniq (dict_keys values)
        → coerce_values python fields values before ≡ ok after
        → Decides python before after destination (get key values)
    unfolding coerce_values
    coerce_values-Decides [] before after u e =
        ap (get destination) (let x : after ≡ before = cc e in x)
    coerce_values-Decides ((k, v) ∷ rest) before after u e =
        let (d, found, later) = >>=-eq-ok (field_of (get k fields)) _ e in
        let (s, coerced, done) = >>=-eq-ok (coerce python d v) _ later in
        let ih = coerce_values-Decides rest (put d s before) after u.1 done in
        if_cases (Decides python before after destination) (k == key) _ _
          (λ t. here d s (field_of-eq-ok _ d found) coerced t ih)
          (λ t.
            Decides-before python before (put d s before) after destination
              (get-put_other destination d s before (apart d (field_of-eq-ok _ d found) t)) _ ih)
      where
        here :
            (d : String) (s : Setting)
            → get k fields ≡ some d
            → coerce python d v ≡ ok s
            → (k == key) ≡ true
            → Decides python (put d s before) after destination (get key rest)
            → Decides python before after destination (some v)
        here d s found coerced t ih =
            let same_key : k ≡ key = (eq_iff k key).0 t in
            let two : some d ≡ some destination =
              sym found ∙ (ap (λ x. get x fields) same_key ∙ field) in
            let same : d ≡ destination = cc two in
            let gone : get key rest ≡ none =
              get-absent rest key (subst (λ x. elem x (dict_keys rest) ≡ false) same_key u.0) in
            let kept : get destination after ≡ get destination (put d s before) =
              subst (Decides python (put d s before) after destination) gone ih in
            (
              s,
              subst (λ x. coerce python x v ≡ ok s) same coerced,
              kept ∙ subst (λ x. get x (put d s before) ≡ some s) same (get-put d s before),
            )

        apart :
            (d : String) → get k fields ≡ some d → (k == key) ≡ false → (d == destination) ≡ false
        apart d found t = elim (Bool-cases (d == destination)) [
          | inl x ↦
              let same : d ≡ destination = (eq_iff d destination).0 x in
              let one : k ≡ key =
                one_key fields k key destination unique
                  (subst (λ y. get k fields ≡ some y) same found) field in
              let yes : (k == key) ≡ true = (eq_iff k key).1 one in
              absurd (let y : ⊥ = cc (yes, t) in y)
          | inr x ↦ x
        ]
