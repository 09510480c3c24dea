-- ===== src/Prelude/Lists.antt =====
-- Lists measured by native numbers, and the predicates and searches that the components share.
use Prim.Native.Nat.{ℕ, zero, suc, ◌+◌, ◌-◌, ◌≤◌, min}
use Prim.Native.String.{String}
use mathlib.Core.Path.{◌≡◌, subst, sym}
use mathlib.Core.Logic.{◌⊎◌, inl, inr}
use mathlib.Core.Bool.{Bool, true, false, ◌||◌}
use mathlib.Core.List.{List, [], ◌∷◌, ◌++◌}
use mathlib.Core.Option.{Option, none, some}
use native.Mathlib.Omega.{arith}
use text.Mathlib.Text.{◌==◌}
use ch_diag.Prelude.Tests.{Bool-cases, if◌then◌else◌}

module _ {ℓ} {A : Type ℓ} where
  abbrev pub length : List A → ℕ
  length [] = 0
  length (x ∷ xs) = suc (length xs)

  abbrev pub take : ℕ → List A → List A
  take zero xs = []
  take (suc n) [] = []
  take (suc n) (x ∷ xs) = x ∷ take n xs

  abbrev pub drop : ℕ → List A → List A
  drop zero xs = xs
  drop (suc n) [] = []
  drop (suc n) (x ∷ xs) = drop n xs

  pub length-append : (xs ys : List A) → length (xs ++ ys) ≡ length xs + length ys
  length-append [] ys = omega arith
  length-append (x ∷ xs) ys = omega (arith, length-append xs ys)

  pub length-take : (n : ℕ) (xs : List A) → length (take n xs) ≡ min n (length xs)
  length-take zero xs = omega arith
  length-take (suc n) [] = omega arith
  length-take (suc n) (x ∷ xs) = omega (arith, length-take n xs)

  pub length-drop : (n : ℕ) (xs : List A) → length (drop n xs) ≡ length xs - n
  length-drop zero xs = omega arith
  length-drop (suc n) [] = omega arith
  length-drop (suc n) (x ∷ xs) = omega (arith, length-drop n xs)

  -- `[x for x in xs if test(x)]`
  abbrev pub keep : (A → Bool) → List A → List A
  keep p [] = []
  keep p (x ∷ xs) = let rest = keep p xs in if p x then x ∷ rest else rest

  -- `any(test(x) for x in xs)`
  abbrev pub any : (A → Bool) → List A → Bool
  any p [] = false
  any p (x ∷ xs) = p x || any p xs

  -- `sum(test(x) for x in xs)`
  abbrev pub count_if : (A → Bool) → List A → ℕ
  count_if p [] = 0
  count_if p (x ∷ xs) = let rest = count_if p xs in if p x then suc rest else rest

  -- the first element that passes the test
  abbrev pub first : (A → Bool) → List A → Option A
  first p [] = none
  first p (x ∷ xs) = if p x then some x else first p xs

  pub count_if-le-length : (p : A → Bool) (xs : List A) → count_if p xs ≤ length xs
  count_if-le-length p [] = omega arith
  count_if-le-length p (x ∷ xs) = ground (arith, count_if-le-length p xs)

module _ {ℓ κ} {A : Type ℓ} where
  abbrev pub All : (A → Type κ) → List A → Type κ
  All P [] = Unit
  All P (x ∷ xs) = P x × All P xs

module _ {ℓ} {A : Type ℓ} where
  abbrev pub Any : (A → Type 0) → List A → Type 0
  Any P [] = ⊥
  Any P (x ∷ xs) = P x ⊎ Any P xs

module _ {ℓ} {A : Type ℓ} (p : A → Bool) (x : A) (xs : List A) where
  pub keep-cons : p x ≡ true → keep p (x ∷ xs) ≡ x ∷ keep p xs
  keep-cons e = rw e

  pub keep-skip : p x ≡ false → keep p (x ∷ xs) ≡ keep p xs
  keep-skip e = rw e

module _ {ℓ} {A : Type ℓ} where
  -- what holds of every element that passes the test
  pub All-keep {κ} :
      (P : A → Type κ) (p : A → Bool) (xs : List A)
      → All (λ x. p x ≡ true → P x) xs
      → All P (keep p xs)
  All-keep P p [] h = tt
  All-keep P p (x ∷ xs) h = elim (Bool-cases (p x)) [
    | inl e ↦ rw e (h.0 e, All-keep P p xs h.1)
    | inr e ↦ rw e (All-keep P p xs h.1)
  ]

  pub All-keep_self : (p : A → Bool) (xs : List A) → All (λ x. p x ≡ true) (keep p xs)
  All-keep_self p [] = tt
  All-keep_self p (x ∷ xs) = elim (Bool-cases (p x)) [
    | inl e ↦ let h : All (λ y. p y ≡ true) (x ∷ keep p xs) = (e, All-keep_self p xs) in keeps e h
    | inr e ↦ skips e (All-keep_self p xs)
  ]
    where
      keeps :
          p x ≡ true
          → All (λ y. p y ≡ true) (x ∷ keep p xs)
          → All (λ y. p y ≡ true) (if p x then x ∷ keep p xs else keep p xs)
      keeps e = subst (λ b. All (λ y. p y ≡ true) (if b then x ∷ keep p xs else keep p xs)) (sym e)

      skips :
          p x ≡ false
          → All (λ y. p y ≡ true) (keep p xs)
          → All (λ y. p y ≡ true) (if p x then x ∷ keep p xs else keep p xs)
      skips e = subst (λ b. All (λ y. p y ≡ true) (if b then x ∷ keep p xs else keep p xs)) (sym e)

  pub All-of-keep {κ} :
      (P : A → Type κ) (p : A → Bool) (xs : List A)
      → All P (keep p xs)
      → All (λ x. p x ≡ true → P x) xs
  All-of-keep P p [] h = tt
  All-of-keep P p (x ∷ xs) h = elim (Bool-cases (p x)) [
    | inl e ↦ let h' : All P (x ∷ keep p xs) = rw e at h in ((λ _. h'.0), All-of-keep P p xs h'.1)
    | inr e ↦ ((λ e'. cc), All-of-keep P p xs (rw e at h))
  ]

  pub All-mono {κ μ} :
      (P : A → Type κ) (Q : A → Type μ) (xs : List A) → ((x : A) → P x → Q x) → All P xs → All Q xs
  All-mono P Q [] f h = tt
  All-mono P Q (x ∷ xs) f h = (f x h.0, All-mono P Q xs f h.1)

  pub All-both {κ μ} :
      (P : A → Type κ) (Q : A → Type μ) (xs : List A)
      → All P xs
      → All Q xs
      → All (λ x. P x × Q x) xs
  All-both P Q [] h k = tt
  All-both P Q (x ∷ xs) h k = ((h.0, k.0), All-both P Q xs h.1 k.1)

  pub All-append {κ} : (P : A → Type κ) (xs ys : List A) → All P xs → All P ys → All P (xs ++ ys)
  All-append P [] ys h k = k
  All-append P (x ∷ xs) ys h k = (h.0, All-append P xs ys h.1 k)

  pub Any-of-keep :
      (P : A → Type 0) (p : A → Bool) (xs : List A)
      → Any P (keep p xs)
      → Any (λ x. P x × (p x ≡ true)) xs
  Any-of-keep P p [] m = m
  Any-of-keep P p (x ∷ xs) m = elim (Bool-cases (p x)) [
    | inl e ↦ elim (let m' : Any P (x ∷ keep p xs) = rw e at m in m') [
      | inl h ↦ inl (h, e)
      | inr t ↦ inr (Any-of-keep P p xs t)
    ]
    | inr e ↦ inr (Any-of-keep P p xs (rw e at m))
  ]

  pub Any-mono : (P Q : A → Type 0) (xs : List A) → ((x : A) → P x → Q x) → Any P xs → Any Q xs
  Any-mono P Q [] f m = m
  Any-mono P Q (x ∷ xs) f (inl h) = inl (f x h)
  Any-mono P Q (x ∷ xs) f (inr m) = inr (Any-mono P Q xs f m)

module _ {A : Type 0} where
  -- an element that is listed has what holds of all
  pub All-at {κ} : (P : A → Type κ) (a : A) (xs : List A) → Any (λ x. x ≡ a) xs → All P xs → P a
  All-at P a [] m h = absurd m
  All-at P a (x ∷ xs) (inl e) h = subst P e h.0
  All-at P a (x ∷ xs) (inr m) h = All-at P a xs m h.1

module _ {ℓ κ} {A : Type ℓ} {B : Type κ} where
  -- the lists have one length, and the relation holds at each place
  abbrev pub Zip : (A → B → Type 0) → List A → List B → Type 0
  Zip R [] [] = Unit
  Zip R [] (y ∷ ys) = ⊥
  Zip R (x ∷ xs) [] = ⊥
  Zip R (x ∷ xs) (y ∷ ys) = R x y × Zip R xs ys

-- `name in names`
abbrev pub elem : String → List String → Bool
elem s [] = false
elem s (x ∷ xs) = (x == s) || elem s xs

-- no name occurs twice
abbrev pub Uniq : List String → Type 0
Uniq [] = Unit
Uniq (x ∷ xs) = (elem x xs ≡ false) × Uniq xs
