-- ===== src/Prelude/Dict.antt =====
-- A dictionary with string keys, as an association list in insertion order.
use Prim.Native.String.{String}
use mathlib.Core.Path.{◌≡◌, refl, ap}
use mathlib.Core.Logic.{inl, inr}
use mathlib.Core.Bool.{Bool, true, false}
use mathlib.Core.Option.{Option, none, some}
use mathlib.Core.List.{List, [], ◌∷◌}
use text.Mathlib.Text.{◌==◌}
use text.Mathlib.TextEquality.{eq_iff}
use text.Mathlib.TextPositions.{eq_refl}
use ch_diag.Prelude.Tests.{if◌then◌else◌, Bool-cases}

abbrev pub Dict {ℓ} : Type ℓ → Type ℓ
Dict A = List (String × A)

module _ {ℓ} {A : Type ℓ} where
  -- `dictionary.get(key)`
  abbrev pub get : String → Dict A → Option A
  get k [] = none
  get k ((j, a) ∷ rest) = if j == k then some a else get k rest

  -- `dictionary[key] = value`
  abbrev pub put : String → A → Dict A → Dict A
  put k a [] = (k, a) ∷ []
  put k a ((j, old) ∷ rest) = if j == k then (j, a) ∷ rest else (j, old) ∷ put k a rest

  -- `key in dictionary`
  abbrev pub has : String → Dict A → Bool
  has k [] = false
  has k ((j, a) ∷ rest) = if j == k then true else has k rest

  abbrev pub dict_keys : Dict A → List String
  dict_keys [] = []
  dict_keys ((j, a) ∷ rest) = j ∷ dict_keys rest

  pub get-put : (k : String) (a : A) (d : Dict A) → get k (put k a d) ≡ some a
  get-put k a [] = rw (eq_refl k) refl
  get-put k a ((j, old) ∷ rest) = elim (Bool-cases (j == k)) [
    | inl e ↦ rw (e, e) refl
    | inr e ↦ rw (e, e) (get-put k a rest)
  ]

  pub get-put_other :
      (i k : String) (a : A) (d : Dict A) → (k == i) ≡ false → get i (put k a d) ≡ get i d
  get-put_other i k a [] h = rw h refl
  get-put_other i k a ((j, old) ∷ rest) h = elim (Bool-cases (j == k)) [
    | inl e ↦
        let same : j ≡ k = (eq_iff j k).0 e in
        let other : (j == i) ≡ false = rw same h in rw (e, other) refl
    | inr e ↦
        rw e (ap (λ (o : Option A). if j == i then some old else o) (get-put_other i k a rest h))
  ]
