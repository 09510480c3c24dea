-- ===== src/Prelude/Names.antt =====
-- Membership of names in lists of names, as equations of Boolean tests.
use mathlib.Core.Path.{◌≡◌, refl, sym, ap, subst}
use mathlib.Core.Logic.{inl, inr}
use mathlib.Core.Bool.{Bool, true, false, not, ◌&&◌, ◌||◌}
use mathlib.Core.List.{List, [], ◌∷◌, ◌++◌}
use native.Mathlib.Omega.{arith}
use Prim.Native.String.{String}
use text.Mathlib.Text.{◌==◌}
use text.Mathlib.TextEquality.{eq_iff}
use ch_diag.Prelude.Lists.{Uniq, any, elem, keep, keep-cons, keep-skip}
use ch_diag.Prelude.Tests.{Bool-cases}

pub elem-append : (x : String) (xs ys : List String) → elem x (xs ++ ys) ≡ (elem x xs || elem x ys)
elem-append x [] ys = refl
elem-append x (y ∷ xs) ys = ground (arith, elem-append x xs ys)

pub elem-keep :
    (x : String) (p : String → Bool) (xs : List String) → elem x (keep p xs) ≡ (elem x xs && p x)
elem-keep x p [] = refl
elem-keep x p (y ∷ xs) = elim (Bool-cases (y == x)) [
  | inl e ↦ ground (arith, elem-keep x p xs, ap p ((eq_iff y x).0 e))
  | inr e ↦ ground (arith, elem-keep x p xs)
]

pub Uniq-keep : (p : String → Bool) (xs : List String) → Uniq xs → Uniq (keep p xs)
Uniq-keep p [] u = tt
Uniq-keep p (x ∷ xs) u = elim (Bool-cases (p x)) [
  | inl e ↦
      subst Uniq (sym (keep-cons p x xs e))
        (ground (arith, elem-keep x p xs, u.0), Uniq-keep p xs u.1)
  | inr e ↦ subst Uniq (sym (keep-skip p x xs e)) (Uniq-keep p xs u.1)
]

-- every name of the first list is in the second
pub any-missing :
    (xs ys : List String)
    → ((x : String) → elem x xs ≡ true → elem x ys ≡ true)
    → any (λ x. not (elem x ys)) xs ≡ false
any-missing [] ys h = refl
any-missing (x ∷ xs) ys h =
    ground (arith, h x, eq_iff x x, any-missing xs ys (λ y e. h y (ground arith)))

abbrev pub distinct : List String → Bool
distinct [] = true
distinct (x ∷ xs) = not (elem x xs) && distinct xs

pub Uniq-distinct : (xs : List String) → distinct xs ≡ true → Uniq xs
Uniq-distinct [] h = tt
Uniq-distinct (x ∷ xs) h = (ground arith, Uniq-distinct xs (ground arith))
