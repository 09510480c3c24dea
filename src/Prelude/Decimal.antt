-- ===== src/Prelude/Decimal.antt =====
-- Decimal numbers as text: what `print_int` prints, `read_from` reads, and a run of digits ends
-- where the digits end.
use Prim.Native.Nat.{ℕ, zero, suc, ◌+◌, ◌-◌, ◌*◌, ◌/◌, ◌%◌, ◌<◌}
use mathlib.Core.Path.{◌≡◌, refl, sym, subst, ap, ◌∙◌}
use mathlib.Core.Logic.{inl, inr}
use mathlib.Core.Bool.{true, false}
use mathlib.Core.List.{[], ◌∷◌, ◌++◌}
use native.Mathlib.Omega.{arith}
use ch_diag.Prelude.Lists.{All, All-append}
use ch_diag.Prelude.Tests.{Bool-cases, ltb}
use ch_diag.Prelude.Text.{
  Text, after_digits, digit_run, drop_spaces, is_digit, is_space, print_fuel, print_int, read_from,
}

abbrev pub IsNumeric : Text → Type 0
IsNumeric s = All (λ c. is_digit c ≡ true) s

-- the text does not go on with a digit
abbrev pub Stops : Text → Type 0
Stops [] = Unit
Stops (c ∷ s) = is_digit c ≡ false

pub digit_run-append : (s t : Text) → IsNumeric s → Stops t → digit_run (s ++ t) ≡ s
digit_run-append [] [] h k = refl
digit_run-append [] (c ∷ t) h k = rw k
digit_run-append (c ∷ s) t h k = rw h.0 (ap (λ (r : Text). c ∷ r) (digit_run-append s t h.1 k))

pub after_digits-append : (s t : Text) → IsNumeric s → Stops t → after_digits (s ++ t) ≡ t
after_digits-append [] [] h k = refl
after_digits-append [] (c ∷ t) h k = rw k
after_digits-append (c ∷ s) t h k = rw h.0 (after_digits-append s t h.1 k)

read_from-append :
    (n : ℕ) (s : Text) (c : ℕ) → read_from n (s ++ (c ∷ [])) ≡ read_from n s * 10 + (c - b'0')
read_from-append n [] c = refl
read_from-append n (d ∷ s) c = read_from-append (n * 10 + (d - b'0')) s c

print_fuel_small : (f n : ℕ) → ltb n 10 ≡ true → print_fuel (suc f) n ≡ (b'0' + n) ∷ []
unfolding print_fuel
print_fuel_small f n h = rw (h, print_fuel)

print_fuel_large :
    (f n : ℕ)
    → ltb n 10 ≡ false
    → print_fuel (suc f) n ≡ print_fuel f (n / 10) ++ ((b'0' + n % 10) ∷ [])
unfolding print_fuel
print_fuel_large f n h = rw (h, print_fuel)

print_fuel-IsNumeric : (f n : ℕ) → IsNumeric (print_fuel f n)
print_fuel-IsNumeric zero n = unfold print_fuel in tt
print_fuel-IsNumeric (suc f) n = elim (Bool-cases (ltb n 10)) [
  | inl h ↦ subst IsNumeric (sym (print_fuel_small f n h)) (small n h, tt)
  | inr h ↦ subst IsNumeric (sym (print_fuel_large f n h)) (
      All-append (λ c. is_digit c ≡ true) (print_fuel f (n / 10)) ((b'0' + n % 10) ∷ [])
        (print_fuel-IsNumeric f (n / 10)) (last n, tt))
]
  where
    small : (m : ℕ) → ltb m 10 ≡ true → is_digit (b'0' + m) ≡ true
    small m h = ground arith

    last : (m : ℕ) → is_digit (b'0' + m % 10) ≡ true
    last m = ground arith

print_fuel-read : (f n : ℕ) → n < f → read_from 0 (print_fuel f n) ≡ n
print_fuel-read zero n lt = elim lt [ ]
print_fuel-read (suc f) n lt = elim (Bool-cases (ltb n 10)) [
  | inl h ↦ subst (λ s. read_from 0 s ≡ n) (sym (print_fuel_small f n h)) (omega arith)
  | inr h ↦
      subst (λ s. read_from 0 s ≡ n) (sym (print_fuel_large f n h))
        (read_from-append 0 (print_fuel f (n / 10)) (b'0' + n % 10)
          ∙ omega (arith, print_fuel-read f (n / 10) (tenth h)))
]
  where
    tenth : ltb n 10 ≡ false → n / 10 < f
    tenth h = ground arith

print_fuel-cons : (f n : ℕ) → (c : ℕ) × (s : Text) × (print_fuel (suc f) n ≡ c ∷ s)
print_fuel-cons zero n = elim (Bool-cases (ltb n 10)) [
  | inl h ↦ (b'0' + n, [], print_fuel_small 0 n h)
  | inr h ↦ (b'0' + n % 10, [], print_fuel_large 0 n h ∙ (unfold print_fuel in refl))
]
print_fuel-cons (suc f) n = elim (Bool-cases (ltb n 10)) [
  | inl h ↦ (b'0' + n, [], print_fuel_small (suc f) n h)
  | inr h ↦
      let (c, s, e) = print_fuel-cons f (n / 10) in
      (
        c,
        s ++ ((b'0' + n % 10) ∷ []),
        print_fuel_large (suc f) n h ∙ ap (λ (r : Text). r ++ ((b'0' + n % 10) ∷ [])) e,
      )
]

pub print_int-IsNumeric : (n : ℕ) → IsNumeric (print_int n)
unfolding print_int
print_int-IsNumeric n = print_fuel-IsNumeric (suc n) n

pub read_from-print_int : (n : ℕ) → read_from 0 (print_int n) ≡ n
unfolding print_int
read_from-print_int n = print_fuel-read (suc n) n (omega arith)

pub print_int-cons : (n : ℕ) → (c : ℕ) × (s : Text) × (print_int n ≡ c ∷ s)
unfolding print_int
print_int-cons n = print_fuel-cons n n

pub drop_spaces-digit : (c : ℕ) (s : Text) → is_digit c ≡ true → drop_spaces (c ∷ s) ≡ c ∷ s
drop_spaces-digit c s h = rw (space c h)
  where
    space : (d : ℕ) → is_digit d ≡ true → is_space d ≡ false
    space d h = ground arith
