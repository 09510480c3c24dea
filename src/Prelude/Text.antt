-- ===== src/Prelude/Text.antt =====
-- Text as the list of its code points, where the program walks it. Character classes are those
-- of ASCII.
use Prim.Native.Nat.{ℕ, zero, suc, ◌+◌, ◌-◌, ◌*◌, ◌/◌, ◌%◌}
use Prim.Native.Char.{code}
use Prim.Native.String.{String}
use mathlib.Core.Bool.{Bool, true, false, ◌&&◌, ◌||◌}
use mathlib.Core.List.{List, [], ◌∷◌, ◌++◌, reverse}
use ch_diag.Prelude.Tests.{if◌then◌else◌, leb, ltb}

abbrev pub Text : Type 0
Text = List ℕ

abbrev pub codes : String → Text
codes String.[] = []
codes (String.◌∷◌ c s) = code c ∷ codes s

-- what `str.strip` removes and `\s` matches
abbrev pub is_space : ℕ → Bool
is_space c = (leb 9 c && leb c 13) || (leb 28 c && leb c 32)

abbrev pub is_digit : ℕ → Bool
is_digit c = leb b'0' c && leb c b'9'

abbrev pub drop_spaces : Text → Text
drop_spaces [] = []
drop_spaces (c ∷ s) = if is_space c then drop_spaces s else c ∷ s

-- `str.strip()`
abbrev pub strip : Text → Text
strip s = reverse (drop_spaces (reverse (drop_spaces s)))

-- the longest run of digits at the start, and what follows it
abbrev pub digit_run : Text → Text
digit_run [] = []
digit_run (c ∷ s) = if is_digit c then c ∷ digit_run s else []

abbrev pub after_digits : Text → Text
after_digits [] = []
after_digits (c ∷ s) = if is_digit c then after_digits s else c ∷ s

-- `int(text)` of a run of digits
abbrev pub read_from : ℕ → Text → ℕ
read_from n [] = n
read_from n (c ∷ s) = read_from (n * 10 + (c - b'0')) s

-- `str(number)`: the digits of `n`, most significant first. Fuel `suc n` is enough.
unfoldable pub print_fuel : ℕ → ℕ → Text
print_fuel zero n = []
print_fuel (suc f) n = elim (ltb n 10) [
  | true ↦ (b'0' + n) ∷ []
  | false ↦ print_fuel f (n / 10) ++ (b'0' + n % 10) ∷ []
]

unfoldable pub print_int : ℕ → Text
unfolding print_fuel
print_int n = print_fuel (suc n) n
