-- ===== src/Config.antt =====
-- ch_diag/config.py: the defaults of the command line, from the configuration file and from the
-- environment. A document is what the TOML library reads; how Python reads and prints numbers with a
-- fraction and prints lists is an argument. The `int` of a text is a sign and digits.
pub mod Fields
pub mod Resolve
pub mod Environment
pub mod Checks
pub mod File
pub mod Sections
pub mod Exclusive
pub mod Tests
use Prim.Native.String
use ch_diag.Prelude.{
  Bool, List, Option, String, [], false, none, not, some, suc, true, zero, ℕ, ◌%◌, ◌*◌, ◌++◌, ◌/◌,
  ◌&&◌, ◌∷◌,
}
use ch_diag.Prelude.Lists.{any, elem}
use ch_diag.Prelude.Results.{Result, config_error, err, ok, type_error, ◌>>=◌}
use ch_diag.Prelude.Strings.{casefold_eq, strip_text}
use ch_diag.Prelude.Tests.{if◌then◌else◌, ltb, nat_eq}
use ch_diag.Prelude.Text.{Text, codes, is_digit, read_from}

-- `below_zero n` is `-(n + 1)`
pub data Integer : Type 0 where
  nonnegative below_zero : ℕ → Integer

-- what a TOML file, or the environment, gives; numbers with a fraction are in thousandths, and the
-- items of a list are what `str` makes of them
pub data Value : Type 0 where
  toml_bool : Bool → Value
  toml_integer : Integer → Value
  toml_float : Integer → Value
  toml_text : String → Value
  toml_list : List String → Value

pub record Python : Type 0 where
  pub read_float : String → Option Integer
  pub show_float : Integer → String
  pub show_list : List String → String

-- a value of the defaults, after `_coerce`
pub data Setting : Type 0 where
  no_value : Setting
  bool_value : Bool → Setting
  integer_value : Integer → Setting
  float_value : Integer → Setting
  list_value : List String → Setting
  text_value : String → Setting

abbrev pub boolean_fields : List String
boolean_fields = "secure" ∷ "no_verify" ∷ "strip_meta" ∷ "ssh_agent" ∷ []

abbrev pub integer_fields : List String
integer_fields = "port" ∷ "ssh_port" ∷ []

abbrev pub float_fields : List String
float_fields = "duration" ∷ "interval" ∷ []

abbrev pub list_fields : List String
list_fields = "item_ids" ∷ "tags" ∷ "output_format" ∷ []

-- `str(number)`
abbrev pub digit : ℕ → String
digit n =
    if nat_eq n 0
    then "0"
    else if nat_eq n 1
    then "1"
    else if nat_eq n 2
    then "2"
    else if nat_eq n 3
    then "3"
    else if nat_eq n 4
    then "4"
    else if nat_eq n 5
    then "5"
    else if nat_eq n 6
    then "6"
    else if nat_eq n 7
    then "7"
    else if nat_eq n 8
    then "8"
    else "9"

unfoldable pub show_fuel : ℕ → ℕ → String
show_fuel zero n = ""
show_fuel (suc f) n = elim (ltb n 10) [
  | true ↦ digit n
  | false ↦ String.◌++◌ (show_fuel f (n / 10)) (digit (n % 10))
]

unfoldable pub show_integer : Integer → String
unfolding show_fuel
show_integer (nonnegative n) = show_fuel (suc n) n
show_integer (below_zero n) = String.◌++◌ "-" (show_fuel (suc (suc n)) (suc n))

-- `str(value)`
unfoldable pub str_of : Python → Value → String
unfolding show_integer
str_of python (toml_bool b) = if b then "True" else "False"
str_of python (toml_integer n) = show_integer n
str_of python (toml_float n) = python.show_float n
str_of python (toml_text s) = s
str_of python (toml_list items) = python.show_list items

abbrev pub is_one_of : String → List String → Bool
is_one_of s names = any (λ name. casefold_eq (strip_text s) name) names

-- `_boolean`
unfoldable pub boolean : Python → Value → Result Bool
unfolding str_of
boolean python (toml_bool b) = ok b
boolean python v =
    if is_one_of (str_of python v) ("1" ∷ "true" ∷ "yes" ∷ "on" ∷ [])
    then ok true
    else if is_one_of (str_of python v) ("0" ∷ "false" ∷ "no" ∷ "off" ∷ [])
    then ok false
    else err (config_error "must be true or false")

abbrev pub starts_with_digit : Text → Bool
starts_with_digit [] = false
starts_with_digit (c ∷ s) = is_digit c

-- the text without the underscores that stand between two digits; the flag says that the character
-- before the text is a digit
abbrev pub join_digits : Bool → Text → Text
join_digits after_digit [] = []
join_digits after_digit (c ∷ s) =
    let rest = join_digits (is_digit c) s in
    if after_digit && (nat_eq c b'_' && starts_with_digit s) then rest else c ∷ rest

-- `int(text)`
abbrev pub read_digits : Text → Result ℕ
read_digits [] = err (config_error "invalid literal for int()")
read_digits (c ∷ s) =
    if any (λ d. not (is_digit d)) (c ∷ s)
    then err (config_error "invalid literal for int()")
    else ok (read_from 0 (c ∷ s))

abbrev pub negated : ℕ → Integer
negated zero = nonnegative 0
negated (suc n) = below_zero n

unfoldable pub int_of_text : Text → Result Integer
int_of_text [] = err (config_error "invalid literal for int()")
int_of_text (c ∷ s) =
    if nat_eq c b'-'
    then read_digits (join_digits false s) >>= (λ n. ok (negated n))
    else if nat_eq c b'+'
    then read_digits (join_digits false s) >>= (λ n. ok (nonnegative n))
    else read_digits (join_digits false (c ∷ s)) >>= (λ n. ok (nonnegative n))

unfoldable pub int_of : Value → Result Integer
unfolding int_of_text
int_of (toml_bool b) = ok (nonnegative (if b then 1 else 0))
int_of (toml_integer n) = ok n
int_of (toml_float (nonnegative n)) = ok (nonnegative (n / 1000))
int_of (toml_float (below_zero n)) = ok (negated (suc n / 1000))
int_of (toml_text s) = int_of_text (codes (strip_text s))
int_of (toml_list items) = err type_error

-- `float(value)`
abbrev pub float_of_text : Option Integer → Result Integer
float_of_text none = err (config_error "could not convert string to float")
float_of_text (some n) = ok n

unfoldable pub float_of : Python → Value → Result Integer
float_of python (toml_bool b) = ok (nonnegative (if b then 1000 else 0))
float_of python (toml_integer (nonnegative n)) = ok (nonnegative (n * 1000))
float_of python (toml_integer (below_zero n)) = ok (negated (suc n * 1000))
float_of python (toml_float n) = ok n
float_of python (toml_text s) = float_of_text (python.read_float s)
float_of python (toml_list items) = err type_error

unfoldable pub list_of : Python → Value → List String
unfolding str_of
list_of python (toml_list items) = items
list_of python v = str_of python v ∷ []

-- `_coerce`; TOML has no `None`
unfoldable pub coerce : Python → String → Value → Result Setting
unfolding boolean int_of float_of list_of
coerce python destination v =
    if elem destination boolean_fields
    then boolean python v >>= (λ b. ok (bool_value b))
    else if elem destination integer_fields
    then int_of v >>= (λ n. ok (integer_value n))
    else if elem destination float_fields
    then float_of python v >>= (λ n. ok (float_value n))
    else if elem destination list_fields
    then ok (list_value (list_of python v))
    else ok (text_value (str_of python v))
