-- ===== src/Prelude/Results.antt =====
-- Python code that may raise: the value, or the exception. The constructors of `Error` stand for
-- the exceptions that the modelled code raises, with the values their messages quote.
use Prim.Native.Nat.{ℕ}
use Prim.Native.String.{String}
use mathlib.Core.Path.{◌≡◌, refl}
use mathlib.Core.Bool.{Bool, true, false}
use mathlib.Core.List.{List}
use ch_diag.Database.Session.{error}

pub data Error : Type 0 where
  invalid_version : List ℕ → Error
  invalid_lts_branch : List ℕ → Error
  overlapping_variants : List String → Error
  key_error : String → Error
  stop_iteration : Error
  assertion_error : Error
  both_filters : Error
  unknown_items : List String → Error
  unknown_tags : List String → Error
  version_required : Error
  fallback_version_required : Error
  unsupported_version : Error
  unsupported_schema : Error
  invalid_completion : String → Error
  shared_item : String → Error
  inconsistent_references : Error
  invalid_status : String → String → Error
  invalid_kind : String → Error
  invalid_column : String → Error
  malformed_rows : String → Error
  inconsistent_row_count : String → Error
  inconsistent_series_count : String → Error
  budgets_not_positive : Error
  no_lts_branches duplicate_lts_branches unordered_lts_branches : Error
  overlapping_lts : String → String → Error
  missing_lts : String → Error
  duration_not_positive interval_not_positive : Error
  interval_below_minimum duration_below_interval above_snapshot_limit : Error
  config_error usage_error : String → Error
  type_error : Error

pub data Result {ℓ} (T : Type ℓ) : Type ℓ where
  err : Error → Result T
  ok : T → Result T

-- `if test: raise error`
abbrev pub raise_if : Bool → Error → Result (Unit {0})
raise_if false error = ok tt
raise_if true error = err error

infixl 5 ◌>>=◌ ◌>>◌
-- what follows in the code runs with the value, and an exception leaves it
abbrev pub ◌>>=◌ {κ μ} : {T : Type κ} {U : Type μ} → Result T → (T → Result U) → Result U
err error >>= next = err error
ok value >>= next = next value

pub >>=-eq-ok {κ μ} :
    {T : Type κ} {U : Type μ} (r : Result T) (next : T → Result U) {u : U}
    → (r >>= next) ≡ ok u
    → (value : T) × (r ≡ ok value) × (next value ≡ ok u)
>>=-eq-ok (err error) next h = cc
>>=-eq-ok (ok value) next h = (value, refl, h)

abbrev pub ◌>>◌ {μ} : {U : Type μ} → Result (Unit {0}) → Result U → Result U
r >> rest = r >>= λ done. rest

-- what runs behind a guard
pub raise_if-eq-ok {μ} :
    {U : Type μ} (test : Bool) (error : Error) (rest : Result U) {u : U}
    → (raise_if test error >> rest) ≡ ok u
    → (test ≡ false) × (rest ≡ ok u)
raise_if-eq-ok false error rest h = (refl, h)
raise_if-eq-ok true error rest h = cc
