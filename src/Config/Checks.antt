-- ===== src/Config/Checks.antt =====
-- What the checks at the end of `resolve_cli_defaults` establish.
use ch_diag.Collector.Lifecycle.{after}
use ch_diag.Config.{
  Python, Setting, below_zero, bool_value, float_value, integer_value, list_value, no_value,
  nonnegative, text_value,
}
use ch_diag.Config.Resolve.{
  Document, Env, apply_environment, check_defaults, config_defaults, is_choice, is_port, mode_error,
  modes, port_error, resolve_cli_defaults, scope_error, scopes,
}
use ch_diag.Prelude.{List, Option, String, arith, false, none, not, some, subst, true, ◌≡◌, ◌≤◌}
use ch_diag.Prelude.Dict.{Dict, get}
use ch_diag.Prelude.Lists.{elem}
use ch_diag.Prelude.Results.{>>=-eq-ok, ok, raise_if-eq-ok}

-- one of the choices, or not given
abbrev pub IsChoice : List String → Option Setting → Type 0
IsChoice names none = Unit
IsChoice names (some no_value) = Unit
IsChoice names (some (text_value s)) = elem s names ≡ true
IsChoice names (some (bool_value b)) = ⊥
IsChoice names (some (integer_value n)) = ⊥
IsChoice names (some (float_value n)) = ⊥
IsChoice names (some (list_value items)) = ⊥

-- the number of a port, or not given
abbrev pub IsPort : Option Setting → Type 0
IsPort none = Unit
IsPort (some no_value) = ⊥
IsPort (some (text_value s)) = ⊥
IsPort (some (bool_value b)) = ⊥
IsPort (some (integer_value (nonnegative n))) = (1 ≤ n) × (n ≤ 65535)
IsPort (some (integer_value (below_zero n))) = ⊥
IsPort (some (float_value n)) = ⊥
IsPort (some (list_value items)) = ⊥

abbrev pub IsChecked : Dict Setting → Type 0
IsChecked d =
    IsChoice modes (get "collection_mode" d)
    × IsChoice scopes (get "target_scope" d)
    × IsPort (get "port" d)
    × IsPort (get "ssh_port" d)

no_choice : {A : Type 0} → not false ≡ false → A
no_choice h = absurd (let x : ⊥ = cc h in x)

is_choice_lem :
    (names : List String) (o : Option Setting) → not (is_choice names o) ≡ false → IsChoice names o
is_choice_lem names none h = tt
is_choice_lem names (some no_value) h = tt
is_choice_lem names (some (text_value s)) h = ground arith
is_choice_lem names (some (bool_value b)) h = no_choice h
is_choice_lem names (some (integer_value n)) h = no_choice h
is_choice_lem names (some (float_value n)) h = no_choice h
is_choice_lem names (some (list_value items)) h = no_choice h

is_port_lem : (o : Option Setting) → not (is_port o) ≡ false → IsPort o
is_port_lem none h = tt
is_port_lem (some no_value) h = no_choice h
is_port_lem (some (text_value s)) h = no_choice h
is_port_lem (some (bool_value b)) h = no_choice h
is_port_lem (some (integer_value (nonnegative n))) h = ground arith
is_port_lem (some (integer_value (below_zero n))) h = no_choice h
is_port_lem (some (float_value n)) h = no_choice h
is_port_lem (some (list_value items)) h = no_choice h

pub check_defaults-IsChecked :
    (before after : Dict Setting)
    → check_defaults before ≡ ok after
    → (before ≡ after) × IsChecked before
unfolding check_defaults
check_defaults-IsChecked before after h =
    let (a, h₁) =
      raise_if-eq-ok (not (is_choice modes (get "collection_mode" before))) mode_error _ h in
    let (b, h₂) =
      raise_if-eq-ok (not (is_choice scopes (get "target_scope" before))) scope_error _ h₁ in
    let (c, h₃) = raise_if-eq-ok (not (is_port (get "port" before))) port_error _ h₂ in
    let (d, h₄) =
      raise_if-eq-ok (not (is_port (get "ssh_port" before))) port_error (ok before) h₃ in
    (same h₄, (is_choice_lem modes _ a, is_choice_lem scopes _ b, is_port_lem _ c, is_port_lem _ d))
  where
    same : ok before ≡ ok after → before ≡ after
    same e = cc e

-- Where the defaults are resolved, whatever the file and the environment say, the collection mode
-- and the target scope are choices of the program and the ports are between 1 and 65535, as far as
-- they are given.
pub resolve_cli_defaults-IsChecked :
    (python : Python) (document : Option Document) (env : Env) (after : Dict Setting)
    → resolve_cli_defaults python document env ≡ ok after
    → IsChecked after
unfolding resolve_cli_defaults
resolve_cli_defaults-IsChecked python document env after e =
    let (configured, read, later) = >>=-eq-ok (config_defaults python document) _ e in
    let (defaults, applied, checked) =
      >>=-eq-ok (apply_environment python env configured) _ later in
    let (same, valid) = check_defaults-IsChecked defaults after checked in
    subst IsChecked same valid
