-- ===== src/Config/Tests.antt =====
-- A configuration file and an environment, and the theorems at them.
use ch_diag.Config.{
  Python, Setting, bool_value, boolean, coerce, int_of, int_of_text, integer_value, no_value,
  nonnegative, str_of, text_value, toml_bool, toml_integer, toml_text,
}
use ch_diag.Config.Checks.{IsChecked, resolve_cli_defaults-IsChecked}
use ch_diag.Config.Environment.{Wins, resolve_cli_defaults-Wins, variable_of}
use ch_diag.Config.Exclusive.{IsExclusive}
use ch_diag.Config.Exclusive.Defaults.{resolve_cli_defaults-IsExclusive}
use ch_diag.Config.Fields.{env_fields}
use ch_diag.Config.Resolve.{
  Document, Env, apply_environment, apply_variables, check_defaults, check_ssh, coerce_values,
  config_defaults, env_boolean, override_ssh, read_sections, resolve_cli_defaults, section_table,
}
use ch_diag.Prelude.{[], false, none, refl, some, true, ◌∷◌, ◌≡◌}
use ch_diag.Prelude.Dict.{Dict}
use ch_diag.Prelude.Results.{ok}
use ch_diag.Prelude.Text.{codes}

-- numbers with a fraction are not used here
abbrev plain_python : Python
plain_python = record { read_float = λ s. none; show_float = λ n. ""; show_list = λ items. "" }

abbrev file : Document
file =
    (
      "connection",
      section_table (("host", toml_text "db1") ∷ ("port", toml_integer (nonnegative 9440)) ∷ []),
    )
    ∷ ("ssh", section_table (("key", toml_text "~/.ssh/id") ∷ []))
    ∷ []

abbrev variables : Env
variables = ("CH_DIAG_HOST", "db2") ∷ ("CH_DIAG_SSH_AGENT", "yes") ∷ []

abbrev resolved : Dict Setting
resolved =
    ("host", text_value "db2")
    ∷ ("port", integer_value (nonnegative 9440))
    ∷ ("ssh_key", no_value)
    ∷ ("ssh_agent", bool_value true)
    ∷ []

resolved_defaults : resolve_cli_defaults plain_python (some file) variables ≡ ok resolved
unfolding resolve_cli_defaults config_defaults check_ssh read_sections coerce_values coerce boolean
    int_of str_of apply_environment env_boolean override_ssh apply_variables check_defaults
resolved_defaults = refl

-- a key that is no text, and false, is not seen by the check of the table
key_and_agent :
    resolve_cli_defaults plain_python
      (some
        (("ssh", section_table (("key", toml_bool false) ∷ ("agent", toml_bool true) ∷ [])) ∷ []))
      []
    ≡ ok (("ssh_key", text_value "False") ∷ ("ssh_agent", bool_value true) ∷ [])
unfolding resolve_cli_defaults config_defaults check_ssh read_sections coerce_values coerce boolean
    str_of apply_environment env_boolean override_ssh apply_variables check_defaults
key_and_agent = refl

resolve_cli_defaults-Wins_example :
    (configured : Dict Setting) × (config_defaults plain_python (some file) ≡ ok configured)
    × Wins plain_python configured resolved "host" (variable_of env_fields variables "host")
resolve_cli_defaults-Wins_example =
    resolve_cli_defaults-Wins plain_python variables (some file) resolved "host" refl refl
      resolved_defaults

resolve_cli_defaults-IsChecked_example : IsChecked resolved
resolve_cli_defaults-IsChecked_example =
    resolve_cli_defaults-IsChecked plain_python (some file) variables resolved resolved_defaults

resolve_cli_defaults-IsExclusive_example : IsExclusive resolved
resolve_cli_defaults-IsExclusive_example =
    resolve_cli_defaults-IsExclusive plain_python (some file) variables resolved ((refl, tt), tt)
      resolved_defaults

test_underscores : int_of_text (codes "1_000") ≡ ok (nonnegative 1000)
unfolding int_of_text
test_underscores = refl
