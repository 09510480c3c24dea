-- ===== src/Config/Resolve.antt =====
-- `resolve_cli_defaults` of ch_diag/config.py.
use ch_diag.Artifact.{values}
use ch_diag.Config.{
  Integer, Python, Setting, Value, below_zero, bool_value, boolean, coerce, integer_value, no_value,
  nonnegative, text_value, toml_bool, toml_float, toml_integer, toml_list, toml_text,
}
use ch_diag.Config.Fields.{config_fields, env_fields}
use ch_diag.Prelude.{
  Bool, List, Option, String, [], false, none, not, some, true, ◌&&◌, ◌==◌, ◌||◌, ◌∷◌,
}
use ch_diag.Prelude.Dict.{Dict, get, has, put}
use ch_diag.Prelude.Lists.{elem}
use ch_diag.Prelude.Results.{Error, Result, config_error, err, key_error, ok, raise_if, ◌>>=◌, ◌>>◌}
use ch_diag.Prelude.Tests.{if◌then◌else◌, leb, ltb}

-- the value of a section in a document
pub data Section : Type 0 where
  section_table : Dict Value → Section
  section_value : Value → Section

abbrev pub Document : Type 0
Document = Dict Section

-- `bool(value)`
abbrev pub truth_of_integer : Integer → Bool
truth_of_integer (nonnegative n) = ltb 0 n
truth_of_integer (below_zero n) = true

abbrev pub truth : Value → Bool
truth (toml_bool b) = b
truth (toml_integer n) = truth_of_integer n
truth (toml_float n) = truth_of_integer n
truth (toml_text s) = not (s == "")
truth (toml_list []) = false
truth (toml_list (item ∷ items)) = true

-- `document.get(section) or {}`, which must be a table
abbrev pub section_values : Option Section → Result (Dict Value)
section_values none = ok []
section_values (some (section_table values)) = ok values
section_values (some (section_value v)) =
    if truth v then err (config_error "configuration section must be a table") else ok []

abbrev pub has_unknown {ℓ κ} : {A : Type ℓ} {B : Type κ} → Dict A → Dict B → Bool
has_unknown [] known = false
has_unknown ((k, a) ∷ rest) known = not (has k known) || has_unknown rest known

abbrev pub truth_at : Option Value → Bool
truth_at none = false
truth_at (some v) = truth v

abbrev pub or_false : Option Value → Value
or_false none = toml_bool false
or_false (some v) = v

-- the check of `[ssh]`, which reads the agent only where there is a key
unfoldable pub check_ssh : Python → Option Section → Result (Unit {0})
unfolding boolean
check_ssh python none = ok tt
check_ssh python (some (section_value v)) = ok tt
check_ssh python (some (section_table values)) =
    if truth_at (get "key" values)
    then boolean python (or_false (get "agent" values)) >>= (λ agent.
      raise_if agent (config_error "configuration [ssh] must select either key or agent"))
    else ok tt

abbrev pub field_of : Option String → Result String
field_of none = err (key_error "fields")
field_of (some destination) = ok destination

-- the loop over the values of a section
unfoldable pub coerce_values :
    Python → Dict String → Dict Value → Dict Setting → Result (Dict Setting)
unfolding coerce
coerce_values python fields [] defaults = ok defaults
coerce_values python fields ((key, v) ∷ rest) defaults = do
  destination ← field_of (get key fields)
  s ← coerce python destination v
  coerce_values python fields rest (put destination s defaults)

-- the loop over the sections
unfoldable pub read_sections :
    Python → Document → Dict (Dict String) → Dict Setting → Result (Dict Setting)
unfolding coerce_values
read_sections python document [] defaults = ok defaults
read_sections python document ((section, fields) ∷ rest) defaults = do
  values ← section_values (get section document)
  raise_if (has_unknown values fields) (config_error "unknown key(s)")
  later ← coerce_values python fields values defaults
  read_sections python document rest later

-- what a configuration file decides
unfoldable pub config_defaults : Python → Option Document → Result (Dict Setting)
unfolding check_ssh read_sections
config_defaults python none = ok []
config_defaults python (some document) = do
  raise_if (has_unknown document config_fields) (config_error "unknown configuration section(s)")
  check_ssh python (get "ssh" document)
  read_sections python document config_fields []

abbrev pub Env : Type 0
Env = Dict String

abbrev pub key_name : String
key_name = "CH_DIAG_SSH_KEY"

abbrev pub agent_name : String
agent_name = "CH_DIAG_SSH_AGENT"

unfoldable pub env_boolean : Python → Option String → Result Bool
unfolding boolean
env_boolean python none = ok false
env_boolean python (some s) = boolean python (toml_text s)

abbrev pub is_nonempty : Option String → Bool
is_nonempty none = false
is_nonempty (some s) = not (s == "")

abbrev pub put_if : Bool → String → Setting → Dict Setting → Dict Setting
put_if b k s d = if b then put k s d else d

-- a key or an agent of the environment takes the place of the other in the file
unfoldable pub override_ssh : Env → Bool → Dict Setting → Dict Setting
override_ssh env agent_enabled defaults =
    put_if agent_enabled "ssh_key" no_value
      (put_if (has key_name env) "ssh_agent" (bool_value false) defaults)

-- the loop over the variables
unfoldable pub apply_variables : Python → Env → Dict String → Dict Setting → Result (Dict Setting)
unfolding coerce
apply_variables python env [] defaults = ok defaults
apply_variables python env ((name, destination) ∷ rest) defaults = elim (get name env) [
  | none ↦ apply_variables python env rest defaults
  | some s ↦
      coerce python destination (toml_text s)
      >>= (λ v. apply_variables python env rest (put destination v defaults))
]

unfoldable pub apply_environment : Python → Env → Dict Setting → Result (Dict Setting)
unfolding env_boolean override_ssh apply_variables
apply_environment python env defaults = do
  agent_enabled ← env_boolean python (get agent_name env)
  raise_if (is_nonempty (get key_name env) && agent_enabled)
      (config_error "environment must select either CH_DIAG_SSH_KEY or CH_DIAG_SSH_AGENT")
  apply_variables python env env_fields (override_ssh env agent_enabled defaults)

-- the checks at the end
abbrev pub is_choice : List String → Option Setting → Bool
is_choice names none = true
is_choice names (some no_value) = true
is_choice names (some (text_value s)) = elem s names
is_choice names (some other) = false

abbrev pub is_port_number : Integer → Bool
is_port_number (nonnegative n) = leb 1 n && leb n 65535
is_port_number (below_zero n) = false

abbrev pub is_port : Option Setting → Bool
is_port none = true
is_port (some (integer_value n)) = is_port_number n
is_port (some other) = false

abbrev pub modes : List String
modes = "local" ∷ "remote" ∷ "remote-db-only" ∷ []

abbrev pub scopes : List String
scopes = "node" ∷ "cluster" ∷ []

abbrev pub mode_error : Error
mode_error = config_error "collection mode must be local, remote, or remote-db-only"

abbrev pub scope_error : Error
scope_error = config_error "target scope must be node or cluster"

abbrev pub port_error : Error
port_error = config_error "port must be between 1 and 65535"

unfoldable pub check_defaults : Dict Setting → Result (Dict Setting)
check_defaults defaults = do
  raise_if (not (is_choice modes (get "collection_mode" defaults))) mode_error
  raise_if (not (is_choice scopes (get "target_scope" defaults))) scope_error
  raise_if (not (is_port (get "port" defaults))) port_error
  raise_if (not (is_port (get "ssh_port" defaults))) port_error
  ok defaults

-- `resolve_cli_defaults`
unfoldable pub resolve_cli_defaults : Python → Option Document → Env → Result (Dict Setting)
unfolding config_defaults apply_environment check_defaults
resolve_cli_defaults python document env = do
  configured ← config_defaults python document
  defaults ← apply_environment python env configured
  check_defaults defaults
