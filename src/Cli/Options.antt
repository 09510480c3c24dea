-- ===== src/Cli/Options.antt =====
-- The options of the collection commands: `_OverrideAppendAction`, `_SshKeyAction` and
-- `_SshAgentAction` of ch_diag/cli.py, over the defaults that `_parser` sets. What `argparse` reads
-- from the words of a command line is a list of given options.
pub mod Exclusive
pub mod Override
use ch_diag.Config.{
  Setting, bool_value, integer_value, list_value, no_value, nonnegative, text_value,
}
use ch_diag.Prelude.{List, Option, String, [], false, none, some, true, ℕ, ◌++◌, ◌∷◌}
use ch_diag.Prelude.Dict.{Dict, get, has, put}
use ch_diag.Prelude.Lists.{elem}
use ch_diag.Prelude.Tests.{if◌then◌else◌}

-- an option that is given: of the actions of `argparse`, the value of a destination; and the three
-- actions of the program
pub data Given : Type 0 where
  store : String → Setting → Given
  append : String → String → Given
  select_key : String → Given
  select_agent : Given

-- the destinations, and the markers of the appending action that are set
pub record Namespace : Type 0 where
  pub values : Dict Setting
  pub seen : List String

-- `list(getattr(namespace, dest, None) or [])`
abbrev pub as_list : Option Setting → List String
as_list none = []
as_list (some (list_value items)) = items
as_list (some other) = []

abbrev pub current_list : Namespace → String → List String
current_list n destination =
    if elem destination n.seen then as_list (get destination n.values) else []

unfoldable pub act : Given → Namespace → Namespace
act (store destination v) n = record n { values = put destination v n.values }
act (append destination item) n = record {
  values = put destination (list_value (current_list n destination ++ (item ∷ []))) n.values;
  seen = destination ∷ n.seen;
}
act (select_key path) n = record n {
  values = put "ssh_agent" (bool_value false) (put "ssh_key" (text_value path) n.values);
}
act select_agent n = record n {
  values = put "ssh_key" no_value (put "ssh_agent" (bool_value true) n.values);
}

unfoldable pub act_all : List Given → Namespace → Namespace
unfolding act
act_all [] n = n
act_all (g ∷ gs) n = act_all gs (act g n)

abbrev pub text_of : String → String × Setting
text_of destination = (destination, no_value)

abbrev pub port_number : ℕ → Setting
port_number n = integer_value (nonnegative n)

-- `_add_collection_arguments`: the destinations and their defaults; the content path is an argument
abbrev pub collection_arguments : String → Dict Setting
collection_arguments content =
    ("content", text_value content)
    ∷ text_of "item_ids"
    ∷ text_of "tags"
    ∷ ("host", text_value "127.0.0.1")
    ∷ ("port", port_number 9000)
    ∷ ("database", text_value "default")
    ∷ ("user", text_value "default")
    ∷ text_of "password"
    ∷ ("password_env", text_value "CH_DIAG_PASSWORD")
    ∷ ("password_prompt", bool_value false)
    ∷ ("secure", bool_value false)
    ∷ ("no_verify", bool_value false)
    ∷ text_of "ca_certs"
    ∷ text_of "certfile"
    ∷ text_of "keyfile"
    ∷ text_of "server_hostname"
    ∷ ("collection_mode", text_value "local")
    ∷ ("target_scope", text_value "node")
    ∷ text_of "cluster_name"
    ∷ ("out_dir", text_value "reports")
    ∷ text_of "json_out"
    ∷ text_of "html_out"
    ∷ text_of "output_format"
    ∷ ("strip_meta", bool_value false)
    ∷ text_of "log_file"
    ∷ text_of "ssh_host"
    ∷ ("ssh_port", port_number 22)
    ∷ text_of "ssh_user"
    ∷ text_of "ssh_key"
    ∷ ("ssh_agent", bool_value false)
    ∷ text_of "ssh_known_hosts"
    ∷ []

-- `subparser.set_defaults(**{... if key in supported})`
unfoldable pub set_defaults : Dict Setting → Dict Setting → Dict Setting
set_defaults supported [] = supported
set_defaults supported ((key, v) ∷ rest) =
    let others = set_defaults supported rest in
    if has key supported then put key v others else others

-- `parser.parse_args` of a collection command
unfoldable pub parse_args : String → Dict Setting → List Given → Namespace
unfolding set_defaults act_all
parse_args content defaults options =
    act_all options
      (record { values = set_defaults (collection_arguments content) defaults; seen = [] })
