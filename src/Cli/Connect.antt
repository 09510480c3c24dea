-- ===== src/Cli/Connect.antt =====
-- `_ssh_config` and `_connection` of ch_diag/cli.py, and `ConnectionConfig.tunneled` of
-- ch_diag/clickhouse.py. The variables of the environment and the answer to a password prompt are
-- arguments.
pub mod Selects
use ch_diag.Config.{Setting, text_value}
use ch_diag.Config.Exclusive.{given}
use ch_diag.Config.Resolve.{is_nonempty}
use ch_diag.Prelude.{Bool, Option, String, [], false, none, not, some, true, ◌&&◌, ◌==◌, ◌∷◌}
use ch_diag.Prelude.Dict.{Dict, get}
use ch_diag.Prelude.Lists.{any}
use ch_diag.Prelude.Results.{Error, Result, err, ok, usage_error, ◌>>=◌, ◌>>◌}
use ch_diag.Prelude.Tests.{if◌then◌else◌}

pub record SshConfig : Type 0 where
  pub host : String
  pub port : Option Setting
  pub username : String
  pub client_key : Option String
  pub agent_path : Option String
  pub known_hosts : String

-- the text of an argument, or `None`
abbrev pub text_value_of : Option Setting → Option String
text_value_of none = none
text_value_of (some (text_value s)) = some s
text_value_of (some other) = none

abbrev pub or_empty_text : Option String → String
or_empty_text none = ""
or_empty_text (some s) = s

abbrev pub text_at : String → Dict Setting → String
text_at key args = or_empty_text (text_value_of (get key args))

-- `bool(getattr(args, key))`
abbrev pub given_at : String → Dict Setting → Bool
given_at key args = given (get key args)

abbrev pub ssh_incomplete : Error
ssh_incomplete =
    usage_error
      "SSH requires --ssh-host, --ssh-user, --ssh-known-hosts and exactly one of --ssh-key or --ssh-agent"

abbrev pub ssh_both : Error
ssh_both = usage_error "SSH requires exactly one of --ssh-key or --ssh-agent"

abbrev pub no_socket : Error
no_socket = usage_error "--ssh-agent requires SSH_AUTH_SOCK to reference a running agent"

-- `bool(args.ssh_key) == bool(args.ssh_agent)`
abbrev pub bool_eq : Bool → Bool → Bool
bool_eq true b = b
bool_eq false b = not b

abbrev pub ssh_target : Dict Setting → Option String → SshConfig
ssh_target args agent_path = record {
  host = text_at "ssh_host" args;
  port = get "ssh_port" args;
  username = text_at "ssh_user" args;
  client_key = text_value_of (get "ssh_key" args);
  agent_path = agent_path;
  known_hosts = text_at "ssh_known_hosts" args;
}

abbrev pub through_agent : Dict Setting → Option String → Result (Option SshConfig)
through_agent args socket =
    if is_nonempty socket then ok (some (ssh_target args socket)) else err no_socket

abbrev pub has_ssh_options : Dict Setting → Bool
has_ssh_options args =
    any (λ key. given_at key args)
      ("ssh_host" ∷ "ssh_user" ∷ "ssh_key" ∷ "ssh_agent" ∷ "ssh_known_hosts" ∷ [])

abbrev pub has_ssh_endpoint : Dict Setting → Bool
has_ssh_endpoint args =
    given_at "ssh_host" args && (given_at "ssh_user" args && given_at "ssh_known_hosts" args)

-- `_ssh_config`, of the arguments and `SSH_AUTH_SOCK`
unfoldable pub ssh_config : Dict Setting → Option String → Result (Option SshConfig)
ssh_config args socket =
    if not (has_ssh_options args)
    then ok none
    else if not (has_ssh_endpoint args)
    then err ssh_incomplete
    else if bool_eq (given_at "ssh_key" args) (given_at "ssh_agent" args)
    then err ssh_both
    else if given_at "ssh_agent" args
    then through_agent args socket
    else ok (some (ssh_target args none))

pub record ConnectionConfig : Type 0 where
  pub host : String
  pub port : Option Setting
  pub database : String
  pub user : String
  pub password : Option String
  pub secure : Bool
  pub verify : Bool
  pub ca_certs : Option String
  pub certfile : Option String
  pub keyfile : Option String
  pub server_hostname : Option String

-- the password of the options, else that of the environment
abbrev pub password_from : Option String → String → (String → Option String) → Option String
password_from (some password) name environment = some password
password_from none name environment = if name == "" then none else environment name

-- and else that of the prompt, if there is one
abbrev pub prompted : Bool → String → Option String → Result (Option String)
prompted false answer password = ok password
prompted true answer none = ok (some answer)
prompted true answer (some password) =
    err (usage_error "--password-prompt conflicts with --password/password environment")

abbrev pub is_secure : Dict Setting → Bool
is_secure args =
    any (λ key. given_at key args) ("secure" ∷ "ca_certs" ∷ "certfile" ∷ "keyfile" ∷ [])

unfoldable pub connection :
    Dict Setting → (String → Option String) → String → Result ConnectionConfig
connection args environment answer = do
  password ← prompted (given_at "password_prompt" args) answer (
      password_from (text_value_of (get "password" args)) (text_at "password_env" args) environment)
  ok (record {
    host = text_at "host" args;
    port = get "port" args;
    database = text_at "database" args;
    user = text_at "user" args;
    password = password;
    secure = is_secure args;
    verify = not (given_at "no_verify" args);
    ca_certs = text_value_of (get "ca_certs" args);
    certfile = text_value_of (get "certfile" args);
    keyfile = text_value_of (get "keyfile" args);
    server_hostname = text_value_of (get "server_hostname" args);
  })

-- `ConnectionConfig.tunneled`
unfoldable pub tunneled : ConnectionConfig → String → Option Setting → ConnectionConfig
tunneled c address number = record c {
  host = address;
  port = number;
  server_hostname =
      if c.secure && not (is_nonempty c.server_hostname) then some c.host else c.server_hostname;
}
