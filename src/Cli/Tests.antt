-- ===== src/Cli/Tests.antt =====
-- The arguments of a collection, and the theorems at them.
use ch_diag.Artifact.Finish.{finalize_collection_summary}
use ch_diag.Artifact.Tests.{artifact}
use ch_diag.Cli.Connect.{ConnectionConfig, ssh_config, tunneled}
use ch_diag.Cli.Connect.Selects.{IsSameServer, Selects, parse_args-Selects, tunneled-IsSameServer}
use ch_diag.Cli.Exit.{collection_exit_status}
use ch_diag.Cli.Exit.Completed.{artifact_falls_short, collection_exit_status-completed}
use ch_diag.Cli.Formats.{add_formats, html_format, output_formats, read_formats, split_codes}
use ch_diag.Cli.Formats.Accepted.{AreFormats, output_formats-AreFormats}
use ch_diag.Cli.Options.{Given, act, act_all, append, parse_args, select_key, set_defaults, store}
use ch_diag.Cli.Options.Override.{IsAppended, parse_args-IsAppended}
use ch_diag.Config.{Setting, bool_value, integer_value, list_value, nonnegative, text_value}
use ch_diag.Prelude.{List, [], map, none, refl, some, true, ◌∷◌, ◌≡◌}
use ch_diag.Prelude.Dict.{Dict, get}
use ch_diag.Prelude.Lists.{any}
use ch_diag.Prelude.Results.{ok}
use ch_diag.Prelude.Tests.{if◌then◌else◌}

abbrev defaults : Dict Setting
defaults =
    ("tags", list_value ("memory" ∷ []))
    ∷ ("ssh_host", text_value "jump")
    ∷ ("ssh_user", text_value "diag")
    ∷ ("ssh_known_hosts", text_value "~/.ssh/known_hosts")
    ∷ ("ssh_agent", bool_value true)
    ∷ []

abbrev options : List Given
options =
    append "tags" "disk"
    ∷ select_key "~/.ssh/id"
    ∷ append "tags" "network"
    ∷ store "user" (text_value "reader")
    ∷ []

-- the tags of the defaults are replaced, and the key takes the place of the agent
arguments :
    get "tags" (parse_args "content" defaults options).values
    ≡ some (list_value ("disk" ∷ "network" ∷ []))
unfolding parse_args set_defaults act_all act
arguments = refl

parse_args-IsAppended_example :
    IsAppended
      (some (list_value ("memory" ∷ [])))
      []
      ("disk" ∷ "network" ∷ [])
      (get "tags" (parse_args "content" defaults options).values)
parse_args-IsAppended_example =
    parse_args-IsAppended "content" "tags" defaults options refl (tt, (refl, (tt, (refl, tt))))

parse_args-Selects_example :
    Selects
      (parse_args "content" defaults options).values
      none
      (ssh_config (parse_args "content" defaults options).values none)
unfolding parse_args set_defaults act_all act
parse_args-Selects_example =
    parse_args-Selects "content" defaults options none
      ((refl, refl), (tt, ((refl, refl), ((refl, refl), tt)))) (λ key agent. cc key) refl refl refl

abbrev direct : ConnectionConfig
direct = record {
  host = "db1";
  port = some (integer_value (nonnegative 9440));
  database = "default";
  user = "reader";
  password = none;
  secure = true;
  verify = true;
  ca_certs = none;
  certfile = none;
  keyfile = none;
  server_hostname = none;
}

tunneled-IsSameServer_example :
    ((tunneled direct "127.0.0.1" none).host ≡ "127.0.0.1")
    × ((tunneled direct "127.0.0.1" none).port ≡ none)
    × IsSameServer direct (tunneled direct "127.0.0.1" none)
tunneled-IsSameServer_example = tunneled-IsSameServer direct "127.0.0.1" none refl

html_only : output_formats (" HTML, html" ∷ []) ≡ ok (html_format ∷ [])
unfolding output_formats read_formats add_formats split_codes
html_only = refl

output_formats-AreFormats_example : AreFormats (output_formats (" HTML, html" ∷ []))
output_formats-AreFormats_example = output_formats-AreFormats (" HTML, html" ∷ [])

collection_exit_status-completed_example :
    collection_exit_status (map finalize_collection_summary (artifact ∷ []))
    ≡ (if any artifact_falls_short (artifact ∷ []) then 1 else 0)
collection_exit_status-completed_example = collection_exit_status-completed (artifact ∷ [])
