-- ===== src/Config/Fields.antt =====
-- `CONFIG_FIELDS` and `ENV_FIELDS` of ch_diag/config.py.
use ch_diag.Prelude.{String, [], ◌∷◌}
use ch_diag.Prelude.Dict.{Dict}

abbrev pub connection_fields : Dict String
connection_fields =
    ("host", "host")
    ∷ ("port", "port")
    ∷ ("database", "database")
    ∷ ("user", "user")
    ∷ ("password_env", "password_env")
    ∷ ("secure", "secure")
    ∷ ("no_verify", "no_verify")
    ∷ ("ca_certs", "ca_certs")
    ∷ ("certfile", "certfile")
    ∷ ("keyfile", "keyfile")
    ∷ ("server_hostname", "server_hostname")
    ∷ []

abbrev pub collection_fields : Dict String
collection_fields =
    ("content", "content")
    ∷ ("mode", "collection_mode")
    ∷ ("target_scope", "target_scope")
    ∷ ("cluster_name", "cluster_name")
    ∷ ("item_ids", "item_ids")
    ∷ ("tags", "tags")
    ∷ []

abbrev pub output_fields : Dict String
output_fields =
    ("directory", "out_dir")
    ∷ ("json", "json_out")
    ∷ ("html", "html_out")
    ∷ ("formats", "output_format")
    ∷ ("strip_meta", "strip_meta")
    ∷ ("log_file", "log_file")
    ∷ []

abbrev pub ssh_fields : Dict String
ssh_fields =
    ("host", "ssh_host")
    ∷ ("port", "ssh_port")
    ∷ ("user", "ssh_user")
    ∷ ("key", "ssh_key")
    ∷ ("agent", "ssh_agent")
    ∷ ("known_hosts", "ssh_known_hosts")
    ∷ []

abbrev pub snapshots_fields : Dict String
snapshots_fields = ("duration", "duration") ∷ ("interval", "interval") ∷ []

abbrev pub config_fields : Dict (Dict String)
config_fields =
    ("connection", connection_fields)
    ∷ ("collection", collection_fields)
    ∷ ("output", output_fields)
    ∷ ("ssh", ssh_fields)
    ∷ ("snapshots", snapshots_fields)
    ∷ []

abbrev pub env_fields : Dict String
env_fields =
    ("CH_DIAG_HOST", "host")
    ∷ ("CH_DIAG_PORT", "port")
    ∷ ("CH_DIAG_DATABASE", "database")
    ∷ ("CH_DIAG_USER", "user")
    ∷ ("CH_DIAG_PASSWORD_ENV", "password_env")
    ∷ ("CH_DIAG_SECURE", "secure")
    ∷ ("CH_DIAG_NO_VERIFY", "no_verify")
    ∷ ("CH_DIAG_CA_CERTS", "ca_certs")
    ∷ ("CH_DIAG_CERTFILE", "certfile")
    ∷ ("CH_DIAG_KEYFILE", "keyfile")
    ∷ ("CH_DIAG_SERVER_HOSTNAME", "server_hostname")
    ∷ ("CH_DIAG_CONTENT", "content")
    ∷ ("CH_DIAG_COLLECTION_MODE", "collection_mode")
    ∷ ("CH_DIAG_TARGET_SCOPE", "target_scope")
    ∷ ("CH_DIAG_CLUSTER_NAME", "cluster_name")
    ∷ ("CH_DIAG_ITEM_IDS", "item_ids")
    ∷ ("CH_DIAG_TAGS", "tags")
    ∷ ("CH_DIAG_OUT_DIR", "out_dir")
    ∷ ("CH_DIAG_JSON_OUT", "json_out")
    ∷ ("CH_DIAG_HTML_OUT", "html_out")
    ∷ ("CH_DIAG_OUTPUT_FORMAT", "output_format")
    ∷ ("CH_DIAG_STRIP_META", "strip_meta")
    ∷ ("CH_DIAG_LOG_FILE", "log_file")
    ∷ ("CH_DIAG_SSH_HOST", "ssh_host")
    ∷ ("CH_DIAG_SSH_PORT", "ssh_port")
    ∷ ("CH_DIAG_SSH_USER", "ssh_user")
    ∷ ("CH_DIAG_SSH_KEY", "ssh_key")
    ∷ ("CH_DIAG_SSH_AGENT", "ssh_agent")
    ∷ ("CH_DIAG_SSH_KNOWN_HOSTS", "ssh_known_hosts")
    ∷ ("CH_DIAG_DURATION", "duration")
    ∷ ("CH_DIAG_INTERVAL", "interval")
    ∷ []
