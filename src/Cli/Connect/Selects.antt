-- ===== src/Cli/Connect/Selects.antt =====
-- Which connection the arguments select.
use ch_diag.Cli.Connect.{
  ConnectionConfig, SshConfig, bool_eq, given_at, has_ssh_endpoint, has_ssh_options, no_socket,
  or_empty_text, ssh_config, ssh_target, text_value_of, through_agent, tunneled,
}
use ch_diag.Cli.Options.{Given, parse_args}
use ch_diag.Cli.Options.Exclusive.{LeavesSsh, parse_args-IsExclusive}
use ch_diag.Config.{Setting}
use ch_diag.Config.Exclusive.{IsExclusive, given}
use ch_diag.Config.Resolve.{is_nonempty}
use ch_diag.Prelude.{
  Bool, List, Option, String, ap, false, inl, inr, none, not, refl, some, sym, true, ◌==◌, ◌||◌,
  ◌∙◌, ◌≡◌, ◌⊎◌,
}
use ch_diag.Prelude.Dict.{Dict, get}
use ch_diag.Prelude.Lists.{All}
use ch_diag.Prelude.Results.{Result, err, ok}
use ch_diag.Prelude.Tests.{if_cases, if◌then◌else◌}

-- the key, or the path of the agent, and not both
abbrev pub HasOne : SshConfig → Type 0
HasOne c = is_nonempty c.client_key ≡ not (is_nonempty c.agent_path)

-- where an end point and a way of authentication are given, there is a connection with one way of
-- authentication, or the agent has no socket
abbrev pub Selects : Dict Setting → Option String → Result (Option SshConfig) → Type 0
Selects args socket r =
    ((c : SshConfig) × (r ≡ ok (some c)) × HasOne c)
    ⊎ ((given_at "ssh_agent" args ≡ true) × (is_nonempty socket ≡ false) × (r ≡ err no_socket))

-- the value of the key is a text
abbrev pub IsTextKey : Option Setting → Type 0
IsTextKey o = is_nonempty (text_value_of o) ≡ given o

module _ (args : Dict Setting) (socket : Option String) (exclusive : IsExclusive args)
    (endpoint : has_ssh_endpoint args ≡ true) (worded : IsTextKey (get "ssh_key" args))
    (some_way : (given_at "ssh_key" args || given_at "ssh_agent" args) ≡ true) where
  through_agent-Selects :
      given_at "ssh_agent" args ≡ true → Selects args socket (through_agent args socket)
  through_agent-Selects agent =
      if_cases (Selects args socket) (is_nonempty socket) _ _
        (λ t. inl (ssh_target args socket, refl, one t)) (λ f. inr (agent, f, refl))
    where
      off : (b : Bool) → given_at "ssh_key" args ≡ b → given_at "ssh_key" args ≡ false
      off true e = absurd (exclusive e agent)
      off false e = e

      one :
          is_nonempty socket ≡ true
          → is_nonempty (text_value_of (get "ssh_key" args)) ≡ not (is_nonempty socket)
      one t = (worded ∙ off (given_at "ssh_key" args) refl) ∙ sym (ap not t)

  apart : bool_eq (given_at "ssh_key" args) (given_at "ssh_agent" args) ≡ false
  apart = by_bools (given_at "ssh_key" args) (given_at "ssh_agent" args) refl refl some_way
    where
      by_bools :
          (k a : Bool)
          → given_at "ssh_key" args ≡ k
          → given_at "ssh_agent" args ≡ a
          → (k || a) ≡ true
          → bool_eq k a ≡ false
      by_bools true true p q h = absurd (exclusive p q)
      by_bools true false p q h = refl
      by_bools false true p q h = refl
      by_bools false false p q h = cc h

  with_options : has_ssh_options args ≡ true
  with_options = by_host (given_at "ssh_host" args) refl
    where
      by_host : (b : Bool) → given_at "ssh_host" args ≡ b → has_ssh_options args ≡ true
      by_host true e = rw e refl
      by_host false e = let x : false ≡ true = rw e at endpoint in absurd (let y : ⊥ = cc x in y)

  -- Arguments that select no more than one way of authentication, with an end point for SSH and a
  -- way of authentication, give a connection with exactly one of the two, unless the way is the
  -- agent and it has no socket.
  ssh_config-Selects : Selects args socket (ssh_config args socket)
  unfolding ssh_config
  ssh_config-Selects =
      rw (with_options, endpoint, apart)
        (if_cases (Selects args socket) (given_at "ssh_agent" args) _ _
          (λ t. through_agent-Selects t) (λ f. inl (ssh_target args none, refl, by_key f)))
    where
      by_key :
          given_at "ssh_agent" args ≡ false
          → is_nonempty (text_value_of (get "ssh_key" args)) ≡ true
      by_key f = worded ∙ left (given_at "ssh_key" args) (given_at "ssh_agent" args) some_way f
        where
          left : (a b : Bool) → (a || b) ≡ true → b ≡ false → a ≡ true
          left true b h k = refl
          left false b h k = absurd (let x : ⊥ = cc (h, k) in x)

-- A collection command whose defaults select no more than one way of authentication, with an end
-- point for SSH and a way of authentication among its arguments: it connects with exactly one of the
-- key and the agent, whichever options were given, unless the way is the agent and it has no socket.
pub parse_args-Selects :
    (content : String) (defaults : Dict Setting) (options : List Given) (socket : Option String)
    → All LeavesSsh options
    → IsExclusive defaults
    → has_ssh_endpoint (parse_args content defaults options).values ≡ true
    → IsTextKey (get "ssh_key" (parse_args content defaults options).values)
    → (given_at "ssh_key" (parse_args content defaults options).values
        || given_at "ssh_agent" (parse_args content defaults options).values)
      ≡ true
    → Selects
        (parse_args content defaults options).values
        socket
        (ssh_config (parse_args content defaults options).values socket)
parse_args-Selects content defaults options socket leaves exclusive =
    ssh_config-Selects (parse_args content defaults options).values socket
      (parse_args-IsExclusive content defaults options leaves exclusive)

-- the name that the certificate of the server is checked against
abbrev pub certificate_name : ConnectionConfig → String
certificate_name c =
    if is_nonempty c.server_hostname then or_empty_text c.server_hostname else c.host

-- what does not change where a connection goes through a tunnel
abbrev pub IsSameServer : ConnectionConfig → ConnectionConfig → Type 0
IsSameServer c d =
    (d.secure ≡ c.secure)
    × (d.verify ≡ c.verify)
    × (d.user ≡ c.user)
    × (d.password ≡ c.password)
    × (c.secure ≡ true → certificate_name d ≡ certificate_name c)

-- A connection through a tunnel goes to the end of the tunnel, with the security, the user and the
-- password of the connection; where it is secure and its host has a name, the certificate is checked
-- against the name that it was checked against without the tunnel.
pub tunneled-IsSameServer :
    (c : ConnectionConfig) (address : String) (number : Option Setting)
    → (c.host == "") ≡ false
    → ((tunneled c address number).host ≡ address)
      × ((tunneled c address number).port ≡ number)
      × IsSameServer c (tunneled c address number)
unfolding tunneled
tunneled-IsSameServer c address number named = (refl, refl, (refl, refl, refl, refl, λ s. name s))
  where
    kept :
        (b : Bool)
        → is_nonempty c.server_hostname ≡ b
        → c.secure ≡ true
        → certificate_name (tunneled c address number) ≡ certificate_name c
    kept true e s = rw (s, e) (rw e refl)
    kept false e s = rw (s, e) (rw named refl)

    name : c.secure ≡ true → certificate_name (tunneled c address number) ≡ certificate_name c
    name = kept (is_nonempty c.server_hostname) refl
