-- ===== src/Config/Environment.antt =====
-- The environment takes precedence over the configuration file.
use ch_diag.Collector.Lifecycle.{after}
use ch_diag.Collector.Target.{start}
use ch_diag.Config.{Python, Setting, bool_value, coerce, no_value, toml_text}
use ch_diag.Config.Checks.{check_defaults-IsChecked}
use ch_diag.Config.Fields.{env_fields}
use ch_diag.Config.Resolve.{
  Document, Env, agent_name, apply_environment, apply_variables, config_defaults, env_boolean,
  is_nonempty, key_name, override_ssh, put_if, resolve_cli_defaults,
}
use ch_diag.Prelude.{
  Bool, List, Option, String, [], eq_iff, false, inl, inr, none, refl, some, subst, sym, true, ◌&&◌,
  ◌==◌, ◌||◌, ◌∙◌, ◌∷◌, ◌≡◌,
}
use ch_diag.Prelude.Dict.{Dict, get, get-put, get-put_other, has, put}
use ch_diag.Prelude.Lists.{Uniq, elem}
use ch_diag.Prelude.Names.{Uniq-distinct}
use ch_diag.Prelude.Results.{>>=-eq-ok, Result, config_error, ok, raise_if-eq-ok, ◌>>=◌}
use ch_diag.Prelude.Tests.{Bool-cases, if_cases, if◌then◌else◌}

-- the variable that sets a destination, if the environment has it
abbrev pub variable_of : Dict String → Env → String → Option String
variable_of [] env destination = none
variable_of ((name, d) ∷ rest) env destination =
    if d == destination then get name env else variable_of rest env destination

abbrev pub destinations : Dict String → List String
destinations [] = []
destinations ((name, d) ∷ rest) = d ∷ destinations rest

-- from the first defaults to the second: a variable decides, and without one nothing changes
abbrev pub Wins : Python → Dict Setting → Dict Setting → String → Option String → Type 0
Wins python before after destination none = get destination after ≡ get destination before
Wins python before after destination (some s) =
    (v : Setting) × (coerce python destination (toml_text s) ≡ ok v)
    × (get destination after ≡ some v)

variable_of-absent :
    (fields : Dict String) (env : Env) (destination : String)
    → elem destination (destinations fields) ≡ false
    → variable_of fields env destination ≡ none
variable_of-absent [] env destination h = refl
variable_of-absent ((name, d) ∷ rest) env destination h = elim (Bool-cases (d == destination)) [
  | inl e ↦ absurd (let x : ⊥ = cc (h, or_true d e) in x)
  | inr e ↦ rw e (variable_of-absent rest env destination (rw e at h))
]
  where
    or_true :
        (x : String)
        → (x == destination) ≡ true
        → ((x == destination) || elem destination (destinations rest)) ≡ true
    or_true x e = rw e refl

module _ (python : Python) (before after : Dict Setting) (destination : String) where
  Wins-of :
      (o p : Option String)
      → o ≡ p
      → Wins python before after destination p
      → Wins python before after destination o
  Wins-of o p e = subst (Wins python before after destination) (sym e)

Wins-before :
    (python : Python) (before middle after : Dict Setting) (destination : String)
    → get destination middle ≡ get destination before
    → (o : Option String) → Wins python middle after destination o
    → Wins python before after destination o
Wins-before python before middle after destination e none w = w ∙ e
Wins-before python before middle after destination e (some s) w = w

module _ (python : Python) (env : Env) where
  pub apply_variables-Wins :
      (fields : Dict String) (before after : Dict Setting) (destination : String)
      → Uniq (destinations fields)
      → apply_variables python env fields before ≡ ok after
      → Wins python before after destination (variable_of fields env destination)
  unfolding apply_variables
  apply_variables-Wins [] before after destination u h = cc h
  apply_variables-Wins ((name, d) ∷ rest) before after destination u h =
      by_variable (apply_variables-Wins rest) (get name env) refl h
    where
      IH : Type 0
      IH =
          (before after : Dict Setting) (destination : String)
          → Uniq (destinations rest)
          → apply_variables python env rest before ≡ ok after
          → Wins python before after destination (variable_of rest env destination)

      absent :
          IH
          → (start : Dict Setting) → apply_variables python env rest start ≡ ok after
          → (d == destination) ≡ true
          → get destination after ≡ get destination start
      absent ih start k t =
          subst (Wins python start after destination)
            (variable_of-absent rest env destination
              (subst (λ x. elem x (destinations rest) ≡ false) ((eq_iff d destination).0 t) u.0))
            (ih start after destination u.1 k)

      by_variable :
          IH
          → (o : Option String) → get name env ≡ o
          → (elim o as (λ _. Result (Dict Setting)) [
            | none ↦ apply_variables python env rest before
            | some s ↦
                coerce python d (toml_text s)
                >>= (λ v. apply_variables python env rest (put d v before))
          ])
            ≡ ok after
          → Wins python before after destination
              (if d == destination then get name env else variable_of rest env destination)
      by_variable ih none e k =
          if_cases (Wins python before after destination) (d == destination) _ _
            (λ t. Wins-of python before after destination _ none e (absent ih before k t))
            (λ f. ih before after destination u.1 k)
      by_variable ih (some s) e k =
          let (v, coerced, applied) = >>=-eq-ok (coerce python d (toml_text s)) _ k in
          if_cases (Wins python before after destination) (d == destination) _ _
            (λ t. Wins-of python before after destination _ (some s) e (
              v,
              subst (λ x. coerce python x (toml_text s) ≡ ok v) ((eq_iff d destination).0 t)
                  coerced,
              absent ih (put d v before) applied t
                  ∙ subst (λ x. get x (put d v before) ≡ some v) ((eq_iff d destination).0 t)
                      (get-put d v before),
            ))
            (λ f.
              Wins-before python before (put d v before) after destination
                (get-put_other destination d v before f) _
                (ih (put d v before) after destination u.1 applied))

  override_ssh-other :
      (agent_enabled : Bool) (d : Dict Setting) (destination : String)
      → ("ssh_key" == destination) ≡ false
      → ("ssh_agent" == destination) ≡ false
      → get destination (override_ssh env agent_enabled d) ≡ get destination d
  unfolding override_ssh
  override_ssh-other agent_enabled d destination h k =
      put_if-other agent_enabled "ssh_key" no_value _ h
      ∙ put_if-other (has key_name env) "ssh_agent" (bool_value false) d k
    where
      put_if-other :
          (b : Bool) (key : String) (v : Setting) (x : Dict Setting)
          → (key == destination) ≡ false
          → get destination (put_if b key v x) ≡ get destination x
      put_if-other true key v x f = get-put_other destination key v x f
      put_if-other false key v x f = refl

  apply_environment-Wins :
      (before after : Dict Setting) (destination : String)
      → ("ssh_key" == destination) ≡ false
      → ("ssh_agent" == destination) ≡ false
      → apply_environment python env before ≡ ok after
      → Wins python before after destination (variable_of env_fields env destination)
  unfolding apply_environment
  apply_environment-Wins before after destination h k e =
      let (agent, read, later) = >>=-eq-ok (env_boolean python (get agent_name env)) _ e in
      let (free, applied) =
        raise_if-eq-ok (is_nonempty (get key_name env) && agent)
          (config_error "environment must select either CH_DIAG_SSH_KEY or CH_DIAG_SSH_AGENT") _
          later in
      Wins-before python before (override_ssh env agent before) after destination
        (override_ssh-other agent before destination h k) _
        (apply_variables-Wins env_fields (override_ssh env agent before) after destination
          (Uniq-distinct (destinations env_fields) refl) applied)

  -- Where the defaults are resolved, of the destinations other than the two for the SSH
  -- authentication: one that a variable of the environment sets has the value of that variable, and
  -- another one has what the configuration file says.
  pub resolve_cli_defaults-Wins :
      (document : Option Document) (after : Dict Setting) (destination : String)
      → ("ssh_key" == destination) ≡ false
      → ("ssh_agent" == destination) ≡ false
      → resolve_cli_defaults python document env ≡ ok after
      → (configured : Dict Setting) × (config_defaults python document ≡ ok configured)
        × Wins python configured after destination (variable_of env_fields env destination)
  unfolding resolve_cli_defaults
  resolve_cli_defaults-Wins document after destination h k e =
      let (configured, read, later) = >>=-eq-ok (config_defaults python document) _ e in
      let (defaults, applied, checked) =
        >>=-eq-ok (apply_environment python env configured) _ later in
      (
        configured,
        read,
        subst (λ d. Wins python configured d destination (variable_of env_fields env destination))
            (check_defaults-IsChecked defaults after checked).0
            (apply_environment-Wins configured defaults destination h k applied),
      )
