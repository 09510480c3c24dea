-- ===== src/Config/Exclusive.antt =====
-- A key and an agent for SSH are never both selected by the defaults.
pub mod Defaults
use ch_diag.Collector.Lifecycle.{after}
use ch_diag.Config.{
  Python, Setting, Value, bool_value, boolean, coerce, float_value, integer_value, list_value,
  no_value, str_of, text_value, toml_text,
}
use ch_diag.Config.Environment.{Wins, apply_variables-Wins, destinations}
use ch_diag.Config.Fields.{env_fields}
use ch_diag.Config.Resolve.{
  Env, agent_name, apply_environment, apply_variables, env_boolean, is_nonempty, key_name,
  override_ssh, put_if, truth_of_integer,
}
use ch_diag.Database.Reconnect.Rounds.{again}
use ch_diag.Prelude.{
  Bool, Option, String, [], ap, arith, false, inl, inr, none, not, refl, some, subst, sym, true,
  ◌&&◌, ◌==◌, ◌∙◌, ◌∷◌, ◌≡◌,
}
use ch_diag.Prelude.Dict.{Dict, get, get-put, has}
use ch_diag.Prelude.Names.{Uniq-distinct}
use ch_diag.Prelude.Results.{>>=-eq-ok, config_error, ok, raise_if-eq-ok}
use ch_diag.Prelude.Tests.{Bool-cases}

-- `bool(args.ssh_key)`, `bool(args.ssh_agent)`
abbrev pub given : Option Setting → Bool
given none = false
given (some no_value) = false
given (some (bool_value b)) = b
given (some (integer_value n)) = truth_of_integer n
given (some (float_value n)) = truth_of_integer n
given (some (list_value [])) = false
given (some (list_value (item ∷ items))) = true
given (some (text_value s)) = not (s == "")

abbrev pub IsExclusive : Dict Setting → Type 0
IsExclusive d = given (get "ssh_key" d) ≡ true → given (get "ssh_agent" d) ≡ true → ⊥

abbrev is_some : Option String → Bool
is_some none = false
is_some (some s) = true

module _ (python : Python) where
  pub coerce-agent :
      (v : Value) (s : Setting)
      → coerce python "ssh_agent" v ≡ ok s
      → (b : Bool) × (boolean python v ≡ ok b) × (s ≡ bool_value b)
  unfolding coerce
  coerce-agent v s e =
      let (b, read, done) = >>=-eq-ok (boolean python v) _ e in
      (b, read, (let x : s ≡ bool_value b = cc done in x))

  pub coerce-key :
      (t : String) (s : Setting) → coerce python "ssh_key" (toml_text t) ≡ ok s → s ≡ text_value t
  unfolding coerce str_of
  coerce-key t s e = let x : s ≡ text_value t = cc e in x

  has-get : (k : String) (d : Dict String) (o : Option String) → get k d ≡ o → has k d ≡ is_some o
  has-get k [] o h = ap is_some h
  has-get k ((j, s) ∷ rest) o h = elim (Bool-cases (j == k)) [
    | inl t ↦ let x : some s ≡ o = rw t at h in rw t (ap is_some x)
    | inr t ↦ rw t (has-get k rest o (rw t at h))
  ]

  -- of a key without an agent, the agent of the file is gone
  override_ssh-key :
      (env : Env) (before : Dict Setting)
      → has key_name env ≡ true
      → get "ssh_agent" (override_ssh env false before) ≡ some (bool_value false)
  unfolding override_ssh
  override_ssh-key env before h = rw h (get-put "ssh_agent" (bool_value false) before)

  -- of an agent, the key of the file is gone
  override_ssh-agent :
      (env : Env) (before : Dict Setting)
      → get "ssh_key" (override_ssh env true before) ≡ some no_value
  unfolding override_ssh
  override_ssh-agent env before =
      get-put "ssh_key" no_value (put_if (has key_name env) "ssh_agent" (bool_value false) before)

  override_ssh-none :
      (env : Env) (before : Dict Setting)
      → has key_name env ≡ false
      → override_ssh env false before ≡ before
  unfolding override_ssh
  override_ssh-none env before h = rw h refl

  -- the environment: of the two variables, the one that selects wins over the file
  module _ (env : Env) (before after : Dict Setting) (agent : Bool)
      (read : env_boolean python (get agent_name env) ≡ ok agent)
      (one : (is_nonempty (get key_name env) && agent) ≡ false)
      (applied : apply_variables python env env_fields (override_ssh env agent before)
        ≡ ok after) where
    key_after : Wins python (override_ssh env agent before) after "ssh_key" (get key_name env)
    key_after =
        apply_variables-Wins python env env_fields _ after "ssh_key"
          (Uniq-distinct (destinations env_fields) refl) applied

    agent_after : Wins python (override_ssh env agent before) after "ssh_agent" (get agent_name env)
    agent_after =
        apply_variables-Wins python env env_fields _ after "ssh_agent"
          (Uniq-distinct (destinations env_fields) refl) applied

    given-of : (o p : Option Setting) (b : Bool) → o ≡ p → given p ≡ b → given o ≡ b
    given-of o p b e h = ap given e ∙ h

    -- the variable for the agent decides
    agent_is :
        (t : String) → get agent_name env ≡ some t → get "ssh_agent" after ≡ some (bool_value agent)
    unfolding env_boolean
    agent_is t e =
        let (s, coerced, found) =
          subst (Wins python (override_ssh env agent before) after "ssh_agent") e agent_after in
        let (b, boolean_read, same) = coerce-agent (toml_text t) s coerced in
        let again : boolean python (toml_text t) ≡ ok agent =
          subst (λ o. env_boolean python o ≡ ok agent) e read in
        let both : b ≡ agent = cc (boolean_read, again) in
        found ∙ ap some (same ∙ ap bool_value both)

    -- without it there is no agent of the environment
    agent_off : get agent_name env ≡ none → agent ≡ false
    unfolding env_boolean
    agent_off e =
        let x : ok false ≡ ok agent = subst (λ o. env_boolean python o ≡ ok agent) e read in cc x

    -- a key of the environment excludes an agent
    with_key : (k : String) → get key_name env ≡ some k → IsExclusive after
    with_key k e given_key given_agent = elim (Bool-cases (k == "")) [
      | inl t ↦
          let (s, coerced, found) =
            subst (Wins python (override_ssh env agent before) after "ssh_key") e key_after in
          let off : given (get "ssh_key" after) ≡ false =
            given-of _ _ false (found ∙ ap some (coerce-key k s coerced)) (rw t refl) in
          cc (off, given_key)
      | inr t ↦
          let no_agent : agent ≡ false =
            off_by (subst (λ o. (is_nonempty o && agent) ≡ false) e one) t in
          let off : given (get "ssh_agent" after) ≡ false =
            by_agent (get agent_name env) refl no_agent in
          cc (off, given_agent)
    ]
      where
        off_by : (not (k == "") && agent) ≡ false → (k == "") ≡ false → agent ≡ false
        off_by h t = ground arith

        by_agent :
            (o : Option String)
            → get agent_name env ≡ o
            → agent ≡ false
            → given (get "ssh_agent" after) ≡ false
        by_agent (some t) h f = given-of _ _ false (agent_is t h) f
        by_agent none h f =
            let kept : get "ssh_agent" after ≡ get "ssh_agent" (override_ssh env agent before) =
              subst (Wins python (override_ssh env agent before) after "ssh_agent") h agent_after in
            let gone : get "ssh_agent" (override_ssh env agent before) ≡ some (bool_value false) =
              subst (λ b. get "ssh_agent" (override_ssh env b before) ≡ some (bool_value false))
                (sym f) (override_ssh-key env before (has-get key_name env (some k) e)) in
            given-of _ _ false (kept ∙ gone) refl

    -- without one, the agent of the environment excludes the key of the file
    without_key : get key_name env ≡ none → IsExclusive before → IsExclusive after
    without_key e exclusive = by_agent (get agent_name env) refl
      where
        kept : get "ssh_key" after ≡ get "ssh_key" (override_ssh env agent before)
        kept = subst (Wins python (override_ssh env agent before) after "ssh_key") e key_after

        by_agent : (o : Option String) → get agent_name env ≡ o → IsExclusive after
        by_agent (some t) h given_key given_agent =
            let on : agent ≡ true = sym (ap given (agent_is t h)) ∙ given_agent in
            let gone : get "ssh_key" (override_ssh env agent before) ≡ some no_value =
              subst (λ b. get "ssh_key" (override_ssh env b before) ≡ some no_value) (sym on)
                (override_ssh-agent env before) in
            let off : given (get "ssh_key" after) ≡ false = given-of _ _ false (kept ∙ gone) refl in
            cc (off, given_key)
        by_agent none h given_key given_agent =
            let same : override_ssh env agent before ≡ before =
              subst (λ b. override_ssh env b before ≡ before) (sym (agent_off h))
                (override_ssh-none env before (has-get key_name env none e)) in
            let agent_kept : get "ssh_agent" after
                ≡ get "ssh_agent" (override_ssh env agent before) =
              subst (Wins python (override_ssh env agent before) after "ssh_agent") h agent_after in
            exclusive (sym (ap given (kept ∙ ap (get "ssh_key") same)) ∙ given_key)
              (sym (ap given (agent_kept ∙ ap (get "ssh_agent") same)) ∙ given_agent)

    after-IsExclusive : IsExclusive before → IsExclusive after
    after-IsExclusive exclusive = by_key (get key_name env) refl
      where
        by_key : (o : Option String) → get key_name env ≡ o → IsExclusive after
        by_key none e = without_key e exclusive
        by_key (some k) e = with_key k e

  pub apply_environment-IsExclusive :
      (env : Env) (before after : Dict Setting)
      → apply_environment python env before ≡ ok after
      → IsExclusive before
      → IsExclusive after
  unfolding apply_environment
  apply_environment-IsExclusive env before after e =
      let (agent, read, later) = >>=-eq-ok (env_boolean python (get agent_name env)) _ e in
      let (one, applied) =
        raise_if-eq-ok (is_nonempty (get key_name env) && agent)
          (config_error "environment must select either CH_DIAG_SSH_KEY or CH_DIAG_SSH_AGENT") _
          later in
      after-IsExclusive env before after agent read one applied
