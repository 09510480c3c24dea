-- ===== src/Config/Exclusive/Defaults.antt =====
-- The defaults as a whole never select both a key and an agent.
use ch_diag.Artifact.{values}
use ch_diag.Collector.Lifecycle.{after}
use ch_diag.Config.{
  Python, Setting, Value, boolean, toml_bool, toml_float, toml_integer, toml_list, toml_text,
}
use ch_diag.Config.Checks.{check_defaults-IsChecked}
use ch_diag.Config.Exclusive.{
  IsExclusive, apply_environment-IsExclusive, coerce-agent, coerce-key, given,
}
use ch_diag.Config.Fields.{config_fields}
use ch_diag.Config.File.{Decides}
use ch_diag.Config.Resolve.{
  Document, Env, Section, apply_environment, check_ssh, config_defaults, has_unknown, or_false,
  read_sections, resolve_cli_defaults, section_table, section_value, section_values, truth,
  truth_at,
}
use ch_diag.Config.Sections.{read_sections-Decides}
use ch_diag.Prelude.{
  Bool, Option, [], ap, false, none, not, refl, some, subst, sym, true, ◌==◌, ◌∙◌, ◌≡◌,
}
use ch_diag.Prelude.Dict.{Dict, dict_keys, get}
use ch_diag.Prelude.Lists.{Uniq}
use ch_diag.Prelude.Results.{>>=-eq-ok, config_error, err, ok, raise_if, raise_if-eq-ok, ◌>>=◌}
use ch_diag.Prelude.Tests.{if◌then◌else◌}

-- the table `[ssh]` of a file: its keys differ, and the value of `key` is a text
abbrev pub IsText : Option Value → Type 0
IsText none = Unit
IsText (some (toml_text s)) = Unit
IsText (some (toml_bool b)) = ⊥
IsText (some (toml_integer n)) = ⊥
IsText (some (toml_float n)) = ⊥
IsText (some (toml_list items)) = ⊥

abbrev pub HasTextKey : Option Section → Type 0
HasTextKey none = Unit
HasTextKey (some (section_value v)) = Unit
HasTextKey (some (section_table values)) = Uniq (dict_keys values) × IsText (get "key" values)

abbrev pub DocumentHasTextKey : Option Document → Type 0
DocumentHasTextKey none = Unit
DocumentHasTextKey (some document) = HasTextKey (get "ssh" document)

module _ (python : Python) where
  -- what the two values of the table decide
  IsExclusive-of :
      (c : Dict Setting) (values : Dict Value)
      → Uniq (dict_keys values)
      → IsText (get "key" values)
      → check_ssh python (some (section_table values)) ≡ ok tt
      → Decides python [] c "ssh_key" (get "key" values)
      → Decides python [] c "ssh_agent" (get "agent" values)
      → IsExclusive c
  unfolding check_ssh
  IsExclusive-of c values u worded checked key agent given_key given_agent =
      by_key (get "key" values) (get "agent" values) worded checked key agent
    where
      off : (v : Option Setting) → v ≡ none → given v ≡ true → ⊥
      off v e h = let x : given none ≡ true = subst (λ o. given o ≡ true) e h in cc x

      agent_on :
          (a : Option Value)
          → (boolean python (or_false a) >>= (λ b.
              raise_if b (config_error "configuration [ssh] must select either key or agent")))
            ≡ ok tt
          → Decides python [] c "ssh_agent" a
          → ⊥
      agent_on none e d = off (get "ssh_agent" c) d given_agent
      agent_on (some v) e (s, coerced, found) =
          let (b, read, same) = coerce-agent python v s coerced in
          let (b', read', passes) = >>=-eq-ok (boolean python v) _ e in
          let on : b ≡ true = sym (ap given (found ∙ ap some same)) ∙ given_agent in
          let one : b ≡ b' = cc (read, read') in never b' (sym one ∙ on) passes
        where
          never :
              (x : Bool)
              → x ≡ true
              → raise_if x (config_error "configuration [ssh] must select either key or agent")
                ≡ ok tt
              → ⊥
          never true h k = cc k
          never false h k = cc h

      by_key :
          (k a : Option Value)
          → IsText k
          → (if truth_at k
              then boolean python (or_false a) >>= (λ b.
                raise_if b (config_error "configuration [ssh] must select either key or agent"))
              else ok tt)
            ≡ ok tt
          → Decides python [] c "ssh_key" k
          → Decides python [] c "ssh_agent" a
          → ⊥
      by_key none a h e d f = off (get "ssh_key" c) d given_key
      by_key (some (toml_text t)) a h e (s, coerced, found) f =
          let on : not (t == "") ≡ true =
            sym (ap given (found ∙ ap some (coerce-key python t s coerced))) ∙ given_key in
          agent_on a (rw on at e) f
      by_key (some (toml_bool b)) a h e d f = absurd h
      by_key (some (toml_integer n)) a h e d f = absurd h
      by_key (some (toml_float n)) a h e d f = absurd h
      by_key (some (toml_list items)) a h e d f = absurd h

  no_table : (c : Dict Setting) → Decides python [] c "ssh_key" none → IsExclusive c
  no_table c d given_key given_agent =
      let x : given none ≡ true = subst (λ o. given o ≡ true) d given_key in cc x

  read_sections-IsExclusive :
      (document : Document) (c : Dict Setting)
      → HasTextKey (get "ssh" document)
      → check_ssh python (get "ssh" document) ≡ ok tt
      → read_sections python document config_fields [] ≡ ok c
      → IsExclusive c
  read_sections-IsExclusive document c worded checked read =
      let (v, r, d) =
        read_sections-Decides python document "key" "ssh_key" refl refl refl refl refl c read in
      let (w, q, e) =
        read_sections-Decides python document "agent" "ssh_agent" refl refl refl refl refl c read in
      by_section (get "ssh" document) worded checked v w r q d e
    where
      by_section :
          (o : Option Section)
          → HasTextKey o
          → check_ssh python o ≡ ok tt
          → (v w : Dict Value) → section_values o ≡ ok v
          → section_values o ≡ ok w
          → (Uniq (dict_keys v) → Decides python [] c "ssh_key" (get "key" v))
          → (Uniq (dict_keys w) → Decides python [] c "ssh_agent" (get "agent" w))
          → IsExclusive c
      by_section none h k v w r q d e =
          let x : v ≡ [] = cc r in
          no_table c
            (subst (λ t. Uniq (dict_keys t) → Decides python [] c "ssh_key" (get "key" t)) x d tt)
      by_section (some (section_value z)) h k v w r q d e =
          let x : v ≡ [] = empty_of (truth z) r in
          no_table c
            (subst (λ t. Uniq (dict_keys t) → Decides python [] c "ssh_key" (get "key" t)) x d tt)
        where
          empty_of :
              (b : Bool)
              → (if b then err (config_error "configuration section must be a table") else ok [])
                ≡ ok v
              → v ≡ []
          empty_of true x = cc x
          empty_of false x = cc x
      by_section (some (section_table t)) (u, h) k v w r q d e =
          let x : v ≡ t = cc r in
          let y : w ≡ t = cc q in
          IsExclusive-of c t u h k
            (subst (λ z. Uniq (dict_keys z) → Decides python [] c "ssh_key" (get "key" z)) x d u)
            (subst (λ z. Uniq (dict_keys z) → Decides python [] c "ssh_agent" (get "agent" z)) y e
              u)

  config_defaults-IsExclusive :
      (document : Option Document) (c : Dict Setting)
      → DocumentHasTextKey document
      → config_defaults python document ≡ ok c
      → IsExclusive c
  unfolding config_defaults
  config_defaults-IsExclusive none c h e =
      let x : [] ≡ c = cc e in subst IsExclusive x (λ a b. cc a)
  config_defaults-IsExclusive (some document) c h e =
      let (known, e₁) =
        raise_if-eq-ok (has_unknown document config_fields)
          (config_error "unknown configuration section(s)") _ e in
      let (done, checked, e₂) = >>=-eq-ok (check_ssh python (get "ssh" document)) _ e₁ in
      read_sections-IsExclusive document c h checked e₂

  -- Where the value of `key` in the table `[ssh]` is a text, the defaults never select both a key and
  -- an agent, whatever else the file and the environment say.
  pub resolve_cli_defaults-IsExclusive :
      (document : Option Document) (env : Env) (after : Dict Setting)
      → DocumentHasTextKey document
      → resolve_cli_defaults python document env ≡ ok after
      → IsExclusive after
  unfolding resolve_cli_defaults
  resolve_cli_defaults-IsExclusive document env after h e =
      let (c, read, e₁) = >>=-eq-ok (config_defaults python document) _ e in
      let (d, applied, checked) = >>=-eq-ok (apply_environment python env c) _ e₁ in
      let same = (check_defaults-IsChecked d after checked).0 in
      subst IsExclusive same (
        apply_environment-IsExclusive python env c d applied
          (config_defaults-IsExclusive document c h read))
