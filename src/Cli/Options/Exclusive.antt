-- ===== src/Cli/Options/Exclusive.antt =====
-- Options select a key or an agent for SSH, never both.
use ch_diag.Artifact.{values}
use ch_diag.Cli.Options.{
  Given, Namespace, act, act_all, append, collection_arguments, parse_args, select_agent,
  select_key, set_defaults, store,
}
use ch_diag.Cli.Options.Override.{get-set_defaults}
use ch_diag.Config.{Setting, bool_value, no_value, text_value}
use ch_diag.Config.Exclusive.{IsExclusive, given}
use ch_diag.Prelude.{
  List, Option, String, [], ap, false, none, refl, some, sym, true, ◌==◌, ◌∙◌, ◌∷◌, ◌≡◌,
}
use ch_diag.Prelude.Dict.{Dict, get, get-put, get-put_other, put}
use ch_diag.Prelude.Lists.{All}

-- an option of another destination, or one of the two that select
abbrev pub LeavesSsh : Given → Type 0
LeavesSsh (store d v) = ((d == "ssh_key") ≡ false) × ((d == "ssh_agent") ≡ false)
LeavesSsh (append d item) = ((d == "ssh_key") ≡ false) × ((d == "ssh_agent") ≡ false)
LeavesSsh (select_key path) = Unit
LeavesSsh select_agent = Unit

IsExclusive-put :
    (d : String) (v : Setting) (values : Dict Setting)
    → (d == "ssh_key") ≡ false
    → (d == "ssh_agent") ≡ false
    → IsExclusive values
    → IsExclusive (put d v values)
IsExclusive-put d v values h k e key agent =
    e (sym (ap given (get-put_other "ssh_key" d v values h)) ∙ key)
      (sym (ap given (get-put_other "ssh_agent" d v values k)) ∙ agent)

act-IsExclusive :
    (g : Given) (n : Namespace) → LeavesSsh g → IsExclusive n.values → IsExclusive (act g n).values
unfolding act
act-IsExclusive (store d v) n h e = IsExclusive-put d v n.values h.0 h.1 e
act-IsExclusive (append d item) n h e = IsExclusive-put d _ n.values h.0 h.1 e
act-IsExclusive (select_key path) n h e = λ key agent.
    let off : given (some (bool_value false)) ≡ true =
      sym (
        ap given
          (get-put "ssh_agent" (bool_value false) (put "ssh_key" (text_value path) n.values)))
      ∙ agent in
    cc off
act-IsExclusive select_agent n h e = λ key agent.
    let off : given (some no_value) ≡ true =
      sym (ap given (get-put "ssh_key" no_value (put "ssh_agent" (bool_value true) n.values)))
      ∙ key in
    cc off

act_all-IsExclusive :
    (gs : List Given) (n : Namespace)
    → All LeavesSsh gs
    → IsExclusive n.values
    → IsExclusive (act_all gs n).values
unfolding act_all
act_all-IsExclusive [] n h e = e
act_all-IsExclusive (g ∷ gs) n h e =
    act_all-IsExclusive gs (act g n) h.1 (act-IsExclusive g n h.0 e)

set_defaults-IsExclusive :
    (content : String) (defaults : Dict Setting)
    → IsExclusive defaults
    → IsExclusive (set_defaults (collection_arguments content) defaults)
set_defaults-IsExclusive content defaults e key agent =
    by_defaults (get "ssh_key" defaults) (get "ssh_agent" defaults) refl refl
      (sym (ap given (get-set_defaults "ssh_key" (collection_arguments content) defaults refl))
        ∙ key)
      (sym (ap given (get-set_defaults "ssh_agent" (collection_arguments content) defaults refl))
        ∙ agent)
  where
    by_defaults :
        (k a : Option Setting)
        → get "ssh_key" defaults ≡ k
        → get "ssh_agent" defaults ≡ a
        → given (elim k as (λ _. Option Setting) [
          | none ↦ get "ssh_key" (collection_arguments content)
          | some v ↦ some v
        ])
          ≡ true
        → given (elim a as (λ _. Option Setting) [
          | none ↦ get "ssh_agent" (collection_arguments content)
          | some v ↦ some v
        ])
          ≡ true
        → ⊥
    by_defaults none a p q x y = cc x
    by_defaults (some k) none p q x y = cc y
    by_defaults (some k) (some a) p q x y = e (ap given p ∙ x) (ap given q ∙ y)

-- Where the defaults do not select both a key and an agent, neither do the arguments of a collection
-- command, whichever options are given.
pub parse_args-IsExclusive :
    (content : String) (defaults : Dict Setting) (options : List Given)
    → All LeavesSsh options
    → IsExclusive defaults
    → IsExclusive (parse_args content defaults options).values
unfolding parse_args
parse_args-IsExclusive content defaults options h e =
    act_all-IsExclusive options _ h (set_defaults-IsExclusive content defaults e)
