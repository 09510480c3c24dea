-- ===== src/Cli/Options/Override.antt =====
-- Options take precedence over the environment and the file, which take precedence over the values
-- of the program.
use ch_diag.Cli.Options.{
  Given, Namespace, act, act_all, append, as_list, collection_arguments, current_list, parse_args,
  select_agent, select_key, set_defaults, store,
}
use ch_diag.Collector.Lifecycle.{after}
use ch_diag.Config.{Setting, bool_value, list_value, no_value, text_value}
use ch_diag.Prelude.{
  Bool, List, Option, String, [], ap, append_assoc, ap₂, eq_iff, eq_refl, false, inl, inr, none,
  refl, some, subst, subst₂, sym, true, ◌++◌, ◌==◌, ◌||◌, ◌∙◌, ◌∷◌, ◌≡◌,
}
use ch_diag.Prelude.Dict.{Dict, get, get-put, get-put_other, has, put}
use ch_diag.Prelude.Lists.{All, any, elem}
use ch_diag.Prelude.Tests.{Bool-cases, if_both, if_cases, if◌then◌else◌}

abbrev pub touches : String → Given → Bool
touches destination (store d v) = d == destination
touches destination (append d item) = d == destination
touches destination (select_key path) = ("ssh_key" == destination) || ("ssh_agent" == destination)
touches destination select_agent = ("ssh_key" == destination) || ("ssh_agent" == destination)

or_false_left : (a b : Bool) → (a || b) ≡ false → a ≡ false
or_false_left true b h = h
or_false_left false b h = refl

or_false_right : (a b : Bool) → (a || b) ≡ false → b ≡ false
or_false_right true b h = absurd (let x : ⊥ = cc h in x)
or_false_right false b h = h

act-untouched :
    (destination : String) (g : Given) (n : Namespace)
    → touches destination g ≡ false
    → get destination (act g n).values ≡ get destination n.values
unfolding act
act-untouched destination (store d v) n h = get-put_other destination d v n.values h
act-untouched destination (append d item) n h = get-put_other destination d _ n.values h
act-untouched destination (select_key path) n h =
    let not_key = or_false_left ("ssh_key" == destination) _ h in
    let not_agent = or_false_right ("ssh_key" == destination) ("ssh_agent" == destination) h in
    get-put_other destination "ssh_agent" (bool_value false)
      (put "ssh_key" (text_value path) n.values) not_agent
    ∙ get-put_other destination "ssh_key" (text_value path) n.values not_key
act-untouched destination select_agent n h =
    let not_key = or_false_left ("ssh_key" == destination) _ h in
    let not_agent = or_false_right ("ssh_key" == destination) ("ssh_agent" == destination) h in
    get-put_other destination "ssh_key" no_value (put "ssh_agent" (bool_value true) n.values)
      not_key
    ∙ get-put_other destination "ssh_agent" (bool_value true) n.values not_agent

act_all-untouched :
    (destination : String) (gs : List Given) (n : Namespace)
    → any (touches destination) gs ≡ false
    → get destination (act_all gs n).values ≡ get destination n.values
unfolding act_all
act_all-untouched destination [] n h = refl
act_all-untouched destination (g ∷ gs) n h =
    act_all-untouched destination gs (act g n)
      (or_false_right (touches destination g) (any (touches destination) gs) h)
    ∙ act-untouched destination g n (or_false_left (touches destination g) _ h)

-- what the defaults leave: their own value where the program has the destination
pub get-set_defaults :
    (key : String) (supported defaults : Dict Setting)
    → has key supported ≡ true
    → get key (set_defaults supported defaults)
      ≡ elim (get key defaults) [ none ↦ get key supported | some v ↦ some v ]
unfolding set_defaults
get-set_defaults key supported [] h = refl
get-set_defaults key supported ((j, v) ∷ rest) h = elim (Bool-cases (j == key)) [
  | inl t ↦
      let same : j ≡ key = (eq_iff j key).0 t in
      let known : has j supported ≡ true = subst (λ x. has x supported ≡ true) (sym same) h in
      let here : get key (put j v (set_defaults supported rest)) ≡ some v =
        subst (λ x. get x (put j v (set_defaults supported rest)) ≡ some v) same
          (get-put j v (set_defaults supported rest)) in
      rw (t, known) here
  | inr t ↦
      let ih = get-set_defaults key supported rest h in
      rw t (
        if_both
          (λ d. get key d ≡ elim (get key rest) [ none ↦ get key supported | some v ↦ some v ])
          (has j supported) _ _ (get-put_other key j v (set_defaults supported rest) t ∙ ih) ih)
]

-- the items that the options append to a destination
abbrev pub appended : String → List Given → List String
appended destination [] = []
appended destination (append d item ∷ gs) =
    let rest = appended destination gs in if d == destination then item ∷ rest else rest
appended destination (store d v ∷ gs) = appended destination gs
appended destination (select_key path ∷ gs) = appended destination gs
appended destination (select_agent ∷ gs) = appended destination gs

-- only the appending action is used for the destination
abbrev pub OnlyAppends : String → Given → Type 0
OnlyAppends destination (store d v) = (d == destination) ≡ false
OnlyAppends destination (append d item) = Unit
OnlyAppends destination (select_key path) = touches destination (select_key path) ≡ false
OnlyAppends destination select_agent = touches destination select_agent ≡ false

-- what becomes of a destination that had a list and gets these items
abbrev pub IsAppended : Option Setting → List String → List String → Option Setting → Type 0
IsAppended before list [] after = after ≡ before
IsAppended before list (item ∷ items) after = after ≡ some (list_value (list ++ (item ∷ items)))

current_list-same :
    (n m : Namespace) (destination : String)
    → elem destination n.seen ≡ elem destination m.seen
    → get destination n.values ≡ get destination m.values
    → current_list n destination ≡ current_list m destination
current_list-same n m destination h k = ap₂ (λ b o. if b then as_list o else []) h k

-- an action that does not touch the destination keeps its list
act-kept :
    (destination : String) (g : Given) (n : Namespace)
    → touches destination g ≡ false
    → elem destination (act g n).seen ≡ elem destination n.seen
unfolding act
act-kept destination (store d v) n h = refl
act-kept destination (append d item) n h = rw h refl
act-kept destination (select_key path) n h = refl
act-kept destination select_agent n h = refl

IsAppended-skip :
    (destination : String) (g : Given) (n : Namespace) (items : List String)
    (after : Option Setting)
    → touches destination g ≡ false
    → IsAppended (get destination (act g n).values) (current_list (act g n) destination) items after
    → IsAppended (get destination n.values) (current_list n destination) items after
IsAppended-skip destination g n items after h =
    let same = act-untouched destination g n h in
    subst₂ (λ o l. IsAppended o l items after) same
      (current_list-same (act g n) n destination (act-kept destination g n h) same)

-- one more item
IsAppended-cons :
    (before middle after : Option Setting) (list items : List String) (item : String)
    → middle ≡ some (list_value (list ++ (item ∷ [])))
    → IsAppended middle (list ++ (item ∷ [])) items after
    → IsAppended before list (item ∷ items) after
IsAppended-cons before middle after list [] item e h = h ∙ e
IsAppended-cons before middle after list (i ∷ items) item e h =
    h ∙ ap (λ l. some (list_value l)) (append_assoc list (item ∷ []) (i ∷ items))

IsAppended-here :
    (destination item : String) (n : Namespace) (items : List String) (after : Option Setting)
    → IsAppended
        (get destination (act (append destination item) n).values)
        (current_list (act (append destination item) n) destination)
        items
        after
    → IsAppended (get destination n.values) (current_list n destination) (item ∷ items) after
unfolding act
IsAppended-here destination item n items after h =
    IsAppended-cons (get destination n.values) _ after list items item put_here (
      subst (λ l. IsAppended (get destination (put destination new n.values)) l items after)
        (rw (eq_refl destination) (ap as_list put_here)) h)
  where
    list : List String
    list = current_list n destination

    new : Setting
    new = list_value (list ++ (item ∷ []))

    put_here : get destination (put destination new n.values) ≡ some new
    put_here = get-put destination new n.values

act_all-IsAppended :
    (destination : String) (gs : List Given) (n : Namespace)
    → All (OnlyAppends destination) gs
    → IsAppended
        (get destination n.values)
        (current_list n destination)
        (appended destination gs)
        (get destination (act_all gs n).values)
unfolding act_all
act_all-IsAppended destination [] n h = refl
act_all-IsAppended destination (store d v ∷ gs) n h =
    IsAppended-skip destination (store d v) n (appended destination gs) _ h.0
      (act_all-IsAppended destination gs (act (store d v) n) h.1)
act_all-IsAppended destination (select_key path ∷ gs) n h =
    IsAppended-skip destination (select_key path) n (appended destination gs) _ h.0
      (act_all-IsAppended destination gs (act (select_key path) n) h.1)
act_all-IsAppended destination (select_agent ∷ gs) n h =
    IsAppended-skip destination select_agent n (appended destination gs) _ h.0
      (act_all-IsAppended destination gs (act select_agent n) h.1)
act_all-IsAppended destination (append d item ∷ gs) n h =
    let ih = act_all-IsAppended destination gs (act (append d item) n) h.1 in
    if_cases P (d == destination) _ _
      (λ t. IsAppended-here destination item n (appended destination gs) _ (
        subst
          (λ x.
            IsAppended (get destination (act (append x item) n).values)
              (current_list (act (append x item) n) destination) (appended destination gs)
              (get destination (act_all gs (act (append d item) n)).values))
          ((eq_iff d destination).0 t) ih))
      (λ f. IsAppended-skip destination (append d item) n (appended destination gs) _ f ih)
  where
    P : List String → Type 0
    P items =
        IsAppended (get destination n.values) (current_list n destination) items
          (get destination (act_all gs (act (append d item) n)).values)

-- The value of a destination of a collection command for which only appending options are used: if
-- there is none, what the environment and the file decided, or else the value of the program; and
-- if there are some, their items in order and nothing of the defaults.
pub parse_args-IsAppended :
    (content destination : String) (defaults : Dict Setting) (options : List Given)
    → has destination (collection_arguments content) ≡ true
    → All (OnlyAppends destination) options
    → IsAppended
        (elim (get destination defaults) as (λ _. Option Setting) [
          | none ↦ get destination (collection_arguments content)
          | some v ↦ some v
        ])
        []
        (appended destination options)
        (get destination (parse_args content defaults options).values)
unfolding parse_args
parse_args-IsAppended content destination defaults options known h =
    subst
      (λ o.
        IsAppended o [] (appended destination options)
          (get destination (parse_args content defaults options).values))
      (get-set_defaults destination (collection_arguments content) defaults known)
      (act_all-IsAppended destination options
        (record { values = set_defaults (collection_arguments content) defaults; seen = [] }) h)
