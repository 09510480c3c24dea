-- ===== src/Collector/Lifecycle/Release.antt =====
-- `_close_collection_resources`: what a collection opens it closes, whatever raises on the way.
use ch_diag.Artifact.{Artifact}
use ch_diag.Collector.Lifecycle.{Environment, Event, Opened, Options, adapter_closed, ssh_closed}
use ch_diag.Collector.Lifecycle.Run.{
  close_collection_resources, closing, collect, collect_body, collect_with, first_error, idle,
}
use ch_diag.Collector.Lifecycle.Moves.{Moves-collect_body}
use ch_diag.Collector.Lifecycle.Tracked.{
  IsTracked, IsTracked-idle, as_count, closes_adapter, closes_ssh, opens_adapter, opens_ssh,
}
use ch_diag.Collector.Services.{Call, Exception, raised, returned}
use ch_diag.Content.{Content}
use ch_diag.Planner.Requirements.{Requirements, RunMode, collection_requirements}
use ch_diag.Prelude.{Bool, List, Option, String, [], ap, false, refl, true, ◌++◌, ◌∷◌, ◌≡◌}
use ch_diag.Prelude.Lists.{count_if}
use ch_diag.Prelude.Results.{Result, err, ok}
use ch_diag.Prelude.Tests.{if◌then◌else◌}

-- What the end of a collection adds to the trace: the adapter is closed before the session.
abbrev pub closings : Bool → Bool → List Event
closings adapter ssh =
    (if adapter then adapter_closed ∷ [] else []) ++ (if ssh then ssh_closed ∷ [] else [])

-- Before the end nothing is closed; at the end what has been opened, which is at most one adapter
-- and one session, is closed once.
pub record IsReleased (trace : List Event) : Type 0 where
  pub before : List Event
  pub adapter : Bool
  pub ssh : Bool
  pub splits : trace ≡ before ++ closings adapter ssh
  pub opened_ssh : count_if opens_ssh before ≡ as_count ssh
  pub opened_adapter : count_if opens_adapter before ≡ as_count adapter
  pub closed_ssh : count_if closes_ssh before ≡ 0
  pub closed_adapter : count_if closes_adapter before ≡ 0

closing-event :
    (b : Bool) (e : Event) (c : Call (Unit {0})) → (closing b e c).0 ≡ (if b then e ∷ [] else [])
closing-event false e c = refl
closing-event true e (returned _) = refl
closing-event true e (raised x) = refl

close_collection_resources-IsReleased :
    (env : Environment) (x : Opened × Call (List Artifact))
    → IsTracked x.0
    → IsReleased (close_collection_resources env x).0
unfolding close_collection_resources
close_collection_resources-IsReleased env (s, c) t = record {
  before = s.trace;
  adapter = s.adapter;
  ssh = s.ssh;
  splits =
      rw
        (
          closing-event s.adapter adapter_closed env.close_adapter,
          closing-event s.ssh ssh_closed env.close_ssh,
        )
        refl;
  opened_ssh = t.opened_ssh;
  opened_adapter = t.opened_adapter;
  closed_ssh = t.closed_ssh;
  closed_adapter = t.closed_adapter;
}

collect_with-IsReleased :
    (env : Environment) (o : Options) (r : Result Requirements)
    → IsReleased (collect_with env o r).0
unfolding collect_with
collect_with-IsReleased env o (err e) = record {
  before = [];
  adapter = false;
  ssh = false;
  splits = refl;
  opened_ssh = refl;
  opened_adapter = refl;
  closed_ssh = refl;
  closed_adapter = refl;
}
collect_with-IsReleased env o (ok r) =
    close_collection_resources-IsReleased env (collect_body env o r idle)
      ((Moves-collect_body env o r).moves idle (IsTracked-idle, refl, refl)).0

-- Whatever the environment answers or raises, the trace of `_collect` ends with the closing of what
-- was opened: the adapter first and then the SSH session, each once and only if it was opened, and
-- each is opened at most once and not closed before that.
pub collect-IsReleased :
    (env : Environment) (o : Options) (content : Content) (mode : RunMode)
    (item_ids tags : Option (List String))
    → IsReleased (collect env o content mode item_ids tags).0
unfolding collect
collect-IsReleased env o content mode item_ids tags =
    collect_with-IsReleased env o
      (collection_requirements content mode o.collection_mode o.target_scope item_ids tags)

abbrev pub Closes : Bool → Call (Unit {0}) → Type 0
Closes b c = b ≡ true → c ≡ returned tt

closing-Closes : (b : Bool) (e : Event) (c : Call (Unit {0})) → (closing b e c).1 ≡ [] → Closes b c
closing-Closes false e c h b = absurd (let x : ⊥ = cc b in x)
closing-Closes true e (returned tt) h b = refl
closing-Closes true e (raised x) h b = absurd (let x : ⊥ = cc h in x)

first_error-returned {ℓ} :
    {A : Type ℓ} {b : A} (xs ys : List Exception) (a : A)
    → first_error (xs ++ ys) a ≡ returned b
    → (xs ≡ []) × (ys ≡ []) × (a ≡ b)
first_error-returned [] [] a h = (refl, refl, cc h)
first_error-returned [] (y ∷ ys) a h = absurd (let x : ⊥ = cc h in x)
first_error-returned (x ∷ xs) ys a h = absurd (let x : ⊥ = cc h in x)

-- `_close_collection_resources`: an exception of the body comes out whatever the two `close` calls
-- do, and artifacts come out only if the body returned them and every resource that is open was
-- closed without an exception.
pub close_collection_resources-reports :
    (env : Environment) (s : Opened) (c : Call (List Artifact))
    → ((x : Exception) → c ≡ raised x → (close_collection_resources env (s, c)).1 ≡ raised x)
      × ((xs : List Artifact)
          → (close_collection_resources env (s, c)).1 ≡ returned xs
          → (c ≡ returned xs) × Closes s.adapter env.close_adapter × Closes s.ssh env.close_ssh)
unfolding close_collection_resources
close_collection_resources-reports env s (raised x) =
    ((λ y e. e), λ xs e. absurd (let z : ⊥ = cc e in z))
close_collection_resources-reports env s (returned artifacts) = (
  (λ x e. absurd (let z : ⊥ = cc e in z)),
  λ xs e.
      let (a, b, same) =
        first_error-returned (closing s.adapter adapter_closed env.close_adapter).1
          (closing s.ssh ssh_closed env.close_ssh).1 artifacts e in
      (
        ap returned same,
        closing-Closes s.adapter adapter_closed env.close_adapter a,
        closing-Closes s.ssh ssh_closed env.close_ssh b,
      ),
)
