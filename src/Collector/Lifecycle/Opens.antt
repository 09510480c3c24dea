-- ===== src/Collector/Lifecycle/Opens.antt =====
-- What the steps that open a resource do to the variables `ssh` and `adapter`.
use ch_diag.Collector.Lifecycle.{
  Endpoint, Environment, Opened, Step, after, await, continue, open_adapter, open_ssh, pure, ◌>>=◌,
}
use ch_diag.Collector.Lifecycle.Tracked.{IsTracked, adapter_opened-IsTracked, ssh_opened-IsTracked}
use ch_diag.Collector.Services.{Call, raised, returned}
use ch_diag.Prelude.{false, inl, inr, refl, subst, ◌≡◌}
use ch_diag.Prelude.Tests.{Option-cases}

-- From a state with `P` the step leaves a state that the variables describe, and one with `Q` where
-- it returns.
pub record Moves {ℓ} (P : Opened → Type 0) {A : Type ℓ} (m : Step A) (Q : Opened → Type 0)
    : Type ℓ where
  pub moves : (s : Opened) → P s → IsTracked (m s).0 × ((a : A) → (m s).1 ≡ returned a → Q (m s).0)

-- nothing is open; no adapter is open; anything may be
abbrev pub Fresh : Opened → Type 0
Fresh s = IsTracked s × (s.ssh ≡ false) × (s.adapter ≡ false)

abbrev pub NoAdapter : Opened → Type 0
NoAdapter s = IsTracked s × (s.adapter ≡ false)

module _ {ℓ κ} {A : Type ℓ} {B : Type κ} (P Q R : Opened → Type 0) where
  pub Moves->>= :
      (m : Step A) (k : A → Step B)
      → Moves P m Q
      → ((a : A) → Moves Q (k a) R)
      → Moves P (m >>= k) R
  Moves->>= m k f g = record { moves = λ s h. by_call s h (m s) refl }
    where
      by_call :
          (s : Opened) (h : P s) (x : Opened × Call A)
          → m s ≡ x
          → IsTracked (continue x k).0
            × ((b : B) → (continue x k).1 ≡ returned b → R (continue x k).0)
      by_call s h (t, returned a) e = (g a).moves t (
          let moved : (m s).0 ≡ t = cc e in
          let done : (m s).1 ≡ returned a = cc e in subst Q moved ((f.moves s h).1 a done))
      by_call s h (t, raised x) e = (
        let moved : (m s).0 ≡ t = cc e in subst IsTracked moved (f.moves s h).0,
        λ b done. cc done,
      )

-- a step that changes no variable
module _ {ℓ} {A : Type ℓ} (P : Opened → Type 0) (h : (s : Opened) → P s → IsTracked s) where
  pub Moves-await : (c : Call A) → Moves P (await c) P
  Moves-await c = record { moves = λ s p. (h s p, λ a done. p) }

  pub Moves-pure : (a : A) → Moves P (pure a) P
  Moves-pure a = record { moves = λ s p. (h s p, λ _ done. p) }

-- the assignment of a resource that may raise
after-IsTracked :
    (Q : Opened → Type 0) (c : Call (Unit {0})) (done s : Opened)
    → IsTracked s
    → IsTracked done
    → Q done
    → IsTracked (after c done s).0
      × ((a : Unit {0}) → (after c done s).1 ≡ returned a → Q (after c done s).0)
after-IsTracked Q (returned a) done s t u q = (u, λ _ e. q)
after-IsTracked Q (raised x) done s t u q = (t, λ a e. absurd (let x : ⊥ = cc e in x))

pub Moves-open_ssh : (env : Environment) → Moves Fresh (open_ssh env) NoAdapter
unfolding open_ssh
Moves-open_ssh env = record {
  moves = λ s h.
      let opened = ssh_opened-IsTracked s h.0 h.1 in
      after-IsTracked NoAdapter env.connect _ s h.0 opened (opened, h.2);
}

pub Moves-open_adapter :
    (env : Environment) (e : Endpoint) → Moves NoAdapter (open_adapter env e) IsTracked
unfolding open_adapter
Moves-open_adapter env e = record {
  moves = λ s h. elim (Option-cases env.adapter_factory) [
    | inl n ↦ rw n (h.0, λ a done. absurd (let x : ⊥ = cc done in x))
    | inr (build, n) ↦
        let opened = adapter_opened-IsTracked s e h.0 h.1 in
        rw n (after-IsTracked IsTracked (build e) _ s h.0 opened opened)
  ];
}
