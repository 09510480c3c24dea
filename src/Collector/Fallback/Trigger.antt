-- ===== src/Collector/Fallback/Trigger.antt =====
-- The reason that a fallback has is one that a diagnostic names.
use ch_diag.Artifact.{Diagnostic}
use ch_diag.Collector.Fallback.{allows, diagnostic_trigger}
use ch_diag.Prelude.{List, Option, String, [], arith, inl, inr, none, some, true, ◌∷◌, ◌≡◌, ◌⊎◌}
use ch_diag.Prelude.Lists.{Any, elem}
use ch_diag.Prelude.Tests.{Bool-cases}

-- a diagnostic names the failure
abbrev pub Names : String → Diagnostic → Type 0
Names t d = (d.failure_kind ≡ some t) ⊎ (d.code ≡ some t)

pub diagnostic_trigger-some :
    (allowed : List String) (ds : List Diagnostic) (t : String)
    → diagnostic_trigger allowed ds ≡ some t
    → (elem t allowed ≡ true) × Any (Names t) ds
unfolding diagnostic_trigger
diagnostic_trigger-some allowed [] t h = absurd (let x : ⊥ = cc h in x)
diagnostic_trigger-some allowed (d ∷ ds) t h = elim (Bool-cases (allows allowed d.failure_kind)) [
  | inl a ↦ (ground arith, inl (inl (ground arith)))
  | inr a ↦ elim (Bool-cases (allows allowed d.code)) [
    | inl b ↦ (ground arith, inl (inr (ground arith)))
    | inr b ↦ let (e, m) = diagnostic_trigger-some allowed ds t (ground arith) in (e, inr m)
  ]
]

pub diagnostic_trigger-found :
    (allowed : List String) (ds : List Diagnostic)
    → Any (λ d. (allows allowed d.failure_kind ≡ true) ⊎ (allows allowed d.code ≡ true)) ds
    → (t : String) × (diagnostic_trigger allowed ds ≡ some t)
unfolding diagnostic_trigger
diagnostic_trigger-found allowed [] h = absurd h
diagnostic_trigger-found allowed (d ∷ ds) h = elim (Bool-cases (allows allowed d.failure_kind)) [
  | inl a ↦ allows-some d.failure_kind a (ground arith)
  | inr a ↦ elim (Bool-cases (allows allowed d.code)) [
    | inl b ↦ allows-some d.code b (ground arith)
    | inr b ↦ elim h [
      | inl here ↦ absurd (let x : ⊥ = ground arith in x)
      | inr m ↦ let (t, e) = diagnostic_trigger-found allowed ds m in (t, ground arith)
    ]
  ]
]
  where
    allows-some :
        {r : Option String} (o : Option String)
        → allows allowed o ≡ true
        → r ≡ o
        → (t : String) × (r ≡ some t)
    allows-some none a e = absurd (let x : ⊥ = cc a in x)
    allows-some (some t) a e = (t, e)
