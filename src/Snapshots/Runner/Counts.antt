-- ===== src/Snapshots/Runner/Counts.antt =====
-- The deadlines of a schedule, and the diagnostics that a run leaves.
use ch_diag.Artifact.{Diagnostic}
use ch_diag.Collector.Services.{Exception}
use ch_diag.Prelude.{List, Option, [], false, map, none, some, ℕ, ◌++◌, ◌∷◌, ◌≡◌}
use ch_diag.Snapshots.Runner.{Active, Attempt, Launch, RunnerState, Tick}

-- two lists merged into one, each in its order
pub data Merged {A : Type 0} : List A → List A → List A → Type 0 where
  both_empty : Merged [] [] []
  from_first : {x : A} {xs ys zs : List A} → Merged xs ys zs → Merged (x ∷ xs) ys (x ∷ zs)
  from_second : {y : A} {xs ys zs : List A} → Merged xs ys zs → Merged xs (y ∷ ys) (y ∷ zs)

-- the diagnostic of a sample that is skipped
abbrev pub skip_notice : Diagnostic
skip_notice = record {
  level = "warning";
  code = some "sample_skipped_source_busy";
  failure_kind = none;
  coverage_incomplete = false;
  message = "the previous sample was still running";
}

-- the diagnostic of a collection that raised
abbrev pub error_notices : Option Exception → List Diagnostic
error_notices none = []
error_notices (some e) =
    record {
      level = "error";
      code = some e.kind;
      failure_kind = none;
      coverage_incomplete = false;
      message = e.message;
    }
    ∷ []

-- the diagnostics of the collections at these deadlines
abbrev pub failures : (ℕ → ℕ → Attempt) → List Tick → List Diagnostic
failures collect [] = []
failures collect (t ∷ ts) = error_notices (collect t.index t.offset).error ++ failures collect ts

-- Each deadline is one of those whose sample was launched or one of those whose sample was skipped;
-- the diagnostics are one for each skipped sample and one for each launched collection that raised.
pub record IsAccounted (collect : ℕ → ℕ → Attempt) (ts : List Tick) (s : RunnerState) : Type 0 where
  pub skipped : List Tick
  pub deadlines : Merged (map (λ (l : Launch). l.tick) s.launches) skipped ts
  pub told :
      Merged
        (map (λ (t : Tick). skip_notice) skipped)
        (failures collect (map (λ (l : Launch). l.tick) s.launches))
        s.errors

-- the exception that the active task will record
abbrev pending : Option Active → List Diagnostic
pending none = []
pending (some a) = error_notices a.error

-- the deadlines `ts` have been processed, and the diagnostic of the active task is to come
record Accounts (collect : ℕ → ℕ → Attempt) (ts : List Tick) (s : RunnerState) (o : Option Active)
    : Type 0 where
  skipped : List Tick
  recorded : List Diagnostic
  deadlines : Merged (map (λ (l : Launch). l.tick) s.launches) skipped ts
  told : Merged (map (λ (t : Tick). skip_notice) skipped) recorded s.errors
  due : failures collect (map (λ (l : Launch). l.tick) s.launches) ≡ recorded ++ pending o
