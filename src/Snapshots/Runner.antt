-- ===== src/Snapshots/Runner.antt =====
-- `_run_scheduled_source` of ch_diag/snapshots.py: one source is sampled at the deadlines of a
-- schedule and never overlaps itself. Arguments are how late the loop wakes for a deadline, when its
-- task starts, how long a collection takes and whether it raises; times are ticks of the monotonic
-- clock from the start of the window. A message is shortened, and the cancellation of the whole run
-- is left out.
pub mod Counts
pub mod Apart
pub mod Timely
use ch_diag.Artifact.{Diagnostic}
use ch_diag.Collector.Services.{Exception}
use ch_diag.Prelude.{
  Bool, max, ◌&&◌, ◌||◌, List, Option, String, [], false, none, some, suc, ℕ, ◌++◌, ◌+◌, ◌==◌, ◌∷◌,
}
use ch_diag.Prelude.Tests.{if◌then◌else◌, leb, ltb}

-- `(sample_index, offset)` of the schedule
pub record Tick : Type 0 where
  pub index : ℕ
  pub offset : ℕ

-- what `collect_once` does
pub record Attempt : Type 0 where
  pub duration : ℕ
  pub error : Option Exception

-- What the event loop does for a sample: how late it wakes after `_sleep_until`, how much later the
-- task of the collection starts, and whether a task that ends at the moment when the loop looks at it
-- is done.
pub record Clock : Type 0 where
  pub late : ℕ → ℕ
  pub delay : ℕ → ℕ
  pub is_first : ℕ → Bool

-- the task `active`: when it is done, and with which exception
pub record Active : Type 0 where
  pub finish_at : ℕ
  pub error : Option Exception

pub record Launch : Type 0 where
  pub tick : Tick
  pub started : ℕ
  pub finished : ℕ

pub record RunnerState : Type 0 where
  pub now : ℕ
  pub active : Option Active
  pub launches : List Launch
  pub errors : List Diagnostic

-- `_record_source_error`
unfoldable pub source_error : String → String → String → Diagnostic
source_error level code message = record {
  level = level;
  code = some code;
  failure_kind = none;
  coverage_incomplete = false;
  message = message;
}

-- the `except Exception` of `guarded_collect`
unfoldable pub attempt_errors : Option Exception → List Diagnostic
unfolding source_error
attempt_errors none = []
attempt_errors (some e) = source_error "error" e.kind e.message ∷ []

-- `asyncio.create_task(guarded_collect(sample_index, offset))`
unfoldable pub launch : Clock → (ℕ → ℕ → Attempt) → Tick → RunnerState → RunnerState
launch clock collect t s =
    let a = collect t.index t.offset in
    let started = s.now + clock.delay t.index in
    record s {
      active = some (record { finish_at = started + a.duration; error = a.error });
      launches =
          s.launches
          ++ (record { tick = t; started = started; finished = started + a.duration } ∷ []);
    }

-- the active task has ended
unfoldable pub finish : Active → RunnerState → RunnerState
unfolding attempt_errors
finish a s = record s { active = none; errors = s.errors ++ attempt_errors a.error }

unfoldable pub skip : Tick → RunnerState → RunnerState
unfolding source_error
skip t s = record s {
  errors =
      s.errors
      ++ (source_error "warning" "sample_skipped_source_busy"
            "the previous sample was still running"
          ∷ []);
}

-- `active.done()`
abbrev pub is_done : Clock → Tick → ℕ → Active → Bool
is_done clock t now a = ltb a.finish_at now || (leb a.finish_at now && clock.is_first t.index)

unfoldable pub launch_after :
    Clock → (ℕ → ℕ → Attempt) → Tick → Option Active → RunnerState → RunnerState
unfolding launch finish skip
launch_after clock collect t none s = launch clock collect t s
launch_after clock collect t (some a) s =
    if is_done clock t s.now a then launch clock collect t (finish a s) else skip t s

-- `await _sleep_until(started_monotonic + offset)`
unfoldable pub wake : Clock → Tick → RunnerState → RunnerState
wake clock t s = record s { now = max s.now t.offset + clock.late t.index }

-- the body of the loop
unfoldable pub run_tick : Clock → (ℕ → ℕ → Attempt) → Tick → RunnerState → RunnerState
unfolding launch_after wake
run_tick clock collect t s = launch_after clock collect t s.active (wake clock t s)

-- the loop over the schedule
unfoldable pub run_ticks : Clock → (ℕ → ℕ → Attempt) → List Tick → RunnerState → RunnerState
unfolding run_tick
run_ticks clock collect [] s = s
run_ticks clock collect (t ∷ ts) s = run_ticks clock collect ts (run_tick clock collect t s)

-- `if active is not None: await active`
unfoldable pub await_active : Option Active → RunnerState → RunnerState
unfolding finish
await_active none s = s
await_active (some a) s = finish a s

abbrev pub idle_runner : RunnerState
idle_runner = record { now = 0; active = none; launches = []; errors = [] }

unfoldable pub run_scheduled_source : Clock → (ℕ → ℕ → Attempt) → List Tick → RunnerState
unfolding run_ticks await_active
run_scheduled_source clock collect ts =
    let s = run_ticks clock collect ts idle_runner in await_active s.active s

-- `list(enumerate(offsets))`
abbrev pub enumerate_from : ℕ → List ℕ → List Tick
enumerate_from n [] = []
enumerate_from n (o ∷ os) = record { index = n; offset = o } ∷ enumerate_from (suc n) os

abbrev pub last_tick : Tick → List Tick → Tick
last_tick t [] = t
last_tick t (u ∷ us) = last_tick u us

-- the schedule of an SQL source, by its `collection_scope`; the schedule is not empty
unfoldable pub source_schedule : String → List Tick → List Tick
source_schedule scope [] = []
source_schedule scope (t ∷ ts) =
    if scope == "window_end"
    then last_tick t ts ∷ []
    else if scope == "once"
    then t ∷ []
    else t ∷ ts
