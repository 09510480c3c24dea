-- ===== src/Snapshots/Tests.antt =====
-- The theorems of ch_diag/snapshots.py, for a window of eleven seconds.
use ch_diag.Artifact.{Diagnostic}
use ch_diag.Prelude.{
  List, [], arith, false, map, none, refl, some, true, ℕ, ◌*◌, ◌++◌, ◌+◌, ◌/◌, ◌<◌, ◌∷◌, ◌↔◌, ◌≡◌,
}
use ch_diag.Prelude.Results.{above_snapshot_limit, err, interval_below_minimum, ok}
use ch_diag.Prelude.Tests.{if◌then◌else◌, leb, ltb, nat_eq}
use ch_diag.Snapshots.Items.{Gathered, metric_status}
use ch_diag.Snapshots.Runner.{
  Attempt, Clock, Launch, Tick, enumerate_from, run_scheduled_source, source_schedule,
}
use ch_diag.Snapshots.Runner.Apart.{Apart, run_scheduled_source-Apart}
use ch_diag.Snapshots.Runner.Timely.{run_scheduled_source-timely, ticks_of}
use ch_diag.Snapshots.Schedule.{
  Floats, checked_offsets, iostat_sampling_parameters, schedule_offsets,
}
use ch_diag.Snapshots.Schedule.Offsets.{Crosses, schedule_offsets-IsSchedule, sums}

-- numbers without rounding, for the operations of floats
abbrev exact : Floats ℕ
exact = record { nought = 0; add = λ x y. x + y; lt = ltb; le = leb }

-- numbers that are rounded down to a multiple of three in each sum
abbrev rounded : Floats ℕ
rounded = record { nought = 0; add = λ x y. 3 * ((x + y) / 3); lt = ltb; le = leb }

abbrev offsets : List ℕ
offsets = 0 ∷ 5000 ∷ 10000 ∷ 11000 ∷ []

is_scheduled : checked_offsets exact 9 200 360 11000 5000 ≡ ok (some offsets)
unfolding checked_offsets
is_scheduled = refl

test_rounded : schedule_offsets rounded 9 12 4 ≡ ok (some (0 ∷ 4 ∷ 6 ∷ 9 ∷ 12 ∷ []))
unfolding schedule_offsets
test_rounded = refl

-- a sum that does not grow: the loop does not end
test_endless : schedule_offsets rounded 99 12 2 ≡ ok none
unfolding schedule_offsets
test_endless = refl

test_interval : checked_offsets exact 9 200 360 11000 100 ≡ err interval_below_minimum
unfolding checked_offsets
test_interval = refl

test_limit : checked_offsets exact 9 200 3 11000 5000 ≡ err above_snapshot_limit
unfolding checked_offsets
test_limit = refl

test_rounding : iostat_sampling_parameters 11000 2500 ≡ (2, 5)
unfolding iostat_sampling_parameters
test_rounding = refl

-- the second collection is slow, and the third raises
abbrev slow : ℕ → ℕ → Attempt
slow i o = record {
  duration = if nat_eq i 1 then 5500 else 700;
  error =
      if nat_eq i 3 then some (record { kind = "TimeoutError"; message = "timed out" }) else none;
}

-- a loop that wakes ten late, and sees a task as done when it ends
abbrev steady : Clock
steady = record { late = λ i. 10; delay = λ i. 1; is_first = λ i. true }

abbrev ticks : List Tick
ticks = enumerate_from 0 offsets

test_launches :
    map (λ (l : Launch). l.tick.index) (run_scheduled_source steady slow ticks).launches
    ≡ 0 ∷ 1 ∷ 3 ∷ []
unfolding run_scheduled_source
test_launches = refl

test_errors :
    map (λ (d : Diagnostic). d.code) (run_scheduled_source steady slow ticks).errors
    ≡ some "sample_skipped_source_busy" ∷ some "TimeoutError" ∷ []
unfolding run_scheduled_source
test_errors = refl

test_window_end : source_schedule "window_end" ticks ≡ record { index = 3; offset = 11000 } ∷ []
unfolding source_schedule
test_window_end = refl

test_once : source_schedule "once" ticks ≡ record { index = 0; offset = 0 } ∷ []
unfolding source_schedule
test_once = refl

schedule_offsets-IsSchedule_example :
    (schedule_offsets rounded 9 12 4 ≡ ok (some (0 ∷ 4 ∷ 6 ∷ 9 ∷ 12 ∷ []))) ↔ (
      (n : ℕ) × (n < 9)
      × Crosses rounded n 4 4 12
      × (0 ∷ 4 ∷ 6 ∷ 9 ∷ 12 ∷ [] ≡ 0 ∷ (sums rounded n 4 4 ++ (12 ∷ []))))
schedule_offsets-IsSchedule_example =
    schedule_offsets-IsSchedule rounded 9 12 4 (0 ∷ 4 ∷ 6 ∷ 9 ∷ 12 ∷ []) refl refl

run_scheduled_source-Apart_example : Apart (run_scheduled_source steady slow ticks).launches
run_scheduled_source-Apart_example = run_scheduled_source-Apart steady slow ticks

-- a chart without series, of a source that timed out

abbrev gathered : Gathered
gathered = record {
  result = record {
    kind = "chart";
    columns = [];
    rows = [];
    row_count = none;
    series = [];
    series_count = some 0;
    coverage_incomplete = false;
    body = "";
  };
  has_samples = false;
  required_fields = [];
  is_observed = false;
  errors =
      record {
        level = "error";
        code = some "TimeoutError";
        failure_kind = none;
        coverage_incomplete = false;
        message = "timed out";
      }
      ∷ [];
  further = [];
  source_text = none;
  source_language = "bash";
}

test_status : metric_status gathered ≡ ("error", some "timed out")
unfolding metric_status
test_status = refl

abbrev quick : ℕ → ℕ → Attempt
quick i o = record { duration = 900; error = none }

run_scheduled_source-timely_example : ticks_of (run_scheduled_source steady quick ticks) ≡ ticks
run_scheduled_source-timely_example =
    run_scheduled_source-timely steady quick 1000 (λ i o. omega arith) ticks
      (omega arith, (omega arith, (omega arith, (tt, tt))))
