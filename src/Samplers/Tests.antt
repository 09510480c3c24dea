-- ===== src/Samplers/Tests.antt =====
-- The theorems of ch_diag/samplers.py, for a chart of three series and a thread that is sampled
-- twice.
use ch_diag.Prelude.{List, [], false, map, none, refl, some, true, ◌∷◌, ◌≡◌}
use ch_diag.Prelude.Lists.{length}
use ch_diag.Prelude.Results.{budgets_not_positive, err, ok}
use ch_diag.Samplers.Budget.{Chart, Point, Series, apply_chart_budget}
use ch_diag.Samplers.Budget.Bounds.{IsBudgeted, apply_chart_budget-IsBudgeted}
use ch_diag.Samplers.Threads.{
  Rate, Sample, Thread, ThreadRow, normalized_clickhouse_thread_rows, thread_row,
}
use ch_diag.Samplers.Threads.Rates.{IsMeasured, thread_row-IsMeasured}

abbrev points : List Point
points =
    record { t = "10:00"; value = some 1 }
    ∷ record { t = "10:05"; value = none }
    ∷ record { t = "10:10"; value = some 3 }
    ∷ []

abbrev chart : Chart
chart = record {
  series =
      record { name = "a"; points = points }
      ∷ record { name = "b"; points = points }
      ∷ record { name = "c"; points = points }
      ∷ [];
  series_count = 3;
  point_count = 9;
  truncation = none;
}

unfoldable clipped_chart : Chart
unfolding apply_chart_budget
clipped_chart = elim (apply_chart_budget chart 2 2 3) [ err e ↦ chart | ok r ↦ r.0 ]

unfoldable whole_chart : Chart
unfolding apply_chart_budget
whole_chart = elim (apply_chart_budget chart 3 3 9) [ err e ↦ chart | ok r ↦ r.0 ]

is_clipped : apply_chart_budget chart 2 2 3 ≡ ok (clipped_chart, true)
unfolding apply_chart_budget clipped_chart
is_clipped = refl

is_unchanged : apply_chart_budget chart 3 3 9 ≡ ok (whole_chart, false)
unfolding apply_chart_budget whole_chart
is_unchanged = refl

test_points : map (λ (s : Series). length s.points) clipped_chart.series ≡ 2 ∷ 1 ∷ []
unfolding apply_chart_budget clipped_chart
test_points = refl

test_budgets : apply_chart_budget chart 0 2 3 ≡ err budgets_not_positive
unfolding apply_chart_budget
test_budgets = refl

apply_chart_budget-IsBudgeted_example : IsBudgeted 2 2 3 chart clipped_chart
apply_chart_budget-IsBudgeted_example =
    apply_chart_budget-IsBudgeted chart clipped_chart 2 2 3 true is_clipped

abbrev merge_thread : Thread
merge_thread = record {
  thread_name = "MergeMutate";
  state = "S";
  starttime = 4711;
  io_access = false;
  cpu_ticks = 250;
  read_bytes = 0;
  write_bytes = 0;
}

abbrev first_sample : Sample
first_sample = record {
  pid = 7;
  hz = 100;
  threads = (12, record merge_thread { cpu_ticks = 200 }) ∷ [];
}

abbrev second_sample : Sample
second_sample = record { pid = 7; hz = 100; threads = (12, merge_thread) ∷ [] }

abbrev half : Rate
half = record { numerator = 5000000; denominator = 100000 }

is_measured :
    (thread_row (some first_sample) second_sample (some 1000) (12, merge_thread)).cpu_pct
    ≡ some half
unfolding thread_row
is_measured = refl

test_restarted :
    map
      (λ (r : ThreadRow). r.cpu_pct)
      (normalized_clickhouse_thread_rows
        (some (record first_sample { pid = 6 }))
        second_sample
        (some 1000))
    ≡ none ∷ []
unfolding normalized_clickhouse_thread_rows
test_restarted = refl

thread_row-IsMeasured_example :
    IsMeasured
      (some first_sample)
      second_sample
      (some 1000)
      merge_thread
      (thread_row (some first_sample) second_sample (some 1000) (12, merge_thread))
      half
thread_row-IsMeasured_example =
    thread_row-IsMeasured (some first_sample) second_sample (some 1000) 12 merge_thread half
      is_measured
