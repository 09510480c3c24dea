-- ===== src/Samplers/Budget.antt =====
-- `apply_chart_budget` of ch_diag/samplers.py. A point's value is a number or missing; of the chart
-- the parts that the budget reads and writes.
pub mod Retains
pub mod Bounds
use ch_diag.Prelude.{Bool, List, Option, String, [], min, not, some, ℕ, ◌&&◌, ◌+◌, ◌-◌, ◌∷◌}
use ch_diag.Prelude.Lists.{drop, length, take}
use ch_diag.Prelude.Results.{Result, budgets_not_positive, ok, raise_if, ◌>>=◌, ◌>>◌}
use ch_diag.Prelude.Tests.{if◌then◌else◌, ltb, nat_eq}

pub record Point : Type 0 where
  pub t : String
  pub value : Option ℕ

pub record Series : Type 0 where
  pub name : String
  pub points : List Point

pub record Truncation : Type 0 where
  pub original_series_count : ℕ
  pub retained_series_count : ℕ
  pub original_point_count : ℕ
  pub retained_point_count : ℕ
  pub max_series : ℕ
  pub max_points_per_series : ℕ
  pub max_total_points : ℕ

pub record Chart : Type 0 where
  pub series : List Series
  pub series_count : ℕ
  pub point_count : ℕ
  pub truncation : Option Truncation

-- `sum(len(series.get("points") or []) for series in ...)`
abbrev pub total_points : List Series → ℕ
total_points [] = 0
total_points (s ∷ rest) = length s.points + total_points rest

-- `points[-count:]`, for a positive count
unfoldable pub newest : ℕ → List Point → List Point
newest count points = drop (length points - count) points

-- the loop over `retained`
unfoldable pub clip_series : ℕ → List Series → List Series
unfolding newest
clip_series max_points [] = []
clip_series max_points (s ∷ rest) =
    record s { points = newest max_points s.points } ∷ clip_series max_points rest

abbrev pub append_nonempty : Series → List Series → List Series
append_nonempty s rest = elim s.points [ [] ↦ rest | _ ∷ _ ↦ s ∷ rest ]

-- the loop with `remaining`, which ends where nothing remains
unfoldable pub fill : ℕ → List Series → List Series
unfolding newest
fill remaining [] = []
fill remaining (s ∷ rest) =
    let clipped = record s { points = newest remaining s.points } in
    let others = fill (remaining - length clipped.points) rest in
    if nat_eq remaining 0 then [] else append_nonempty clipped others

unfoldable pub bounded_series : ℕ → ℕ → ℕ → List Series → List Series
unfolding clip_series fill
bounded_series max_series max_points max_total series =
    fill max_total (clip_series max_points (take max_series series))

-- the two counts are what they were
unfoldable pub is_whole : List Series → List Series → Bool
is_whole bounded original =
    nat_eq (length bounded) (length original)
    && nat_eq (total_points bounded) (total_points original)

-- the assignments to `result`
unfoldable pub budgeted_chart : Chart → List Series → ℕ → ℕ → ℕ → Chart
unfolding is_whole
budgeted_chart c bounded max_series max_points max_total = record c {
  series = bounded;
  series_count = length bounded;
  point_count = total_points bounded;
  truncation =
      if is_whole bounded c.series
      then c.truncation
      else some (record {
        original_series_count = length c.series;
        retained_series_count = length bounded;
        original_point_count = total_points c.series;
        retained_point_count = total_points bounded;
        max_series = max_series;
        max_points_per_series = max_points;
        max_total_points = max_total;
      });
}

-- the result, and whether there is the diagnostic `chart_budget_truncated`
unfoldable pub apply_chart_budget : Chart → ℕ → ℕ → ℕ → Result (Chart × Bool)
unfolding bounded_series budgeted_chart is_whole
apply_chart_budget c max_series max_points max_total = do
  raise_if (ltb (min (min max_series max_points) max_total) 1) budgets_not_positive
  let bounded = bounded_series max_series max_points max_total c.series
  ok (budgeted_chart c bounded max_series max_points max_total, not (is_whole bounded c.series))
