-- ===== src/Samplers/Budget/Bounds.antt =====
-- A chart within its budget.
use ch_diag.Collector.Lifecycle.{after}
use ch_diag.Prelude.{
  Bool, List, [], ap, arith, false, inl, inr, min, not, refl, subst, sym, ℕ, ◌+◌, ◌-◌, ◌<◌, ◌∙◌,
  ◌∷◌, ◌≡◌, ◌≤◌,
}
use ch_diag.Prelude.Lists.{All, length, length-drop, length-take, take}
use ch_diag.Prelude.Results.{>>=-eq-ok, Result, budgets_not_positive, ok, raise_if}
use ch_diag.Prelude.Tests.{Bool-cases, ltb, nat_eq}
use ch_diag.Samplers.Budget.{
  Chart, Point, Series, append_nonempty, apply_chart_budget, bounded_series, budgeted_chart,
  clip_series, fill, is_whole, newest, total_points,
}
use ch_diag.Samplers.Budget.Retains.{
  Retains, Retains-length, Retains-trans, Retains-whole, clip_series-Retains, fill-Retains,
  take-Retains,
}

length-newest : (n : ℕ) (ps : List Point) → length (newest n ps) ≡ min n (length ps)
unfolding newest
length-newest n ps = omega (arith, length-drop (length ps - n) ps)

-- a series with points, no more than the limit
abbrev pub IsFilled : ℕ → Series → Type 0
IsFilled m s = (0 < length s.points) × (length s.points ≤ m)

append_nonempty-All :
    (m : ℕ) (s : Series) (rest : List Series)
    → length s.points ≤ m
    → All (IsFilled m) rest
    → All (IsFilled m) (append_nonempty s rest)
append_nonempty-All m s rest le h = by_points s.points refl
  where
    by_points :
        (ps : List Point)
        → s.points ≡ ps
        → All (IsFilled m) (elim ps as (λ _. List Series) [ [] ↦ rest | _ ∷ _ ↦ s ∷ rest ])
    by_points [] e = h
    by_points (p ∷ ps) e = ((omega (arith, ap (λ (qs : List Point). length qs) e), le), h)

total-append_nonempty :
    (s : Series) (rest : List Series)
    → total_points (append_nonempty s rest) ≡ length s.points + total_points rest
total-append_nonempty s rest = by_points s.points refl
  where
    by_points :
        (ps : List Point)
        → s.points ≡ ps
        → total_points (elim ps as (λ _. List Series) [ [] ↦ rest | _ ∷ _ ↦ s ∷ rest ])
          ≡ length s.points + total_points rest
    by_points [] e = omega (arith, ap (λ (qs : List Point). length qs) e)
    by_points (p ∷ ps) e = refl

clip_series-All : (m : ℕ) (ys : List Series) → All (λ s. length s.points ≤ m) (clip_series m ys)
unfolding clip_series
clip_series-All m [] = tt
clip_series-All m (y ∷ ys) = (omega (arith, length-newest m y.points), clip_series-All m ys)

fill-All :
    (m r : ℕ) (ys : List Series) → All (λ s. length s.points ≤ m) ys → All (IsFilled m) (fill r ys)
unfolding fill
fill-All m r [] h = tt
fill-All m r (y ∷ ys) h = elim (Bool-cases (nat_eq r 0)) [
  | inl e ↦ rw e tt
  | inr e ↦ rw e (
      append_nonempty-All m (record y { points = newest r y.points }) _
        (omega (arith, length-newest r y.points, h.0))
        (fill-All m (r - length (newest r y.points)) ys h.1))
]

fill-total : (r : ℕ) (ys : List Series) → total_points (fill r ys) ≤ r
unfolding fill
fill-total r [] = omega arith
fill-total r (y ∷ ys) = elim (Bool-cases (nat_eq r 0)) [
  | inl e ↦ rw e (omega arith)
  | inr e ↦ rw e (
      omega (
        arith,
        total-append_nonempty (record y { points = newest r y.points })
            (fill (r - length (newest r y.points)) ys),
        fill-total (r - length (newest r y.points)) ys,
        length-newest r y.points,
      ))
]

-- What a budget promises of the chart that it leaves.
pub record IsBudgeted (max_series max_points max_total : ℕ) (before after : Chart) : Type 0 where
  pub few_series : length after.series ≤ max_series
  pub few_points : total_points after.series ≤ max_total
  pub filled : All (IsFilled max_points) after.series
  pub counts_series : after.series_count ≡ length after.series
  pub counts_points : after.point_count ≡ total_points after.series
  pub retains : Retains after.series before.series

bounded_series-Retains :
    (max_series max_points max_total : ℕ) (ys : List Series)
    → Retains (bounded_series max_series max_points max_total ys) ys
unfolding bounded_series
bounded_series-Retains max_series max_points max_total ys =
    Retains-trans (take max_series ys) ys (take-Retains max_series ys) _ (
      Retains-trans (clip_series max_points (take max_series ys)) (take max_series ys)
        (clip_series-Retains max_points (take max_series ys)) _
        (fill-Retains max_total (clip_series max_points (take max_series ys))))

length-bounded_series :
    (max_series max_points max_total : ℕ) (ys : List Series)
    → length (bounded_series max_series max_points max_total ys) ≤ max_series
unfolding bounded_series
length-bounded_series max_series max_points max_total ys =
    let clipped_ones = clip_series max_points (take max_series ys) in
    omega (
      arith,
      Retains-length (fill max_total clipped_ones) clipped_ones
          (fill-Retains max_total clipped_ones),
      Retains-length clipped_ones (take max_series ys)
          (clip_series-Retains max_points (take max_series ys)),
      length-take max_series ys,
    )

abbrev positive : ℕ → ℕ → ℕ → Result (Unit {0})
positive max_series max_points max_total =
    raise_if (ltb (min (min max_series max_points) max_total) 1) budgets_not_positive

inverted :
    (before after : Chart) (max_series max_points max_total : ℕ) (truncated : Bool)
    → apply_chart_budget before max_series max_points max_total ≡ ok (after, truncated)
    → (budgeted_chart before
          (bounded_series max_series max_points max_total before.series)
          max_series
          max_points
          max_total
        ≡ after)
      × (not (is_whole (bounded_series max_series max_points max_total before.series) before.series)
          ≡ truncated)
unfolding apply_chart_budget
inverted before after max_series max_points max_total truncated h =
    let (_, _, done) = >>=-eq-ok (positive max_series max_points max_total) _ h in
    (cc done, cc done)

budgeted_chart-IsBudgeted :
    (before : Chart) (max_series max_points max_total : ℕ)
    → IsBudgeted max_series max_points max_total before (
        budgeted_chart before
          (bounded_series max_series max_points max_total before.series)
          max_series
          max_points
          max_total)
unfolding budgeted_chart
budgeted_chart-IsBudgeted before max_series max_points max_total = record {
  few_series = length-bounded_series max_series max_points max_total before.series;
  few_points = unfold bounded_series in fill-total max_total _;
  filled =
      unfold bounded_series in
      fill-All max_points max_total _ (clip_series-All max_points (take max_series before.series));
  counts_series = refl;
  counts_points = refl;
  retains = bounded_series-Retains max_series max_points max_total before.series;
}

-- Where `apply_chart_budget` does not raise, the chart that it leaves has no more series, no more
-- points per series and no more points in all than the budgets; no series is empty; the counts are
-- those of the chart; and the series are those of the chart before, in order, each with its newest
-- points.
pub apply_chart_budget-IsBudgeted :
    (before after : Chart) (max_series max_points max_total : ℕ) (truncated : Bool)
    → apply_chart_budget before max_series max_points max_total ≡ ok (after, truncated)
    → IsBudgeted max_series max_points max_total before after
apply_chart_budget-IsBudgeted before after max_series max_points max_total truncated h =
    subst (IsBudgeted max_series max_points max_total before)
      (inverted before after max_series max_points max_total truncated h).0
      (budgeted_chart-IsBudgeted before max_series max_points max_total)

-- Where it reports no truncation, the series are those that the chart had before.
pub apply_chart_budget-whole :
    (before after : Chart) (max_series max_points max_total : ℕ)
    → apply_chart_budget before max_series max_points max_total ≡ ok (after, false)
    → after.series ≡ before.series
unfolding budgeted_chart is_whole
apply_chart_budget-whole before after max_series max_points max_total h =
    let (e, w) = inverted before after max_series max_points max_total false h in
    let xs = bounded_series max_series max_points max_total before.series in
    ap (λ (c : Chart). c.series) (sym e)
    ∙ Retains-whole xs before.series
        (bounded_series-Retains max_series max_points max_total before.series) (ground (arith, w))
        (ground (arith, w))
