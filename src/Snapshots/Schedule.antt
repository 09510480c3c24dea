-- ===== src/Snapshots/Schedule.antt =====
-- `schedule_offsets` and `iostat_sampling_parameters` of ch_diag/snapshots.py, and the guards of
-- `collect_snapshots` of ch_diag/collector.py. What Python's floats do in a sum and in a comparison
-- is an argument, so that nothing here rests on exact sums; the parameters of iostat are computed of
-- whole milliseconds.
pub mod Offsets
pub mod Iostat
use ch_diag.Prelude.{
  Bool, List, Option, [], false, max, min, none, some, suc, zero, ℕ, ◌%◌, ◌*◌, ◌++◌, ◌+◌, ◌/◌, ◌∷◌,
}
use ch_diag.Prelude.Lists.{length}
use ch_diag.Prelude.Results.{
  Result, above_snapshot_limit, duration_below_interval, duration_not_positive,
  interval_below_minimum, interval_not_positive, ok, raise_if, ◌>>=◌, ◌>>◌,
}
use ch_diag.Prelude.Tests.{if◌then◌else◌, ltb}

-- the operations of Python's floats that the schedule uses
pub record Floats (F : Type 0) : Type 0 where
  pub nought : F
  pub add : F → F → F
  pub lt : F → F → Bool
  pub le : F → F → Bool

abbrev pub cons_offset : {F : Type 0} → F → Option (List F) → Option (List F)
cons_offset o none = none
cons_offset o (some os) = some (o ∷ os)

-- The `while` loop and the offsets that it appends; `none` where it has not ended after so many
-- tests of its condition.
unfoldable pub offsets_from : {F : Type 0} → Floats F → ℕ → F → F → F → Option (List F)
offsets_from floats zero next interval duration = none
offsets_from floats (suc fuel) next interval duration =
    let rest = offsets_from floats fuel (floats.add next interval) interval duration in
    if floats.lt next duration then cons_offset next rest else some []

-- `[0.0]` before the offsets of the loop, and the duration behind them
abbrev pub enclosed : {F : Type 0} → F → F → Option (List F) → Option (List F)
enclosed first last none = none
enclosed first last (some os) = some (first ∷ (os ++ (last ∷ [])))

unfoldable pub schedule_offsets : {F : Type 0} → Floats F → ℕ → F → F → Result (Option (List F))
unfolding offsets_from
schedule_offsets floats fuel duration interval = do
  raise_if (floats.le duration floats.nought) duration_not_positive
  raise_if (floats.le interval floats.nought) interval_not_positive
  ok (enclosed floats.nought duration (offsets_from floats fuel interval interval duration))

-- `snapshot_count > max_snapshot_count`, where the loop has ended
abbrev pub is_above : {F : Type 0} → ℕ → Option (List F) → Bool
is_above max_snapshot_count none = false
is_above max_snapshot_count (some os) = ltb max_snapshot_count (length os)

-- the guards of `collect_snapshots`, of `MIN_SNAPSHOT_INTERVAL_SECONDS` and the limit of the policy:
-- the offsets of the collection
unfoldable pub checked_offsets :
    {F : Type 0} → Floats F → ℕ → F → ℕ → F → F → Result (Option (List F))
unfolding schedule_offsets
checked_offsets floats fuel minimum max_snapshot_count duration interval = do
  raise_if (floats.lt interval minimum) interval_below_minimum
  raise_if (floats.lt duration interval) duration_below_interval
  offsets ← schedule_offsets floats fuel duration interval
  raise_if (is_above max_snapshot_count offsets) above_snapshot_limit
  ok offsets

-- `int(round(seconds))`: halves go to the even neighbour
unfoldable pub round_seconds : ℕ → ℕ
round_seconds ms =
    let whole = ms / 1000 in
    let part = ms % 1000 in
    if ltb part 500 then whole else if ltb 500 part then suc whole else whole + whole % 2

-- the interval in seconds and the number of points
unfoldable pub iostat_sampling_parameters : ℕ → ℕ → ℕ × ℕ
unfolding round_seconds
iostat_sampling_parameters duration interval =
    let interval_seconds = max 1 (round_seconds (min interval duration)) in
    (interval_seconds, max 1 (duration / (1000 * interval_seconds)))
