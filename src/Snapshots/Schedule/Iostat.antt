-- ===== src/Snapshots/Schedule/Iostat.antt =====
-- How long an `iostat` run takes.
use native.Mathlib.Nat.{div-add-mod, div-mul-le_self}
use ch_diag.Prelude.{arith, max, min, suc, zero, ℕ, ◌%◌, ◌*◌, ◌+◌, ◌/◌, ◌<◌, ◌≡◌, ◌≤◌}
use ch_diag.Snapshots.Schedule.{iostat_sampling_parameters, round_seconds}

round_seconds-near : (ms : ℕ) → 1000 * round_seconds ms ≤ ms + 500
unfolding round_seconds
round_seconds-near ms = ground (arith, div-add-mod ms 1000, parity (ms / 1000))
  where
    parity : (n : ℕ) → n % 2 ≤ 1
    parity n = omega arith

-- The `iostat` process reports once per interval, for an interval of at least a second and at least
-- one point, and ends before its timeout, two seconds after the duration.
pub iostat_sampling_parameters-in_time :
    (duration interval : ℕ)
    → (0 < (iostat_sampling_parameters duration interval).0)
      × (0 < (iostat_sampling_parameters duration interval).1)
      × ((iostat_sampling_parameters duration interval).1
            * (1000 * (iostat_sampling_parameters duration interval).0)
          < duration + 2000)
unfolding iostat_sampling_parameters
iostat_sampling_parameters-in_time duration interval = (
  omega arith,
  omega arith,
  ends (max 1 (round_seconds (min interval duration)))
      (omega (arith, round_seconds-near (min interval duration))),
)
  where
    ends :
        (seconds : ℕ)
        → 1000 * seconds < duration + 2000
        → max 1 (duration / (1000 * seconds)) * (1000 * seconds) < duration + 2000
    ends seconds short =
        by_count (duration / (1000 * seconds)) (div-mul-le_self duration (1000 * seconds))
      where
        by_count :
            (n : ℕ) → n * (1000 * seconds) ≤ duration → max 1 n * (1000 * seconds) < duration + 2000
        by_count zero h = omega (arith, short)
        by_count (suc n) h = let e : max 1 (suc n) ≡ suc n = omega arith in rw e (omega (arith, h))
