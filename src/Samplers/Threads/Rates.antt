-- ===== src/Samplers/Threads/Rates.antt =====
-- The rates of a thread never mix two processes, a thread and the one that reuses its id, or a
-- counter and its value after a reset.
use ch_diag.Prelude.{
  Option, ap, arith, inl, inr, max, none, refl, some, subst, sym, ℕ, ◌*◌, ◌-◌, ◌<◌, ◌≡◌, ◌≤◌,
}
use ch_diag.Prelude.Tests.{Bool-cases, leb, leb→le, nat_eq}
use ch_diag.Samplers.Threads.{
  Rate, Sample, Thread, ThreadRow, add_rates, counter_delta, find_thread, old_thread, plain_row,
  rates_since, scaled, thread_row,
}
use mathlib.Core.Option.{some-injective}
use native.Mathlib.Nat.{mul-pos}

-- what a CPU rate rests on
pub record IsMeasured (previous : Option Sample) (current : Sample) (elapsed : Option ℕ)
    (t : Thread) (row : ThreadRow) (r : Rate) : Type 0 where
  pub before : Sample
  pub has_before : previous ≡ some before
  pub same_process : before.pid ≡ current.pid
  pub old : Thread
  pub has_old : find_thread row.tid before.threads ≡ some old
  pub same_start : old.starttime ≡ t.starttime
  pub grows : old.cpu_ticks ≤ t.cpu_ticks
  pub ms : ℕ
  pub has_ms : elapsed ≡ some ms
  pub counts : r.numerator ≡ 100000 * (t.cpu_ticks - old.cpu_ticks)
  pub not_zero : 0 < r.denominator

scaled-some :
    (factor per a b : ℕ) (r : Rate)
    → scaled factor per (counter_delta a b) ≡ some r
    → (a ≤ b) × (r.numerator ≡ factor * (b - a)) × (r.denominator ≡ per)
unfolding counter_delta
scaled-some factor per a b r h = elim (Bool-cases (leb a b)) [
  | inl e ↦
      let same : record { numerator = factor * (b - a); denominator = per } ≡ r =
        some-injective _ _ (rw (e, scaled) at h) in
      (
        leb→le a b e,
        ap (λ (x : Rate). x.numerator) (sym same),
        ap (λ (x : Rate). x.denominator) (sym same),
      )
  | inr e ↦ absurd (let x : ⊥ = cc (rw (e, scaled) at h) in x)
]

module _ (previous : Option Sample) (current : Sample) (elapsed : Option ℕ) (tid : ℕ)
    (t : Thread) where
  old_thread-some :
      (old : Thread)
      → old_thread previous current.pid tid ≡ some old
      → (p : Sample) × (previous ≡ some p)
        × (p.pid ≡ current.pid)
        × (find_thread tid p.threads ≡ some old)
  unfolding old_thread
  old_thread-some old h = by_previous previous refl h
    where
      by_previous :
          (o : Option Sample)
          → previous ≡ o
          → old_thread o current.pid tid ≡ some old
          → (p : Sample) × (previous ≡ some p)
            × (p.pid ≡ current.pid)
            × (find_thread tid p.threads ≡ some old)
      by_previous none e k = absurd (let x : ⊥ = cc k in x)
      by_previous (some p) e k = elim (Bool-cases (nat_eq p.pid current.pid)) [
        | inl same ↦ (p, e, ground (arith, same), rw (same, old_thread) at k)
        | inr other ↦ absurd (let x : ⊥ = cc (rw (other, old_thread) at k) in x)
      ]

  -- A thread has a CPU rate only where the previous sample is of the same process and has the same
  -- thread id with the same start time, the counter has not gone back, and the time between the
  -- samples is known; the rate is the increase of the counter, and its denominator is positive.
  pub thread_row-IsMeasured :
      (r : Rate)
      → (thread_row previous current elapsed (tid, t)).cpu_pct ≡ some r
      → IsMeasured previous current elapsed t (thread_row previous current elapsed (tid, t)) r
  unfolding thread_row rates_since add_rates
  thread_row-IsMeasured r h = by_old (old_thread previous current.pid tid) refl elapsed refl h
    where
      row : ThreadRow
      row = thread_row previous current elapsed (tid, t)

      tid_row :
          (o : Option Thread) (e : Option ℕ)
          → (rates_since current.hz e o t (plain_row current.pid tid t)).tid ≡ tid
      tid_row none e = refl
      tid_row (some old) none = refl
      tid_row (some old) (some ms) = elim (Bool-cases (nat_eq old.starttime t.starttime)) [
        | inl k ↦ rw k refl
        | inr k ↦ rw k refl
      ]

      by_old :
          (o : Option Thread)
          → old_thread previous current.pid tid ≡ o
          → (e : Option ℕ) → elapsed ≡ e
          → (rates_since current.hz e o t (plain_row current.pid tid t)).cpu_pct ≡ some r
          → IsMeasured previous current elapsed t row r
      by_old none k e l h = absurd (let x : ⊥ = cc h in x)
      by_old (some old) k none l h = absurd (let x : ⊥ = cc h in x)
      by_old (some old) k (some ms) l h = elim (Bool-cases (nat_eq old.starttime t.starttime)) [
        | inr other ↦ absurd (let x : ⊥ = cc (rw (other, rates_since) at h) in x)
        | inl same ↦
            let (p, e, pid, found) = old_thread-some old k in
            let (le, num, den) =
              scaled-some 100000 (max current.hz 1 * max ms 1) old.cpu_ticks t.cpu_ticks r
                (rw (same, rates_since) at h) in
            record {
              before = p;
              has_before = e;
              same_process = pid;
              old = old;
              has_old =
                  subst (λ i. find_thread i p.threads ≡ some old)
                    (sym (tid_row (old_thread previous current.pid tid) elapsed)) found;
              same_start = ground (arith, same);
              grows = le;
              ms = ms;
              has_ms = l;
              counts = num;
              not_zero =
                  rw den
                    (mul-pos {m = max current.hz 1} {n = max ms 1} (omega arith) (omega arith));
            }
      ]
