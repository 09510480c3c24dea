-- ===== src/Snapshots/Runner/Timely.antt =====
-- The samples of a source that is in time.
use ch_diag.Prelude.{
  List, Option, [], ap, append-nil, append_assoc, arith, map, map-append, max, none, refl, some,
  subst, sym, true, ℕ, ◌++◌, ◌+◌, ◌<◌, ◌∙◌, ◌∷◌, ◌≡◌, ◌≤◌,
}
use ch_diag.Snapshots.Runner.{
  Active, Attempt, Clock, Launch, RunnerState, Tick, finish, idle_runner, is_done, launch,
  launch_after, run_scheduled_source, run_tick, run_ticks, wake,
}
use ch_diag.Snapshots.Runner.Apart.{launches-await_active}

abbrev Distant : ℕ → ℕ → List Tick → Type 0
Distant gap o [] = Unit
Distant gap o (t ∷ ts) = o + gap ≤ t.offset

-- consecutive deadlines are at least so far apart
abbrev pub Spaced : ℕ → List Tick → Type 0
Spaced gap [] = Unit
Spaced gap (t ∷ ts) = Distant gap t.offset ts × Spaced gap ts

abbrev pub ticks_of : RunnerState → List Tick
ticks_of s = map (λ (l : Launch). l.tick) s.launches

-- the active task ends before the time
abbrev Free : Option Active → ℕ → Type 0
Free none o = Unit
Free (some a) o = a.finish_at < o

-- the loop is in time for the next deadline
abbrev Ready : RunnerState → List Tick → Type 0
Ready s [] = Unit
Ready s (t ∷ ts) = (s.now ≤ t.offset) × Free s.active t.offset

module _ (clock : Clock) (collect : ℕ → ℕ → Attempt) where
  launch_after-launch :
      (t : Tick) (o : Option Active) (s : RunnerState)
      → Free o s.now
      → (u : RunnerState) × (launch_after clock collect t o s ≡ launch clock collect t u)
        × (u.now ≡ s.now)
        × (u.launches ≡ s.launches)
  unfolding launch_after finish
  launch_after-launch t none s h = (s, refl, refl, refl)
  launch_after-launch t (some a) s h =
      let done : is_done clock t s.now a ≡ true = ground (arith, h) in
      (finish a s, rw done refl, refl, refl)

  Free-later : (o : Option Active) (m n : ℕ) → m ≤ n → Free o m → Free o n
  Free-later none m n h f = tt
  Free-later (some a) m n h f = omega (arith, h, f)

  module _ (gap : ℕ)
      (short : (i o : ℕ) → clock.late i + (clock.delay i + (collect i o).duration) < gap) where
    launch-Ready :
        (t : Tick) (ts : List Tick) (s u : RunnerState)
        → s.now ≤ t.offset
        → u.now ≡ max s.now t.offset + clock.late t.index
        → Distant gap t.offset ts
        → Ready (launch clock collect t u) ts
    unfolding launch
    launch-Ready t [] s u h e d = tt
    launch-Ready t (v ∷ ts) s u h e d =
        let k = short t.index t.offset in (omega (arith, h, e, d, k), omega (arith, h, e, d, k))

    run_ticks-timely :
        (ts : List Tick) (s : RunnerState)
        → Ready s ts
        → Spaced gap ts
        → ticks_of (run_ticks clock collect ts s) ≡ ticks_of s ++ ts
    unfolding run_ticks run_tick wake
    run_ticks-timely [] s r d = sym (append-nil (ticks_of s))
    run_ticks-timely (t ∷ ts) s r d =
        let (u, e, n, l) =
          launch_after-launch t s.active (wake clock t s)
            (Free-later s.active t.offset _ (omega (arith, r.0)) r.1) in
        let next = launch clock collect t u in
        let one : ticks_of next ≡ ticks_of s ++ (t ∷ []) =
          (unfold launch in map-append (λ (x : Launch). x.tick) u.launches _)
          ∙ ap (λ (ls : List Launch). map (λ (x : Launch). x.tick) ls ++ (t ∷ [])) l in
        subst (λ v. ticks_of (run_ticks clock collect ts v) ≡ ticks_of s ++ (t ∷ ts)) (sym e)
          (run_ticks-timely ts next (launch-Ready t ts s u r.0 n d.0) d.1
            ∙ ap (λ (xs : List Tick). xs ++ ts) one
            ∙ append_assoc (ticks_of s) (t ∷ []) ts)

    -- Where the loop wakes, and a collection starts and ends, within less than the distance of
    -- consecutive deadlines, the source is sampled at every deadline of its schedule, in order.
    pub run_scheduled_source-timely :
        (ts : List Tick) → Spaced gap ts → ticks_of (run_scheduled_source clock collect ts) ≡ ts
    unfolding run_scheduled_source
    run_scheduled_source-timely ts d =
        let s = run_ticks clock collect ts idle_runner in
        ap (map (λ (l : Launch). l.tick)) (launches-await_active clock collect s.active s)
        ∙ run_ticks-timely ts idle_runner (first ts) d
      where
        first : (ts : List Tick) → Ready idle_runner ts
        first [] = tt
        first (t ∷ ts) = (omega arith, tt)
