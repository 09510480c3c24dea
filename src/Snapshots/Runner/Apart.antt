-- ===== src/Snapshots/Runner/Apart.antt =====
-- The times of the collections of a source.
use ch_diag.Prelude.{
  List, Option, [], arith, inl, inr, none, refl, some, subst, sym, true, ℕ, ◌++◌, ◌+◌, ◌∷◌, ◌≡◌,
  ◌≤◌,
}
use ch_diag.Prelude.Lists.{All, All-append, All-mono}
use ch_diag.Prelude.Tests.{Bool-cases, if◌then◌else◌}
use ch_diag.Snapshots.Runner.{
  Clock, is_done, wake, run_tick, Active, Attempt, Launch, RunnerState, Tick, await_active, finish,
  idle_runner, launch, launch_after, run_scheduled_source, run_ticks, skip,
}

-- each collection ends before the later ones start
abbrev pub Apart : List Launch → Type 0
Apart [] = Unit
Apart (l ∷ ls) = All (λ m. l.finished ≤ m.started) ls × Apart ls

abbrev EndBefore : ℕ → List Launch → Type 0
EndBefore t ls = All (λ l. l.finished ≤ t) ls

Apart-snoc :
    (ls : List Launch) (n : Launch) → Apart ls → EndBefore n.started ls → Apart (ls ++ (n ∷ []))
Apart-snoc [] n h k = (tt, tt)
Apart-snoc (l ∷ ls) n h k =
    (All-append (λ m. l.finished ≤ m.started) ls (n ∷ []) h.0 (k.0, tt), Apart-snoc ls n h.1 k.1)

-- the launched collections are over when the active one is
abbrev Ends : Option Active → List Launch → Type 0
Ends none ls = ls ≡ []
Ends (some a) ls = EndBefore a.finish_at ls

abbrev IsApart : RunnerState → Type 0
IsApart s = Apart s.launches × Ends s.active s.launches

module _ (clock : Clock) (collect : ℕ → ℕ → Attempt) where
  launch-IsApart :
      (t : Tick) (s : RunnerState)
      → Apart s.launches
      → EndBefore s.now s.launches
      → IsApart (launch clock collect t s)
  unfolding launch
  launch-IsApart t s h k =
      let start = s.now + clock.delay t.index in
      let end = start + (collect t.index t.offset).duration in
      let l : Launch = record { tick = t; started = start; finished = end } in
      (
        Apart-snoc s.launches l h (
            All-mono (λ m. m.finished ≤ s.now) (λ m. m.finished ≤ start) s.launches
              (λ m e. omega (arith, e)) k),
        All-append (λ m. m.finished ≤ end) s.launches (l ∷ [])
            (All-mono (λ m. m.finished ≤ s.now) (λ m. m.finished ≤ end) s.launches
              (λ m e. omega (arith, e)) k)
            (omega arith, tt),
      )

  is_done-le : (t : Tick) (now : ℕ) (a : Active) → is_done clock t now a ≡ true → a.finish_at ≤ now
  is_done-le t now a h = ground arith

  launch_after-IsApart :
      (t : Tick) (s : RunnerState) (o : Option Active)
      → s.active ≡ o
      → IsApart s
      → IsApart (launch_after clock collect t o s)
  unfolding launch_after finish skip
  launch_after-IsApart t s none e h =
      launch-IsApart t s h.0
        (subst (EndBefore s.now) (sym (subst (λ o. Ends o s.launches) e h.1)) tt)
  launch_after-IsApart t s (some a) e h = elim (Bool-cases (is_done clock t s.now a)) [
    | inl done ↦
        subst (λ b. IsApart (if b then launch clock collect t (finish a s) else skip t s))
          (sym done)
          (launch-IsApart t (finish a s) h.0 (
            All-mono (λ m. m.finished ≤ a.finish_at) (λ m. m.finished ≤ s.now) s.launches
              (λ m k. omega (arith, k, is_done-le t s.now a done))
              (subst (λ o. Ends o s.launches) e h.1)))
    | inr busy ↦
        subst (λ b. IsApart (if b then launch clock collect t (finish a s) else skip t s))
          (sym busy) h
  ]

  run_ticks-IsApart :
      (ts : List Tick) (s : RunnerState) → IsApart s → IsApart (run_ticks clock collect ts s)
  unfolding run_ticks run_tick wake
  run_ticks-IsApart [] s h = h
  run_ticks-IsApart (t ∷ ts) s h =
      run_ticks-IsApart ts _ (launch_after-IsApart t (wake clock t s) s.active refl h)

  pub launches-await_active :
      (o : Option Active) (s : RunnerState) → (await_active o s).launches ≡ s.launches
  unfolding await_active finish
  launches-await_active none s = refl
  launches-await_active (some a) s = refl

  -- Whatever the schedule is, however late the loop wakes and however long the collections take,
  -- each collection of a source has ended before the next one starts.
  pub run_scheduled_source-Apart :
      (ts : List Tick) → Apart (run_scheduled_source clock collect ts).launches
  unfolding run_scheduled_source
  run_scheduled_source-Apart ts =
      let s = run_ticks clock collect ts idle_runner in
      subst Apart (sym (launches-await_active s.active s))
        (run_ticks-IsApart ts idle_runner (tt, refl)).0
