-- ===== src/Snapshots/Schedule/Offsets.antt =====
-- When the loop of `schedule_offsets` ends, and with which offsets.
use ch_diag.Prelude.{
  List, Option, [], ap, sym, inl, inr, ◌∙◌, ◌↔◌, arith, false, none, refl, some, suc, true, zero, ℕ,
  ◌++◌, ◌<◌, ◌∷◌, ◌≡◌,
}
use ch_diag.Prelude.Results.{ok}
use ch_diag.Prelude.Tests.{Bool-cases}
use ch_diag.Snapshots.Schedule.{Floats, cons_offset, enclosed, offsets_from, schedule_offsets}

module _ {F : Type 0} (floats : Floats F) where
  -- `next`, with the interval added so many times, one after the other
  abbrev pub added : ℕ → F → F → F
  added zero next interval = next
  added (suc n) next interval = added n (floats.add next interval) interval

  -- so many of these sums, from `next` on
  abbrev pub sums : ℕ → F → F → List F
  sums zero next interval = []
  sums (suc n) next interval = next ∷ sums n (floats.add next interval) interval

  -- the first `n` sums lie before the duration, and the next one does not
  abbrev pub Crosses : ℕ → F → F → F → Type 0
  Crosses zero next interval duration = floats.lt next duration ≡ false
  Crosses (suc n) next interval duration =
      (floats.lt next duration ≡ true) × Crosses n (floats.add next interval) interval duration

  offsets_from-Crosses :
      (n fuel : ℕ) (next interval duration : F)
      → Crosses n next interval duration
      → n < fuel
      → offsets_from floats fuel next interval duration ≡ some (sums n next interval)
  unfolding offsets_from
  offsets_from-Crosses n zero next interval duration h k = absurd (omega (arith, k))
  offsets_from-Crosses zero (suc fuel) next interval duration h k = rw h refl
  offsets_from-Crosses (suc n) (suc fuel) next interval duration h k =
      rw
        (
          h.0,
          offsets_from-Crosses n fuel (floats.add next interval) interval duration h.1
              (omega (arith, k)),
        )
        refl

  -- the loop has ended after `n` sums, which it has appended
  abbrev Found : ℕ → F → F → F → List F → Type 0
  Found fuel next interval duration os =
      (n : ℕ) × (n < fuel) × Crosses n next interval duration × (os ≡ sums n next interval)

  offsets_from-Found :
      (fuel : ℕ) (next interval duration : F) (os : List F)
      → offsets_from floats fuel next interval duration ≡ some os
      → Found fuel next interval duration os
  unfolding offsets_from
  offsets_from-Found zero next interval duration os h = absurd (let x : ⊥ = cc h in x)
  offsets_from-Found (suc fuel) next interval duration os h =
      elim (Bool-cases (floats.lt next duration)) [
        | inr e ↦ (0, omega arith, e, let r : os ≡ [] = cc (rw e at h) in r)
        | inl e ↦
            by_rest e
              (λ more r.
                offsets_from-Found fuel (floats.add next interval) interval duration more r)
              (offsets_from floats fuel (floats.add next interval) interval duration) refl
              (rw e at h)
      ]
    where
      by_rest :
          floats.lt next duration ≡ true
          → ((more : List F)
              → offsets_from floats fuel (floats.add next interval) interval duration ≡ some more
              → Found fuel (floats.add next interval) interval duration more)
          → (o : Option (List F))
          → offsets_from floats fuel (floats.add next interval) interval duration ≡ o
          → cons_offset next o ≡ some os
          → Found (suc fuel) next interval duration os
      by_rest e ih none r k = absurd (let x : ⊥ = cc k in x)
      by_rest e ih (some more) r k =
          let (n, short, crosses, same) = ih more r in
          (
            suc n,
            omega (arith, short),
            (e, crosses),
            (let q : os ≡ next ∷ more = cc k in q) ∙ ap (λ (z : List F). next ∷ z) same,
          )

  -- For a positive duration and interval `schedule_offsets` returns offsets, within so many tests of
  -- its loop, exactly where the interval, added again and again, comes to a sum that is not before
  -- the duration; and the offsets are zero, the sums before that one, and the duration.
  pub schedule_offsets-IsSchedule :
      (fuel : ℕ) (duration interval : F) (offsets : List F)
      → floats.le duration floats.nought ≡ false
      → floats.le interval floats.nought ≡ false
      → (schedule_offsets floats fuel duration interval ≡ ok (some offsets)) ↔ (
          (n : ℕ) × (n < fuel)
          × Crosses n interval interval duration
          × (offsets ≡ floats.nought ∷ (sums n interval interval ++ (duration ∷ []))))
  unfolding schedule_offsets
  schedule_offsets-IsSchedule fuel duration interval offsets h k = (
    (λ e. by_loop (offsets_from floats fuel interval interval duration) refl (rw (h, k) at e)),
    (λ (n, short, crosses, same).
        rw (h, k, offsets_from-Crosses n fuel interval interval duration crosses short)
          (ap (λ os. ok (some os)) (sym same))),
  )
    where
      by_loop :
          (o : Option (List F))
          → offsets_from floats fuel interval interval duration ≡ o
          → ok (enclosed floats.nought duration o) ≡ ok (some offsets)
          → (n : ℕ) × (n < fuel)
            × Crosses n interval interval duration
            × (offsets ≡ floats.nought ∷ (sums n interval interval ++ (duration ∷ [])))
      by_loop none r e = absurd (let x : ⊥ = cc e in x)
      by_loop (some more) r e =
          let (n, short, crosses, same) =
            offsets_from-Found fuel interval interval duration more r in
          (
            n,
            short,
            crosses,
            (let q : offsets ≡ floats.nought ∷ (more ++ (duration ∷ [])) = cc e in q)
                ∙ ap (λ (z : List F). floats.nought ∷ (z ++ (duration ∷ []))) same,
          )
