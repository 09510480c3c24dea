-- ===== src/Samplers/Budget/Retains.antt =====
-- What `apply_chart_budget` retains of the series: the first ones, with their newest points.
use ch_diag.Prelude.{
  List, [], ap, ap₂, arith, inl, inr, refl, subst, suc, sym, zero, ℕ, ◌+◌, ◌-◌, ◌∙◌, ◌∷◌, ◌≡◌, ◌≤◌,
}
use ch_diag.Prelude.Lists.{drop, length, length-drop, take}
use ch_diag.Prelude.Tests.{Bool-cases, nat_eq}
use ch_diag.Samplers.Budget.{
  Point, Series, append_nonempty, clip_series, fill, newest, total_points,
}

-- The series `xs` come from the series `ys`, in order: a series is left out, or kept with its
-- newest points.
pub data Retains : List Series → List Series → Type 0 where
  stopped : (ys : List Series) → Retains [] ys
  left_out : (y : Series) (xs ys : List Series) → Retains xs ys → Retains xs (y ∷ ys)
  clipped :
      (y : Series) (n : ℕ) (xs ys : List Series)
      → Retains xs ys
      → Retains (record y { points = drop n y.points } ∷ xs) (y ∷ ys)

drop-drop : (m n : ℕ) (ps : List Point) → drop m (drop n ps) ≡ drop (m + n) ps
drop-drop m zero ps = let e : m ≡ m + 0 = omega arith in ap (λ k. drop k ps) e
drop-drop m (suc n) [] = drop-nil m ∙ sym (drop-nil (m + suc n))
  where
    drop-nil : (k : ℕ) → drop {A = Point} k [] ≡ []
    drop-nil zero = refl
    drop-nil (suc k) = refl
drop-drop m (suc n) (p ∷ ps) =
    let e : suc (m + n) ≡ m + suc n = omega arith in drop-drop m n ps ∙ ap (λ k. drop k (p ∷ ps)) e

Retains-cons :
    (z : Series) (n : ℕ) (xs ys zs : List Series)
    → Retains xs (record z { points = drop n z.points } ∷ ys)
    → ((ws : List Series) → Retains ws ys → Retains ws zs)
    → Retains xs (z ∷ zs)
Retains-cons z n xs ys zs (stopped _) k = stopped (z ∷ zs)
Retains-cons z n xs ys zs (left_out _ _ _ h) k = left_out z xs zs (k xs h)
Retains-cons z n xs ys zs (clipped _ m ws _ h) k =
    subst (λ ps. Retains (record z { points = ps } ∷ ws) (z ∷ zs)) (sym (drop-drop m n z.points))
      (clipped z (m + n) ws zs (k ws h))

pub Retains-trans :
    (ys zs : List Series) → Retains ys zs → (xs : List Series) → Retains xs ys → Retains xs zs
Retains-trans ys zs (stopped _) xs (stopped _) = stopped zs
Retains-trans ys zs (left_out z _ zs' k) xs h = left_out z xs zs' (Retains-trans ys zs' k xs h)
Retains-trans ys zs (clipped z n ys' zs' k) xs h =
    Retains-cons z n xs ys' zs' h (λ ws j. Retains-trans ys' zs' k ws j)

pub clip_series-Retains : (m : ℕ) (ys : List Series) → Retains (clip_series m ys) ys
unfolding clip_series newest
clip_series-Retains m [] = stopped []
clip_series-Retains m (y ∷ ys) =
    clipped y (length y.points - m) (clip_series m ys) ys (clip_series-Retains m ys)

pub take-Retains : (n : ℕ) (ys : List Series) → Retains (take n ys) ys
take-Retains zero ys = stopped ys
take-Retains (suc n) [] = stopped []
take-Retains (suc n) (y ∷ ys) = clipped y 0 (take n ys) ys (take-Retains n ys)

append_nonempty-Retains :
    (y : Series) (n : ℕ) (xs ys : List Series)
    → Retains xs ys
    → Retains (append_nonempty (record y { points = drop n y.points }) xs) (y ∷ ys)
append_nonempty-Retains y n xs ys h = by_points (drop n y.points) refl
  where
    by_points :
        (ps : List Point)
        → drop n y.points ≡ ps
        → Retains (append_nonempty (record y { points = ps }) xs) (y ∷ ys)
    by_points [] e = left_out y xs ys h
    by_points (p ∷ ps) e =
        subst (λ qs. Retains (record y { points = qs } ∷ xs) (y ∷ ys)) e (clipped y n xs ys h)

pub fill-Retains : (r : ℕ) (ys : List Series) → Retains (fill r ys) ys
unfolding fill newest
fill-Retains r [] = stopped []
fill-Retains r (y ∷ ys) = elim (Bool-cases (nat_eq r 0)) [
  | inl e ↦ rw e (stopped (y ∷ ys))
  | inr e ↦ rw e (
      append_nonempty-Retains y (length y.points - r) _ ys
        (fill-Retains (r - length (newest r y.points)) ys))
]

pub Retains-length : (xs ys : List Series) → Retains xs ys → length xs ≤ length ys
Retains-length xs ys (stopped _) = omega arith
Retains-length xs ys (left_out y _ ys' h) = omega (arith, Retains-length xs ys' h)
Retains-length xs ys (clipped y n xs' ys' h) = omega (arith, Retains-length xs' ys' h)

Retains-total : (xs ys : List Series) → Retains xs ys → total_points xs ≤ total_points ys
Retains-total xs ys (stopped _) = omega arith
Retains-total xs ys (left_out y _ ys' h) = omega (arith, Retains-total xs ys' h)
Retains-total xs ys (clipped y n xs' ys' h) =
    omega (arith, Retains-total xs' ys' h, length-drop n y.points)

drop-whole : (n : ℕ) (ps : List Point) → length ps ≤ length (drop n ps) → drop n ps ≡ ps
drop-whole zero ps h = refl
drop-whole (suc n) [] h = refl
drop-whole (suc n) (p ∷ ps) h = absurd (omega (arith, length-drop n ps, h))

-- nothing is lost where the counts agree
pub Retains-whole :
    (xs ys : List Series)
    → Retains xs ys
    → length ys ≤ length xs
    → total_points ys ≤ total_points xs
    → xs ≡ ys
Retains-whole xs ys (stopped []) h k = refl
Retains-whole xs ys (stopped (y ∷ ys')) h k = absurd (omega (arith, h))
Retains-whole xs ys (left_out y _ ys' r) h k = absurd (omega (arith, h, Retains-length xs ys' r))
Retains-whole xs ys (clipped y n xs' ys' r) h k =
    let same : drop n y.points ≡ y.points =
      drop-whole n y.points (omega (arith, k, Retains-total xs' ys' r, length-drop n y.points)) in
    ap₂ (λ (ps : List Point) (zs : List Series). record y { points = ps } ∷ zs) same
      (Retains-whole xs' ys' r (omega (arith, h)) (omega (arith, k, length-drop n y.points)))
