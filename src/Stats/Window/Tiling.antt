-- ===== src/Stats/Window/Tiling.antt =====
-- A planned window is covered exactly, and planning ends.
use probeboard_api.Common.{
  ℕ, zero, suc, ◌+◌, ◌%◌, ◌≤◌, ◌<◌, ◌≡◌, ◌≢◌, Bool, true, false, ◌&&◌, Option, none, some, List, [],
  ◌∷◌, ◌++◌, arith, ltb, leb,
}
use probeboard_api.Stats.Window.{
  minute, hour, day, RetainedFrom, WindowPlan, planned, out_of_fuel, push_d1, push_h1, push_m1,
  fits, plan_from, empty_plan, window_fuel, plan_window,
}

abbrev pub indicator : Bool → ℕ
indicator true = 1
indicator false = 0

-- How many of the buckets of one grain hold an instant.
pub covering : ℕ → ℕ → List ℕ → ℕ
covering grain x [] = 0
covering grain x (t ∷ ts) = indicator (leb t x && ltb x (t + grain)) + covering grain x ts

covering-append :
    (grain x : ℕ) (ts : List ℕ) (t : ℕ)
    → covering grain x (ts ++ t ∷ [])
      ≡ covering grain x ts + indicator (leb t x && ltb x (t + grain))
unfolding covering
covering-append grain x [] t = omega arith
covering-append grain x (u ∷ ts) t = omega (arith, covering-append grain x ts t)

-- How many buckets of a plan hold an instant.
pub cover : WindowPlan → ℕ → ℕ
unfolding covering
cover plan x = covering day x plan.d1 + covering hour x plan.h1 + covering minute x plan.m1

within : ℕ → ℕ → ℕ → ℕ
within from to x = indicator (leb from x && ltb x to)

within_empty : (a b x : ℕ) → b ≤ a → within a b x ≡ 0
unfolding within
within_empty a b x h = ground arith

within_split : (a b c x : ℕ) → a ≤ b → b ≤ c → within a c x ≡ within a b x + within b c x
unfolding within
within_split a b c x p q = ground arith

cover-push_d1 :
    (plan : WindowPlan) (t x : ℕ) → cover (push_d1 plan t) x ≡ cover plan x + within t (t + day) x
unfolding cover within
cover-push_d1 plan t x = omega (arith, covering-append day x plan.d1 t)

cover-push_h1 :
    (plan : WindowPlan) (t x : ℕ) → cover (push_h1 plan t) x ≡ cover plan x + within t (t + hour) x
unfolding cover within
cover-push_h1 plan t x = omega (arith, covering-append hour x plan.h1 t)

cover-push_m1 :
    (plan : WindowPlan) (t x : ℕ)
    → cover (push_m1 plan t) x ≡ cover plan x + within t (t + minute) x
unfolding cover within
cover-push_m1 plan t x = omega (arith, covering-append minute x plan.m1 t)

-- Minute-aligned bounds: the last minute fits.
minute_fits : (t end : ℕ) → t % minute ≡ 0 → end % minute ≡ 0 → t < end → t + minute ≤ end
minute_fits t end p q h = omega arith

Fits→le : (grain t end : ℕ) → fits grain t end ≡ true → t + grain ≤ end
Fits→le grain t end h = ground arith

module _ (end : ℕ) (retained : RetainedFrom) (aligned : end % minute ≡ 0) where
  -- From an aligned instant the loop ends by its test, and covers what is left once.
  pub plan_from_total :
      (fuel t : ℕ) (plan : WindowPlan)
      → t ≤ end
      → t % minute ≡ 0
      → end < t + fuel
      → plan_from fuel t end retained plan ≢ out_of_fuel
  unfolding plan_from
  plan_from_total zero t plan le at f = absurd (omega arith)
  plan_from_total (suc fuel) t plan le at f = ground (
    arith,
    minute_fits t end at aligned,
    plan_from_total fuel (t + day) (push_d1 plan t),
    plan_from_total fuel (t + hour) (push_h1 plan t),
    plan_from_total fuel (t + minute) (push_m1 plan t),
  )

  module _ (x : ℕ) where
    plan_from-cover :
        (fuel t : ℕ) (plan result : WindowPlan)
        → t ≤ end
        → t % minute ≡ 0
        → plan_from fuel t end retained plan ≡ planned result
        → cover result x ≡ cover plan x + within t end x
    unfolding plan_from
    plan_from-cover zero t plan result le at h = cc
    plan_from-cover (suc fuel) t plan result le at h = ground (
      arith,
      minute_fits t end at aligned,
      plan_from-cover fuel (t + day) (push_d1 plan t) result,
      plan_from-cover fuel (t + hour) (push_h1 plan t) result,
      plan_from-cover fuel (t + minute) (push_m1 plan t) result,
      cover-push_d1 plan t x,
      cover-push_h1 plan t x,
      cover-push_m1 plan t x,
      within_split t (t + day) end x,
      within_split t (t + hour) end x,
      within_split t (t + minute) end x,
      within_empty t end x,
    )

-- A plan covers every instant of its window by exactly one bucket, and no other instant.
pub plan_window-tiles :
    (start end : ℕ) (retained : RetainedFrom) (plan : WindowPlan)
    → plan_window (some start) (some end) retained ≡ planned plan
    → (x : ℕ) → cover plan x ≡ indicator (leb start x && ltb x end)
unfolding plan_window within cover covering
plan_window-tiles start end retained plan h x = ground (
  arith,
  λ (p : end % minute ≡ 0).
      plan_from-cover end retained p x (window_fuel start end) start empty_plan plan,
)

-- Every call ends with a plan or a rejection: the fuel is enough.
pub plan_window-ne-out_of_fuel :
    (from to : Option ℕ) (retained : RetainedFrom) → plan_window from to retained ≢ out_of_fuel
unfolding plan_window
plan_window-ne-out_of_fuel none to retained = ground arith
plan_window-ne-out_of_fuel (some start) none retained = ground arith
plan_window-ne-out_of_fuel (some start) (some end) retained = ground (
  arith,
  λ (p : end % minute ≡ 0). plan_from_total end retained p (window_fuel start end) start empty_plan,
)
