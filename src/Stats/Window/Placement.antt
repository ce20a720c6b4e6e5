-- ===== src/Stats/Window/Placement.antt =====
-- Where the buckets of a plan stand, which is the oldest, and when there is a plan at all.
use probeboard_api.Common.{
  ℕ, zero, suc, ◌+◌, ◌%◌, ◌≤◌, ◌<◌, ◌≡◌, refl, ◌≢◌, inl, inr, true, Option, none, some, List, [],
  ◌∷◌, ◌++◌, arith, ltb, Bool-cases, get_elem?, All, All-append,
}
use mathlib.Core.Path.{subst}
use probeboard_api.Stats.Window.Tiling.{plan_from_total}
use probeboard_api.Stats.Window.{
  minute, hour, day, RetainedFrom, WindowPlan, Planned, planned, rejected, out_of_fuel,
  WindowErrorCode, is_retained, push_d1, push_h1, push_m1, fits, plan_from, empty_plan, window_fuel,
  plan_window, Grain, grain_h1, grain_m1, buckets_of, oldest_needed,
}

-- Where each bucket of a plan may stand.
pub record IsPlaced (retained : RetainedFrom) (plan : WindowPlan) : Type 0 where
  pub days : All (λ t. t % day ≡ 0) plan.d1
  pub hours : All (λ t. (t % hour ≡ 0) × (is_retained retained.h1 t ≡ true)) plan.h1
  pub minutes : All (λ t. (t % minute ≡ 0) × (is_retained retained.m1 t ≡ true)) plan.m1

module _ (end : ℕ) (retained : RetainedFrom) where
  plan_from-IsPlaced :
      (fuel t : ℕ) (plan result : WindowPlan)
      → t % minute ≡ 0
      → IsPlaced retained plan
      → plan_from fuel t end retained plan ≡ planned result
      → IsPlaced retained result
  unfolding plan_from
  plan_from-IsPlaced zero t plan result at v h = cc
  plan_from-IsPlaced (suc fuel) t plan result at v h = elim (Bool-cases (ltb t end)) [
    | inr over ↦ subst (IsPlaced retained) (ground arith) v
    | inl more ↦ elim (Bool-cases (fits day t end)) [
      | inl d ↦
          plan_from-IsPlaced fuel (t + day) (push_d1 plan t) result (omega arith)
            (record {
              days = All-append _ plan.d1 (t ∷ []) v.days (ground arith, tt);
              hours = v.hours;
              minutes = v.minutes;
            })
            (ground arith)
      | inr nd ↦ elim (Bool-cases (fits hour t end)) [
        | inl hr ↦
            plan_from-IsPlaced fuel (t + hour) (push_h1 plan t) result (omega arith)
              (record {
                days = v.days;
                hours = All-append _ plan.h1 (t ∷ []) v.hours ((ground arith, ground arith), tt);
                minutes = v.minutes;
              })
              (ground arith)
        | inr nh ↦
            plan_from-IsPlaced fuel (t + minute) (push_m1 plan t) result (omega arith)
              (record {
                days = v.days;
                hours = v.hours;
                minutes = All-append _ plan.m1 (t ∷ []) v.minutes ((at, ground arith), tt);
              })
              (ground arith)
      ]
    ]
  ]

-- Each bucket of a plan stands on a boundary of its grain, and the retention-bound ones still exist.
pub plan_window-IsPlaced :
    (start end : ℕ) (retained : RetainedFrom) (plan : WindowPlan)
    → plan_window (some start) (some end) retained ≡ planned plan
    → IsPlaced retained plan
unfolding plan_window
plan_window-IsPlaced start end retained plan h =
    plan_from-IsPlaced end retained (window_fuel start end) start empty_plan plan (ground arith)
      (record { days = tt; hours = tt; minutes = tt }) (ground arith)

-- The first bucket, if any, starts no later than the others, and all start by `bound`.
abbrev Led : List ℕ → ℕ → Type 0
Led [] bound = Unit
Led (first ∷ rest) bound = (first ≤ bound) × All (λ t. first ≤ t) rest

Led-append : (ts : List ℕ) (t bound : ℕ) → Led ts t → t ≤ bound → Led (ts ++ t ∷ []) bound
Led-append [] t bound h p = (p, tt)
Led-append (first ∷ rest) t bound (q, a) p = (omega arith, All-append _ rest (t ∷ []) a (q, tt))

Led-mono : (ts : List ℕ) (t bound : ℕ) → Led ts t → t ≤ bound → Led ts bound
Led-mono [] t bound h p = tt
Led-mono (first ∷ rest) t bound (q, a) p = (omega arith, a)

abbrev BothLed : WindowPlan → ℕ → Type 0
BothLed plan bound = Led plan.h1 bound × Led plan.m1 bound

module _ (end : ℕ) (retained : RetainedFrom) where
  plan_from-BothLed :
      (fuel t : ℕ) (plan result : WindowPlan)
      → BothLed plan t
      → plan_from fuel t end retained plan ≡ planned result
      → (bound : ℕ) × BothLed result bound
  unfolding plan_from
  plan_from-BothLed zero t plan result v h = cc
  plan_from-BothLed (suc fuel) t plan result (v, w) h = elim (Bool-cases (ltb t end)) [
    | inr over ↦
        let same : plan ≡ result = ground arith in (t, subst (λ p. BothLed p t) same (v, w))
    | inl more ↦ elim (Bool-cases (fits day t end)) [
      | inl d ↦
          plan_from-BothLed fuel (t + day) (push_d1 plan t) result
            (
              Led-mono plan.h1 t (t + day) v (omega arith),
              Led-mono plan.m1 t (t + day) w (omega arith),
            )
            (ground arith)
      | inr nd ↦ elim (Bool-cases (fits hour t end)) [
        | inl hr ↦
            plan_from-BothLed fuel (t + hour) (push_h1 plan t) result
              (
                Led-append plan.h1 t (t + hour) v (omega arith),
                Led-mono plan.m1 t (t + hour) w (omega arith),
              )
              (ground arith)
        | inr nh ↦
            plan_from-BothLed fuel (t + minute) (push_m1 plan t) result
              (
                Led-mono plan.h1 t (t + minute) v (omega arith),
                Led-append plan.m1 t (t + minute) w (omega arith),
              )
              (ground arith)
      ]
    ]
  ]

Led-first :
    (ts : List ℕ) (first bound : ℕ)
    → Led ts bound
    → get_elem? ts 0 ≡ some first
    → All (λ t. first ≤ t) ts
Led-first [] first bound h e = tt
Led-first (t ∷ ts) first bound (p, a) e =
    let same : t ≡ first = ground arith in
    subst (λ u. All (λ x. u ≤ x) (t ∷ ts)) same (omega arith, a)

-- The bucket that `oldestNeeded` names is the oldest of its grain in the plan.
pub oldest_needed-le :
    (start end : ℕ) (retained : RetainedFrom) (plan : WindowPlan) (grain : Grain) (first : ℕ)
    → plan_window (some start) (some end) retained ≡ planned plan
    → oldest_needed plan grain ≡ some first
    → All (λ t. first ≤ t) (buckets_of plan grain)
unfolding plan_window oldest_needed
oldest_needed-le start end retained plan grain first h e =
    let (bound, led) =
      plan_from-BothLed end retained (window_fuel start end) start empty_plan plan (tt, tt)
        (ground arith) in
    go grain bound led.0 led.1 e
  where
    go :
        (g : Grain) (bound : ℕ)
        → Led plan.h1 bound
        → Led plan.m1 bound
        → get_elem? (buckets_of plan g) 0 ≡ some first
        → All (λ t. first ≤ t) (buckets_of plan g)
    go grain_h1 bound v w q = Led-first plan.h1 first bound v q
    go grain_m1 bound v w q = Led-first plan.m1 first bound w q

abbrev pub RetainsFrom : RetainedFrom → ℕ → Type 0
RetainsFrom retained start =
    (is_retained retained.h1 start ≡ true) × (is_retained retained.m1 start ≡ true)

is_retained_mono :
    (oldest : Option ℕ) (t u : ℕ)
    → is_retained oldest t ≡ true
    → t ≤ u
    → is_retained oldest u ≡ true
is_retained_mono none t u h p = h
is_retained_mono (some o) t u h p = ground arith

module _ (end : ℕ) (retained : RetainedFrom) (code : WindowErrorCode) where
  plan_from-ne-rejected :
      (fuel t : ℕ) (plan : WindowPlan)
      → RetainsFrom retained t
      → plan_from fuel t end retained plan ≢ rejected code
  unfolding plan_from
  plan_from-ne-rejected zero t plan r = ground arith
  plan_from-ne-rejected (suc fuel) t plan (rh, rm) = ground (
    arith,
    plan_from-ne-rejected fuel (t + day) (push_d1 plan t),
    plan_from-ne-rejected fuel (t + hour) (push_h1 plan t),
    plan_from-ne-rejected fuel (t + minute) (push_m1 plan t),
    is_retained_mono retained.h1 t (t + day) rh,
    is_retained_mono retained.m1 t (t + day) rm,
    is_retained_mono retained.h1 t (t + hour) rh,
    is_retained_mono retained.m1 t (t + hour) rm,
    is_retained_mono retained.h1 t (t + minute) rh,
    is_retained_mono retained.m1 t (t + minute) rm,
  )

planned_of :
    (p : Planned) {out : Planned}
    → p ≢ out_of_fuel
    → ((code : WindowErrorCode) → p ≢ rejected code)
    → out ≡ p
    → (plan : WindowPlan) × (out ≡ planned plan)
planned_of (planned plan) f r e = (plan, e)
planned_of (rejected code) f r e = absurd (r code refl)
planned_of out_of_fuel f r e = absurd (f refl)

-- A proper window with minute-aligned bounds is planned, whenever the buckets from its start on
-- still exist.
pub plan_window_complete :
    (start end : ℕ) (retained : RetainedFrom)
    → start < end
    → start % minute ≡ 0
    → end % minute ≡ 0
    → RetainsFrom retained start
    → (plan : WindowPlan) × (plan_window (some start) (some end) retained ≡ planned plan)
unfolding plan_window
plan_window_complete start end retained lt p q r =
    planned_of (plan_from (window_fuel start end) start end retained empty_plan)
      (plan_from_total end retained q (window_fuel start end) start empty_plan (omega arith) p
        (omega arith))
      (λ code. plan_from-ne-rejected end retained code (window_fuel start end) start empty_plan r)
      (ground arith)
