-- ===== src/Stats/Window.antt =====
-- core/stats/window.ts: tiling a window with the stored buckets, coarsest first.
-- An instant is its milliseconds since the epoch, and an invalid `Date` is `none`. A thrown
-- `WindowError` is `rejected` with its code.
pub mod Tiling
pub mod Placement
mod Tests
use probeboard_api.Common.{
  ℕ, zero, suc, ◌+◌, ◌-◌, ◌%◌, min, max, refl, sym, ap, inl, inr, Bool, true, false, not, ◌&&◌,
  ◌||◌, and-eq-true_iff, Option, none, some, List, [], ◌∷◌, ◌++◌, map, append_assoc, append-nil,
  arith, ltb, leb, ◌==◌, if◌then◌else◌, ltb→lt, lt→ltb, leb→le, ==_iff, tests, Bool-cases,
  Option-cases, length, get_elem?, get_or, take, replicate, length-append, length-take, all, any,
  find, All, All-append, Text, codes, text_eq, text_eq_iff, starts_with, includes, has, lower_unit,
  upper_unit, to_lower_case, to_upper_case,
}

abbrev pub minute : ℕ
minute = 60000

abbrev pub hour : ℕ
hour = 3600000

abbrev pub day : ℕ
day = 86400000

pub record RetainedFrom : Type 0 where
  pub m1 : Option ℕ
  pub h1 : Option ℕ

pub record WindowPlan : Type 0 where
  pub d1 : List ℕ
  pub h1 : List ℕ
  pub m1 : List ℕ

pub data WindowErrorCode : Type 0 where
  window_invalid window_not_minute_aligned window_grain_retired : WindowErrorCode

-- `out_of_fuel` is no answer of the code; the laws show that it is never given.
pub data Planned : Type 0 where
  planned : WindowPlan → Planned
  rejected : WindowErrorCode → Planned
  out_of_fuel : Planned

-- `requireRetained` does not throw.
abbrev pub is_retained : Option ℕ → ℕ → Bool
is_retained none at = false
is_retained (some oldest) at = leb oldest at

abbrev pub push_d1 : WindowPlan → ℕ → WindowPlan
push_d1 plan t = record plan { d1 = plan.d1 ++ t ∷ [] }

abbrev pub push_h1 : WindowPlan → ℕ → WindowPlan
push_h1 plan t = record plan { h1 = plan.h1 ++ t ∷ [] }

abbrev pub push_m1 : WindowPlan → ℕ → WindowPlan
push_m1 plan t = record plan { m1 = plan.m1 ++ t ∷ [] }

abbrev pub fits : ℕ → ℕ → ℕ → Bool
fits grain t end = (t % grain == 0) && leb (t + grain) end

-- The loop of `planWindow`.
pub plan_from : ℕ → ℕ → ℕ → RetainedFrom → WindowPlan → Planned
plan_from zero t end retained plan = out_of_fuel
plan_from (suc fuel) t end retained plan =
    let whole_day = plan_from fuel (t + day) end retained (push_d1 plan t) in
    let whole_hour = plan_from fuel (t + hour) end retained (push_h1 plan t) in
    let one_minute = plan_from fuel (t + minute) end retained (push_m1 plan t) in
    if ltb t end
    then if fits day t end
      then whole_day
      else if fits hour t end
      then if is_retained retained.h1 t then whole_hour else rejected window_grain_retired
      else if is_retained retained.m1 t
      then one_minute
      else rejected window_grain_retired
    else planned plan

abbrev pub empty_plan : WindowPlan
empty_plan = record { d1 = []; h1 = []; m1 = [] }

-- A round moves on by a minute at least, so the minutes of the window bound the rounds.
abbrev pub window_fuel : ℕ → ℕ → ℕ
window_fuel start end = suc (end - start)

plan_valid : ℕ → ℕ → RetainedFrom → Planned
unfolding plan_from
plan_valid start end retained =
    if leb end start
    then rejected window_invalid
    else if not (start % minute == 0) || not (end % minute == 0)
    then rejected window_not_minute_aligned
    else plan_from (window_fuel start end) start end retained empty_plan

unfoldable pub plan_window : Option ℕ → Option ℕ → RetainedFrom → Planned
unfolding plan_valid
plan_window (some start) (some end) retained = plan_valid start end retained
plan_window none to retained = rejected window_invalid
plan_window (some start) none retained = rejected window_invalid

pub data Grain : Type 0 where
  grain_h1 grain_m1 : Grain

abbrev pub buckets_of : WindowPlan → Grain → List ℕ
buckets_of plan grain_h1 = plan.h1
buckets_of plan grain_m1 = plan.m1

unfoldable pub oldest_needed : WindowPlan → Grain → Option ℕ
oldest_needed plan grain = get_elem? (buckets_of plan grain) 0
