-- ===== src/Stats/Window/Tests.antt =====
-- Planning concrete windows.
use probeboard_api.Common.{
  ℕ, ◌+◌, ◌-◌, ◌*◌, ◌≡◌, refl, ◌≢◌, ◌&&◌, none, some, [], ◌∷◌, arith, ltb, leb,
}
use probeboard_api.Stats.Window.{
  minute, hour, day, RetainedFrom, WindowPlan, planned, rejected, window_invalid,
  window_not_minute_aligned, window_grain_retired, plan_window, out_of_fuel,
}
use probeboard_api.Stats.Window.Tiling.{
  indicator, cover, plan_window-tiles, plan_window-ne-out_of_fuel,
}
use probeboard_api.Stats.Window.Placement.{IsPlaced, plan_window-IsPlaced, plan_window_complete}

abbrev all_kept : RetainedFrom
all_kept = record { m1 = some 0; h1 = some 0 }

-- From 22:58 to two minutes past the end of the next day.
abbrev start : ℕ
start = day - hour - 2 * minute

abbrev end : ℕ
end = 2 * day + 2 * minute

abbrev the_plan : WindowPlan
the_plan = record {
  d1 = day ∷ [];
  h1 = (day - hour) ∷ [];
  m1 = start ∷ (start + minute) ∷ (2 * day) ∷ (2 * day + minute) ∷ [];
}

plans : plan_window (some start) (some end) all_kept ≡ planned the_plan
unfolding plan_window
plans = refl

rejections :
    (plan_window none (some end) all_kept ≡ rejected window_invalid)
    × (plan_window (some end) (some end) all_kept ≡ rejected window_invalid)
    × (plan_window (some 30000) (some end) all_kept ≡ rejected window_not_minute_aligned)
    × (plan_window (some start) (some end) (record { m1 = none; h1 = some 0 })
        ≡ rejected window_grain_retired)
unfolding plan_window
rejections = (refl, refl, refl, refl)

plan_window-tiles_example :
    cover the_plan (day + 5) ≡ indicator (leb start (day + 5) && ltb (day + 5) end)
plan_window-tiles_example = plan_window-tiles start end all_kept the_plan plans (day + 5)

plan_window-ne-out_of_fuel_example : plan_window (some start) (some end) all_kept ≢ out_of_fuel
plan_window-ne-out_of_fuel_example = plan_window-ne-out_of_fuel (some start) (some end) all_kept

plan_window-IsPlaced_example : IsPlaced all_kept the_plan
plan_window-IsPlaced_example = plan_window-IsPlaced start end all_kept the_plan plans

plan_window_complete_example :
    (plan : WindowPlan) × (plan_window (some start) (some end) all_kept ≡ planned plan)
plan_window_complete_example =
    plan_window_complete start end all_kept (omega arith) refl refl (refl, refl)
