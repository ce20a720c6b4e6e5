-- ===== src/Storage/Periods/Tests.antt =====
-- Tests and the witness of the periods.
use probeboard_api.Common.{ℕ, ◌+◌, ◌*◌, ◌≤◌, ◌≡◌, refl, none, some, arith, codes}
use probeboard_api.Storage.Periods.Laws.{period_suffix-period_from_suffix}
use probeboard_api.Storage.Periods.Cover.{IsTiling, periods_covering-IsTiling}
use probeboard_api.Storage.Periods.{
  periods_covering, period_start, next_period_start, period_suffix, period_from_suffix, day, month,
  date_utc, get_utc_full_year, get_utc_month, get_utc_date, last_started, digits_of, pad,
}

-- 2024-02-29, the 739310th day from the start of year 0.
leap_test :
    (date_utc 2024 2 29 ≡ 739310 * 86400000)
    × (get_utc_full_year (date_utc 2024 2 29) ≡ 2024)
    × (get_utc_month (date_utc 2024 2 29) ≡ 1)
    × (get_utc_date (date_utc 2024 2 29) ≡ 29)
unfolding date_utc get_utc_full_year get_utc_month get_utc_date last_started
leap_test = (refl, refl, refl, refl)

suffix_test :
    (period_from_suffix day (codes "20240229") ≡ some (date_utc 2024 2 29))
    × (period_from_suffix day (codes "20230229") ≡ none)
    × (period_from_suffix month (codes "202413") ≡ none)
    × (period_from_suffix month (codes "202400") ≡ none)
    × (period_from_suffix day (codes "20240300") ≡ none)
    × (period_suffix day (date_utc 2024 2 29) ≡ codes "20240229")
unfolding date_utc get_utc_full_year get_utc_month get_utc_date last_started period_from_suffix
    period_suffix pad digits_of
suffix_test = (refl, refl, refl, refl, refl, refl)

next_test :
    (next_period_start day (date_utc 2024 2 29) ≡ date_utc 2024 3 1)
    × (next_period_start day (date_utc 2023 12 31) ≡ date_utc 2024 1 1)
    × (next_period_start month (date_utc 2023 12 1) ≡ date_utc 2024 1 1)
    × (period_start month (date_utc 2023 12 31 + 5000) ≡ date_utc 2023 12 1)
unfolding next_period_start period_start date_utc get_utc_full_year get_utc_month get_utc_date
    last_started
next_test = (refl, refl, refl, refl)

period_suffix-period_from_suffix_example : period_suffix day (date_utc 2024 2 29) ≡ codes "20240229"
period_suffix-period_from_suffix_example =
    period_suffix-period_from_suffix day (codes "20240229") (date_utc 2024 2 29) suffix_test.0

abbrev spring : ℕ × ℕ
spring = (63873100800000, 63877000000000)

periods_covering-IsTiling_example :
    (period_start month spring.0 ≤ spring.0)
    × IsTiling month
        (period_start month spring.0)
        spring.1
        (periods_covering month spring.0 spring.1)
periods_covering-IsTiling_example = periods_covering-IsTiling month spring.0 spring.1 (omega arith)
