-- ===== src/Storage/Periods.antt =====
-- worker/storage/utils/partition-periods.ts: the days and months that partitions cover, in UTC.
-- A `Date` is its milliseconds from the start of year 0, and the parts of one are those of the
-- language's specification: the year is the last that has started.
mod Bounds
mod Cover
mod Decimal
mod Laws
mod Tests
use probeboard_api.Common.{
  ℕ, zero, suc, ◌+◌, ◌-◌, ◌*◌, ◌/◌, ◌%◌, min, max, refl, sym, ap, inl, inr, Bool, true, false, not,
  ◌&&◌, ◌||◌, and-eq-true_iff, Option, none, some, List, [], ◌∷◌, ◌++◌, map, append_assoc,
  append-nil, arith, ltb, leb, ◌==◌, if◌then◌else◌, ltb→lt, lt→ltb, leb→le, ==_iff, tests,
  Bool-cases, Option-cases, length, get_elem?, get_or, take, replicate, length-append, length-take,
  all, any, find, All, All-append, ℤ, pos, negsuc, sub_ℕ, Text, codes, text_eq, text_eq_iff,
  starts_with, includes, has, lower_unit, upper_unit, to_lower_case, to_upper_case,
}

pub data PeriodKind : Type 0 where
  day : PeriodKind
  month : PeriodKind

pub record Period : Type 0 where
  pub suffix : Text
  pub from : ℕ
  pub to : ℕ

pub record PartitionFamily : Type 0 where
  pub parent : Text
  pub kind : PeriodKind

abbrev pub partition_families : List PartitionFamily
partition_families =
    record { parent = codes "probe_results"; kind = day }
    ∷ record { parent = codes "claim_log"; kind = day }
    ∷ record { parent = codes "probe_stats_m1"; kind = day }
    ∷ record { parent = codes "probe_stats_h1"; kind = month }
    ∷ []

abbrev pub day_ms : ℕ
day_ms = 86400000

-- The language's `Date`: months count from 0.
abbrev pub days_before_year : ℕ → ℕ
days_before_year y = (365 * y + (y + 3) / 4 + (y + 399) / 400) - (y + 99) / 100

abbrev pub is_leap : ℕ → Bool
is_leap y = (y % 4 == 0) && (not (y % 100 == 0) || (y % 400 == 0))

abbrev pub leap_day : Bool → ℕ
leap_day true = 1
leap_day false = 0

abbrev pub month_starts : ℕ → List ℕ
month_starts leap =
    0
    ∷ 31
    ∷ (59 + leap)
    ∷ (90 + leap)
    ∷ (120 + leap)
    ∷ (151 + leap)
    ∷ (181 + leap)
    ∷ (212 + leap)
    ∷ (243 + leap)
    ∷ (273 + leap)
    ∷ (304 + leap)
    ∷ (334 + leap)
    ∷ []

abbrev pub days_before_month : Bool → ℕ → ℕ
days_before_month leap m = get_or (month_starts (leap_day leap)) m 0

-- The greatest year, and month, up to a given one that starts no later than a day.
unfoldable pub last_started : (ℕ → ℕ) → ℕ → ℕ → ℕ
last_started start n zero = 0
last_started start n (suc k) = elim (leb (start (suc k)) n) [
  | true ↦ suc k
  | false ↦ last_started start n k
]

unfoldable pub get_utc_full_year : ℕ → ℕ
unfolding last_started
get_utc_full_year at = last_started days_before_year (at / day_ms) (at / day_ms / 365)

abbrev pub day_in_year : ℕ → ℕ
day_in_year at = at / day_ms - days_before_year (get_utc_full_year at)

unfoldable pub get_utc_month : ℕ → ℕ
unfolding last_started get_utc_full_year
get_utc_month at =
    last_started (days_before_month (is_leap (get_utc_full_year at))) (day_in_year at) 11

unfoldable pub get_utc_date : ℕ → ℕ
unfolding get_utc_full_year get_utc_month
get_utc_date at =
    suc (day_in_year at - days_before_month (is_leap (get_utc_full_year at)) (get_utc_month at))

-- `Date.UTC(y, m, d)`, in which the first hundred years stand for those of 1900, the months past
-- the year are of the years after it, and the days past the month of the months after it.
-- The month is `m - 1`, so that it can be the one before the year.
abbrev pub full_year : ℕ → ℕ
full_year y = if ltb y 100 then 1900 + y else y

abbrev pub month_day : ℕ → ℕ → ℕ
month_day y zero = days_before_year (y - 1) + days_before_month (is_leap (y - 1)) 11
month_day y (suc m) =
    days_before_year (y + m / 12) + days_before_month (is_leap (y + m / 12)) (m % 12)

unfoldable pub date_utc : ℕ → ℕ → ℕ → ℕ
date_utc y m d = (month_day (full_year y) m + d - 1) * day_ms

-- The functions of the file.
unfoldable pub period_start : PeriodKind → ℕ → ℕ
unfolding date_utc get_utc_full_year get_utc_month get_utc_date
period_start day at = date_utc (get_utc_full_year at) (get_utc_month at + 1) (get_utc_date at)
period_start month at = date_utc (get_utc_full_year at) (get_utc_month at + 1) 1

unfoldable pub next_period_start : PeriodKind → ℕ → ℕ
unfolding date_utc get_utc_full_year get_utc_month get_utc_date
next_period_start day start =
    date_utc (get_utc_full_year start) (get_utc_month start + 1) (get_utc_date start + 1)
next_period_start month start = date_utc (get_utc_full_year start) (get_utc_month start + 2) 1

-- `String(n)`, of which the fuel is the digits: a date has fewer than twenty.
unfoldable pub digits_of : ℕ → ℕ → Text
digits_of zero n = []
digits_of (suc fuel) n = elim (ltb n 10) [
  | true ↦ (48 + n) ∷ []
  | false ↦ digits_of fuel (n / 10) ++ (48 + n % 10) ∷ []
]

abbrev pub pad_start : ℕ → Text → Text
pad_start width s = replicate (width - length s) 48 ++ s

unfoldable pub pad : ℕ → ℕ → Text
unfolding digits_of
pad n width = pad_start width (digits_of 20 n)

unfoldable pub period_suffix : PeriodKind → ℕ → Text
unfolding pad get_utc_full_year get_utc_month get_utc_date
period_suffix day start =
    (pad (get_utc_full_year start) 4 ++ pad (get_utc_month start + 1) 2)
    ++ pad (get_utc_date start) 2
period_suffix month start = pad (get_utc_full_year start) 4 ++ pad (get_utc_month start + 1) 2

-- The loop of `periodsCovering`. Every turn goes at least a millisecond on, so those to the end are
-- fuel enough.
unfoldable pub periods_from : ℕ → PeriodKind → ℕ → ℕ → List Period
unfolding period_suffix next_period_start
periods_from zero kind start to = []
periods_from (suc fuel) kind start to = elim (leb start to) [
  | true ↦
      record { suffix = period_suffix kind start; from = start; to = next_period_start kind start }
      ∷ periods_from fuel kind (next_period_start kind start) to
  | false ↦ []
]

unfoldable pub periods_covering : PeriodKind → ℕ → ℕ → List Period
unfolding period_start periods_from
periods_covering kind from to =
    periods_from (suc to - period_start kind from) kind (period_start kind from) to

abbrev pub partition_name : PartitionFamily → Text → Text
partition_name family suffix = family.parent ++ codes "_p" ++ suffix

abbrev pub drop : ℕ → Text → Text
drop zero s = s
drop (suc n) [] = []
drop (suc n) (c ∷ s) = drop n s

-- `Number` of a text of digits.
abbrev pub number_of : ℕ → Text → ℕ
number_of n [] = n
number_of n (c ∷ s) = number_of (10 * n + (c - 48)) s

abbrev pub is_decimal : ℕ → Bool
is_decimal c = leb 48 c && leb c 57

-- The date, where it has the parts it is made of.
abbrev pub if_kept : ℕ → ℕ → ℕ → ℕ → Option ℕ
if_kept y mo d start =
    if (get_utc_full_year start == y)
      && (get_utc_month start + 1 == mo)
      && (get_utc_date start == d)
    then some start
    else none

abbrev pub day_parts : ℕ → ℕ → ℕ → Option ℕ
day_parts y mo d = if_kept y mo d (date_utc y mo d)

unfoldable pub period_from_suffix : PeriodKind → Text → Option ℕ
unfolding date_utc get_utc_full_year get_utc_month get_utc_date
period_from_suffix kind suffix = if not (all is_decimal suffix) then none else elim kind [
  | day ↦
      if length suffix == 8
      then day_parts (number_of 0 (take 4 suffix)) (number_of 0 (take 2 (drop 4 suffix)))
          (number_of 0 (drop 6 suffix))
      else none
  | month ↦
      if length suffix == 6
      then day_parts (number_of 0 (take 4 suffix)) (number_of 0 (drop 4 suffix)) 1
      else none
]
