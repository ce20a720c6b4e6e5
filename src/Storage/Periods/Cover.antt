-- ===== src/Storage/Periods/Cover.antt =====
-- The periods that a range is covered by.
use probeboard_api.Common.{
  ℕ, zero, suc, ◌+◌, ◌-◌, ◌*◌, ◌/◌, ◌≤◌, ◌<◌, ◌≡◌, refl, sym, ap, ◌∙◌, inl, inr, Bool, true, false,
  List, [], ◌∷◌, arith, ltb, leb, ltb→lt, leb→le, Bool-cases,
}
use mathlib.Core.Path.{subst}
use probeboard_api.Storage.Periods.{
  PeriodKind, Period, day, month, day_ms, days_before_year, is_leap, days_before_month,
  get_utc_full_year, day_in_year, get_utc_month, get_utc_date, month_day, date_utc, period_start,
  next_period_start, period_suffix, periods_from, periods_covering,
}
use probeboard_api.Storage.Periods.Bounds.{
  IsLast, year_IsLast, month_IsLast, full_year_lem, next_year_lem, date_utc_lem,
}

-- From the year 100 on, in which `Date.UTC` takes a year as it is.
abbrev pub IsModern : ℕ → Type 0
IsModern at = 36525 * day_ms ≤ at

year_modern : (at : ℕ) → IsModern at → 100 ≤ get_utc_full_year at
year_modern at h = go (get_utc_full_year at) (year_IsLast at)
  where
    go : (y : ℕ) → IsLast days_before_year (at / day_ms) (at / day_ms / 365) y → 100 ≤ y
    go y (a, b, c) = elim (Bool-cases (leb 100 y)) [
      | inl le ↦ leb→le 100 y le
      | inr gt ↦
          let low : y < 100 = ground (arith, gt) in
          let far : at / day_ms < days_before_year (suc y) = c (omega (arith, h, low)) in
          absurd (small low far)
    ]
      where
        small : y < 100 → at / day_ms < days_before_year (suc y) → ⊥
        small l f = omega (arith, h, l, f)

period_start-day : (at : ℕ) → IsModern at → period_start day at ≡ at / day_ms * day_ms
unfolding period_start get_utc_date
period_start-day at h =
    let (a, b, c) = year_IsLast at in
    let (d, e, f) = month_IsLast at in
    date_utc_lem (get_utc_full_year at) (get_utc_month at) _ (year_modern at h) e
    ∙ ap (λ n. n * day_ms)
        (whole (days_before_year (get_utc_full_year at))
          (days_before_month (is_leap (get_utc_full_year at)) (get_utc_month at)) (at / day_ms) a d)
  where
    whole : (y m n : ℕ) → y ≤ n → m ≤ n - y → y + m + (n - y - m) ≡ n
    whole y m n h k = omega arith

next_period_start-day :
    (at : ℕ) → IsModern at → next_period_start day at ≡ (at / day_ms + 1) * day_ms
unfolding next_period_start get_utc_date
next_period_start-day at h =
    let (a, b, c) = year_IsLast at in
    let (d, e, f) = month_IsLast at in
    ap (date_utc (get_utc_full_year at) (get_utc_month at + 1)) (
      one_more
        (day_in_year at - days_before_month (is_leap (get_utc_full_year at)) (get_utc_month at)))
    ∙ date_utc_lem (get_utc_full_year at) (get_utc_month at)
        (suc
          (day_in_year at - days_before_month (is_leap (get_utc_full_year at)) (get_utc_month at)))
        (year_modern at h) e
    ∙ ap (λ n. n * day_ms)
        (whole (days_before_year (get_utc_full_year at))
          (days_before_month (is_leap (get_utc_full_year at)) (get_utc_month at)) (at / day_ms) a d)
  where
    one_more : (n : ℕ) → suc n + 1 ≡ suc (suc n)
    one_more n = omega arith

    whole : (y m n : ℕ) → y ≤ n → m ≤ n - y → y + m + suc (n - y - m) ≡ n + 1
    whole y m n h k = omega arith

year_end-lt : (at : ℕ) → at / day_ms < days_before_year (get_utc_full_year at + 1)
year_end-lt at = go (get_utc_full_year at) (year_IsLast at)
  where
    go :
        (y : ℕ)
        → IsLast days_before_year (at / day_ms) (at / day_ms / 365) y
        → at / day_ms < days_before_year (y + 1)
    go y (a, b, c) = elim (Bool-cases (ltb y (at / day_ms / 365))) [
      | inl lt ↦ subst (λ z. at / day_ms < days_before_year z) (suc_lem y) (c (ltb→lt _ _ lt))
      | inr ge ↦ last (at / day_ms) y (ground (arith, ge))
    ]
      where
        suc_lem : (n : ℕ) → suc n ≡ n + 1
        suc_lem n = omega arith

        last : (n z : ℕ) → n / 365 ≤ z → n < days_before_year (z + 1)
        last n z h = omega (arith, h)

whole_day-lt : (at n : ℕ) → at / day_ms < n → at < n * day_ms
whole_day-lt at n h = omega (arith, h)

next_month-lt :
    (at y m : ℕ)
    → 100 ≤ y
    → days_before_year y ≤ at / day_ms
    → at / day_ms < days_before_year (y + 1)
    → IsLast (days_before_month (is_leap y)) (at / day_ms - days_before_year y) 11 m
    → at < date_utc y (m + 2) 1
unfolding date_utc
next_month-lt at y m h a l (d, e, f) = elim (Bool-cases (ltb m 11)) [
  | inl lt ↦
      let early : m < 11 = ltb→lt m 11 lt in
      let next : date_utc y (m + 2) 1
          ≡ (days_before_year y + days_before_month (is_leap y) (suc m) + 0) * day_ms =
        ap (λ k. date_utc y k 1) (two_on m) ∙ date_utc_lem y (suc m) 0 h early in
      subst (λ t. at < t) (sym next)
        (whole_day-lt at _ (inside (days_before_year y) _ (at / day_ms) a (f early)))
  | inr ge ↦
      let december : m ≡ 11 = ground (arith, e, ge) in
      let next : date_utc y (m + 2) 1 ≡ days_before_year (y + 1) * day_ms =
        ap (λ k. date_utc y (k + 2) 1) december
        ∙ ap (λ z. (month_day z 13 + 1 - 1) * day_ms) (full_year_lem y h)
        ∙ ap (λ z. (z + 1 - 1) * day_ms) (next_year_lem y)
        ∙ ap (λ z. z * day_ms) (off (days_before_year (y + 1))) in
      subst (λ t. at < t) (sym next) (whole_day-lt at _ l)
]
  where
    two_on : (k : ℕ) → k + 2 ≡ suc k + 1
    two_on k = omega arith

    off : (n : ℕ) → n + 1 - 1 ≡ n
    off n = omega arith

    inside : (y m n : ℕ) → y ≤ n → n - y < m → n < y + m + 0
    inside y m n p q = omega arith

this_month-le :
    (at y m : ℕ)
    → 100 ≤ y
    → days_before_year y ≤ at / day_ms
    → IsLast (days_before_month (is_leap y)) (at / day_ms - days_before_year y) 11 m
    → IsModern (date_utc y (m + 1) 1) × (date_utc y (m + 1) 1 ≤ at)
this_month-le at y m h a (d, e, f) =
    subst (λ t. IsModern t × (t ≤ at)) (sym (date_utc_lem y m 0 h e))
      (
        old y (days_before_month (is_leap y) m) h,
        inside (days_before_year y) (days_before_month (is_leap y) m) a d,
      )
  where
    old : (z n : ℕ) → 100 ≤ z → 36525 * day_ms ≤ (days_before_year z + n + 0) * day_ms
    old z n p = omega (arith, p)

    inside : (z n : ℕ) → z ≤ at / day_ms → n ≤ at / day_ms - z → (z + n + 0) * day_ms ≤ at
    inside z n p q = omega arith

-- A period starts no later than the times it is of, and the next one later than they are.
period_bounds :
    (kind : PeriodKind) (at : ℕ)
    → IsModern at
    → IsModern (period_start kind at)
      × (period_start kind at ≤ at)
      × (at < next_period_start kind at)
unfolding period_start next_period_start
period_bounds day at h =
    let (old, le) =
      subst (λ t. IsModern t × (t ≤ at)) (sym (period_start-day at h))
        (omega (arith, h), omega arith) in
    (old, le, subst (λ t. at < t) (sym (next_period_start-day at h)) (omega arith))
period_bounds month at h =
    let (a, b, c) = year_IsLast at in
    let (old, le) =
      this_month-le at (get_utc_full_year at) (get_utc_month at) (year_modern at h) a
        (month_IsLast at) in
    (
      old,
      le,
      next_month-lt at (get_utc_full_year at) (get_utc_month at) (year_modern at h) a
          (year_end-lt at) (month_IsLast at),
    )

-- The periods go on from a start, each to the next, until past the end.
abbrev pub IsTiling : PeriodKind → ℕ → ℕ → List Period → Type 0
IsTiling kind start to [] = to < start
IsTiling kind start to (p ∷ periods) =
    (p.from ≡ start)
    × (p.suffix ≡ period_suffix kind start)
    × (start ≤ to)
    × (start < p.to)
    × (p.to ≡ next_period_start kind start)
    × IsTiling kind p.to to periods

periods_from-IsTiling :
    (fuel : ℕ) (kind : PeriodKind) (start to : ℕ)
    → IsModern start
    → to < start + fuel
    → IsTiling kind start to (periods_from fuel kind start to)
unfolding periods_from
periods_from-IsTiling zero kind start to h f = omega (arith, f)
periods_from-IsTiling (suc fuel) kind start to h f =
    let (old, le, lt) = period_bounds kind start h in
    let next : ℕ = next_period_start kind start in
    let rest =
      periods_from-IsTiling fuel kind (next_period_start kind start) to (omega (arith, h, lt))
        (omega (arith, f, lt)) in
    go (leb start to) refl lt rest
  where
    go :
        (b : Bool)
        → leb start to ≡ b
        → start < next_period_start kind start
        → IsTiling kind
            (next_period_start kind start)
            to
            (periods_from fuel kind (next_period_start kind start) to)
        → IsTiling kind start to (elim b [
          | true ↦
              record {
                suffix = period_suffix kind start;
                from = start;
                to = next_period_start kind start;
              }
              ∷ periods_from fuel kind (next_period_start kind start) to
          | false ↦ []
        ])
    go true e l r = (refl, refl, leb→le start to e, l, refl, r)
    go false e l r = ground (arith, e)

-- The periods that cover a range, from the year 100 on, start no later than it does, each goes on
-- where the one before ends, and they end past it: the loop ends, and leaves no time out.
pub periods_covering-IsTiling :
    (kind : PeriodKind) (from to : ℕ)
    → IsModern from
    → (period_start kind from ≤ from)
      × IsTiling kind (period_start kind from) to (periods_covering kind from to)
unfolding periods_covering
periods_covering-IsTiling kind from to h =
    let (old, le, lt) = period_bounds kind from h in
    (
      le,
      periods_from-IsTiling (suc to - period_start kind from) kind (period_start kind from) to old
          (enough (period_start kind from)),
    )
  where
    enough : (start : ℕ) → to < start + (suc to - start)
    enough start = omega arith
