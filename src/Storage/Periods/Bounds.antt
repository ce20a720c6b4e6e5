-- ===== src/Storage/Periods/Bounds.antt =====
-- The parts of a date are the last that have started, and a date is made of its parts.
use probeboard_api.Common.{
  ℕ, zero, suc, ◌+◌, ◌-◌, ◌*◌, ◌/◌, ◌%◌, ◌≤◌, ◌<◌, ◌≡◌, refl, sym, ap, ◌∙◌, inl, inr, true, false,
  arith, leb, ◌==◌, leb→le, ==_iff, Bool-cases,
}
use mathlib.Core.Path.{subst}
use probeboard_api.Storage.Periods.{
  day_ms, days_before_year, is_leap, days_before_month, last_started, get_utc_full_year,
  day_in_year, get_utc_month, full_year, month_day, date_utc,
}

module _ (start : ℕ → ℕ) (n : ℕ) where
  last_started_hit : (k : ℕ) → leb (start (suc k)) n ≡ true → last_started start n (suc k) ≡ suc k
  unfolding last_started
  last_started_hit k e = rw (last_started, e) refl

  last_started_miss :
      (k : ℕ)
      → leb (start (suc k)) n ≡ false
      → last_started start n (suc k) ≡ last_started start n k
  unfolding last_started
  last_started_miss k e = rw (last_started, e) refl

  -- What the search gives: it has started, and if it is not the last then the next has not.
  abbrev pub IsLast : ℕ → ℕ → Type 0
  IsLast k y = (start y ≤ n) × (y ≤ k) × (y < k → n < start (suc y))

  last_started-IsLast : (k : ℕ) → start 0 ≤ n → IsLast k (last_started start n k)
  unfolding last_started
  last_started-IsLast zero h = (h, omega arith, λ l. omega (arith, l))
  last_started-IsLast (suc k) h = elim (Bool-cases (leb (start (suc k)) n)) [
    | inl le ↦
        subst (IsLast (suc k)) (sym (last_started_hit k le))
          (leb→le _ _ le, omega arith, λ l. omega (arith, l))
    | inr gt ↦
        let (a, b, c) = last_started-IsLast k h in
        subst (IsLast (suc k)) (sym (last_started_miss k gt))
          (a, omega (arith, b), λ l. further (last_started start n k) b c gt)
  ]
    where
      further :
          (y : ℕ)
          → y ≤ k
          → (y < k → n < start (suc y))
          → leb (start (suc k)) n ≡ false
          → n < start (suc y)
      further y b c gt = elim (Bool-cases (y == k)) [
        | inl e ↦ subst (λ z. n < start (suc z)) (sym ((==_iff y k).0 e)) (ground (arith, gt))
        | inr e ↦ c (ground (arith, b, e))
      ]

pub year_IsLast :
    (at : ℕ) → IsLast days_before_year (at / day_ms) (at / day_ms / 365) (get_utc_full_year at)
unfolding get_utc_full_year
year_IsLast at =
    last_started-IsLast days_before_year (at / day_ms) (at / day_ms / 365) (omega arith)

pub month_IsLast :
    (at : ℕ)
    → IsLast
        (days_before_month (is_leap (get_utc_full_year at)))
        (day_in_year at)
        11
        (get_utc_month at)
unfolding get_utc_month
month_IsLast at =
    last_started-IsLast (days_before_month (is_leap (get_utc_full_year at))) (day_in_year at) 11
      (omega arith)

pub full_year_lem : (y : ℕ) → 100 ≤ y → full_year y ≡ y
full_year_lem y h = ground arith

pub month_day_lem :
    (y m : ℕ) → m ≤ 11 → month_day y (m + 1) ≡ days_before_year y + days_before_month (is_leap y) m
month_day_lem y m h =
    let next : m + 1 ≡ suc m = omega arith in
    let same : y + m / 12 ≡ y = omega arith in
    let low : m % 12 ≡ m = omega arith in
    ap (month_day y) next
    ∙ ap (λ z. days_before_year z + days_before_month (is_leap z) (m % 12)) same
    ∙ ap (λ k. days_before_year y + days_before_month (is_leap y) k) low

pub next_year_lem : (y : ℕ) → month_day y 13 ≡ days_before_year (y + 1)
next_year_lem y = omega arith

pub date_utc_lem :
    (y m d : ℕ)
    → 100 ≤ y
    → m ≤ 11
    → date_utc y (m + 1) (suc d)
      ≡ (days_before_year y + days_before_month (is_leap y) m + d) * day_ms
unfolding date_utc
date_utc_lem y m d h k =
    ap (λ z. (month_day z (m + 1) + suc d - 1) * day_ms) (full_year_lem y h)
    ∙ ap (λ z. (z + suc d - 1) * day_ms) (month_day_lem y m k)
    ∙ ap (λ z. z * day_ms) (drop_one (days_before_year y + days_before_month (is_leap y) m))
  where
    drop_one : (n : ℕ) → n + suc d - 1 ≡ n + d
    drop_one n = omega arith
