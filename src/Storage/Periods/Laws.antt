-- ===== src/Storage/Periods/Laws.antt =====
-- A suffix that names a period is the one that the period is named by.
use probeboard_api.Common.{
  ℕ, ◌+◌, ◌≡◌, refl, sym, ap, ◌∙◌, inl, inr, Bool, true, false, not, ◌&&◌, Option, none, some, ◌++◌,
  append_assoc, arith, ◌==◌, if◌then◌else◌, ==_iff, Bool-cases, length, take, length-take, all,
  Text,
}
use mathlib.Core.Path.{subst}
use probeboard_api.Storage.Periods.{
  PeriodKind, day, month, pad, period_suffix, period_from_suffix, number_of, is_decimal, if_kept,
  drop, get_utc_full_year, get_utc_month, get_utc_date, date_utc,
}
use probeboard_api.Storage.Periods.Decimal.{
  pad_four, pad_two, take-drop, drop_six, length-drop, all-take, all-drop,
}

if_kept_lem :
    (y mo d at start : ℕ)
    → if_kept y mo d at ≡ some start
    → (get_utc_full_year start ≡ y) × (get_utc_month start + 1 ≡ mo) × (get_utc_date start ≡ d)
if_kept_lem y mo d at start e =
    elim (Bool-cases
      ((get_utc_full_year at == y) && (get_utc_month at + 1 == mo) && (get_utc_date at == d))) [
        | inl kept ↦
            let same : at ≡ start = ground (arith, e, kept) in
            subst
              (λ s. (get_utc_full_year s ≡ y) × (get_utc_month s + 1 ≡ mo) × (get_utc_date s ≡ d))
              same (ground (arith, kept))
        | inr other ↦ ground (arith, e, other)
      ]

if_some :
    (b : Bool) (o : Option ℕ) (n : ℕ) → (if b then o else none) ≡ some n → (b ≡ true) × (o ≡ some n)
if_some true o n e = (refl, e)
if_some false o n e = cc

unless_some :
    (b : Bool) (o : Option ℕ) (n : ℕ)
    → (if not b then none else o) ≡ some n
    → (b ≡ true) × (o ≡ some n)
unless_some true o n e = (refl, e)
unless_some false o n e = cc

joined : {a b a' b' : Text} → a ≡ a' → b ≡ b' → a ++ b ≡ a' ++ b'
joined p q = rw (p, q) refl

joined_three : {a b c a' b' c' : Text} → a ≡ a' → b ≡ b' → c ≡ c' → (a ++ b) ++ c ≡ (a' ++ b') ++ c'
joined_three p q r = rw (p, q, r) refl

split_three : (s : Text) → (take 4 s ++ take 2 (drop 4 s)) ++ drop 6 s ≡ s
split_three s =
    append_assoc (take 4 s) (take 2 (drop 4 s)) (drop 6 s)
    ∙ ap (λ (t : Text). take 4 s ++ t)
        (ap (λ (t : Text). take 2 (drop 4 s) ++ t) (sym (drop_six s)) ∙ take-drop 2 (drop 4 s))
    ∙ take-drop 4 s

-- The suffix that names a partition's period is the one that the period is named by: one period
-- has no two suffixes, and a suffix with a month or a day that there is not names none.
pub period_suffix-period_from_suffix :
    (kind : PeriodKind) (suffix : Text) (start : ℕ)
    → period_from_suffix kind suffix ≡ some start
    → period_suffix kind start ≡ suffix
unfolding period_from_suffix period_suffix
period_suffix-period_from_suffix day s start e =
    let (digits, e1) = unless_some (all is_decimal s) _ start e in
    let (eight, e2) = if_some (length s == 8) _ start e1 in
    let l : length s ≡ 8 = (==_iff (length s) 8).0 eight in
    let year : Text = take 4 s in
    let month' : Text = take 2 (drop 4 s) in
    let date : Text = drop 6 s in
    let (y, m, d) =
      if_kept_lem (number_of 0 year) (number_of 0 month') (number_of 0 date)
        (date_utc (number_of 0 year) (number_of 0 month') (number_of 0 date)) start e2 in
    joined_three
      (ap (λ n. pad n 4) y
        ∙ pad_four year (length-take 4 s ∙ omega (arith, l)) (all-take is_decimal 4 s digits))
      (ap (λ n. pad n 2) m
        ∙ pad_two month' (length-take 2 (drop 4 s) ∙ omega (arith, l, length-drop 4 s))
            (all-take is_decimal 2 (drop 4 s) (all-drop is_decimal 4 s digits)))
      (ap (λ n. pad n 2) d
        ∙ pad_two date (length-drop 6 s ∙ omega (arith, l)) (all-drop is_decimal 6 s digits))
    ∙ split_three s
period_suffix-period_from_suffix month s start e =
    let (digits, e1) = unless_some (all is_decimal s) _ start e in
    let (six, e2) = if_some (length s == 6) _ start e1 in
    let l : length s ≡ 6 = (==_iff (length s) 6).0 six in
    let year : Text = take 4 s in
    let month' : Text = drop 4 s in
    let (y, m, d) =
      if_kept_lem (number_of 0 year) (number_of 0 month') 1
        (date_utc (number_of 0 year) (number_of 0 month') 1) start e2 in
    joined
      (ap (λ n. pad n 4) y
        ∙ pad_four year (length-take 4 s ∙ omega (arith, l)) (all-take is_decimal 4 s digits))
      (ap (λ n. pad n 2) m
        ∙ pad_two month' (length-drop 4 s ∙ omega (arith, l)) (all-drop is_decimal 4 s digits))
    ∙ take-drop 4 s
