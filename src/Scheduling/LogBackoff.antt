-- ===== src/Scheduling/LogBackoff.antt =====
-- worker/scheduler/utils/log-backoff.ts: the pacing of one repeating log line.
-- The reading of the clock is an argument.
pub mod Laws
mod Tests
use probeboard_api.Common.{
  ℕ, zero, suc, ◌+◌, ◌*◌, min, max, refl, sym, ap, inl, inr, Bool, true, false, not, ◌&&◌,
  and-eq-true_iff, Option, none, some, List, [], map, append_assoc, append-nil, arith, ltb, leb,
  if◌then◌else◌, ltb→lt, lt→ltb, leb→le, ==_iff, tests, Bool-cases, Option-cases, length, get_elem?,
  get_or, take, replicate, length-append, length-take, all, any, find, All, All-append, ℤ, pos,
  negsuc, sub_ℕ, Text, codes, text_eq, text_eq_iff, starts_with, includes, has, lower_unit,
  upper_unit, to_lower_case, to_upper_case,
}

pub record FailureReport : Type 0 where
  pub failures : ℕ
  pub suppressed : ℕ

pub record LogBackoff : Type 0 where
  pub failures : ℕ
  pub suppressed : ℕ
  pub interval_ms : ℕ
  pub next_log_at : ℕ

module _ (initial_ms max_ms : ℕ) where
  abbrev pub create : LogBackoff
  create = record { failures = 0; suppressed = 0; interval_ms = initial_ms; next_log_at = 0 }

  abbrev pub is_quiet : ℕ → LogBackoff → Bool
  is_quiet at s = ltb 1 (suc s.failures) && ltb at s.next_log_at

  abbrev pub next_interval : LogBackoff → ℕ
  next_interval s = if ltb 1 (suc s.failures) then min (s.interval_ms * 2) max_ms else s.interval_ms

  unfoldable pub failure : ℕ → LogBackoff → Option FailureReport × LogBackoff
  failure at s =
      if is_quiet at s
      then (none, record s { failures = suc s.failures; suppressed = suc s.suppressed })
      else (
        some (record { failures = suc s.failures; suppressed = s.suppressed }),
        record {
          failures = suc s.failures;
          suppressed = 0;
          interval_ms = next_interval s;
          next_log_at = at + next_interval s;
        },
      )

  unfoldable pub success : LogBackoff → ℕ × LogBackoff
  success s = (
    s.failures,
    record { failures = 0; suppressed = 0; interval_ms = initial_ms; next_log_at = 0 },
  )
