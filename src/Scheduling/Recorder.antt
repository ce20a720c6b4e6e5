-- ===== src/Scheduling/Recorder.antt =====
-- worker/scheduler/services/result-recorder.service.ts: the terminal write of a probed slot.
-- Each call of `budget()` is a reading, numbered from 0, and what the transaction of each attempt
-- comes to is a parameter.
pub mod Laws
mod Tests
use probeboard_api.Common.{
  ℕ, zero, suc, ◌+◌, ◌*◌, min, max, refl, sym, ap, inl, inr, Bool, true, false, not, ◌&&◌,
  and-eq-true_iff, Option, none, some, List, [], ◌∷◌, ◌++◌, map, append_assoc, append-nil, arith,
  ltb, leb, if◌then◌else◌, ltb→lt, lt→ltb, leb→le, ==_iff, tests, Bool-cases, Option-cases, length,
  get_elem?, get_or, take, replicate, length-append, length-take, all, any, find, All, All-append,
  ℤ, pos, negsuc, sub_ℕ, Text, codes, text_eq, text_eq_iff, starts_with, includes, has, lower_unit,
  upper_unit, to_lower_case, to_upper_case,
}

pub record WriteBudget : Type 0 where
  pub timeout_ms : ℕ
  pub expired : Bool

-- A transaction fails at the insert, fails at the release or at the commit, or commits.
pub data Transaction {ℓ} (E : Type ℓ) : Type ℓ where
  insert_failed release_failed : E → Transaction E
  committed : ℕ → ℕ → Transaction E

-- What was done: an attempt, with the readings before it and the timeouts of its statements, and
-- a backoff after an attempt.
pub data Event : Type 0 where
  tried : ℕ → ℕ → List ℕ → Event
  slept : ℕ → ℕ → Event

-- The rows inserted and released, or the last error, if there was an attempt.
pub data Recorded {ℓ} (E : Type ℓ) : Type ℓ where
  stored : ℕ → ℕ → Recorded E
  lost : Option E → Recorded E

module _ {ℓ} {E : Type ℓ} (write_attempts backoff_ms : ℕ) (budget : ℕ → WriteBudget)
    (transaction : ℕ → Transaction E) where
  -- `SET LOCAL statement_timeout`.
  abbrev pub statement_timeout : ℕ → ℕ
  statement_timeout reading = max 1 (budget reading).timeout_ms

  abbrev pub backoff : ℕ → ℕ → List Event
  backoff attempt reading =
      if ltb attempt write_attempts && not (budget reading).expired
      then slept attempt (min (backoff_ms * attempt) (budget reading).timeout_ms) ∷ []
      else []

  abbrev pub statements_of : Transaction E → ℕ
  statements_of (insert_failed e) = 1
  statements_of (release_failed e) = 2
  statements_of (committed inserted released) = 2

  abbrev pub error_of : Transaction E → Option E
  error_of (insert_failed e) = some e
  error_of (release_failed e) = some e
  error_of (committed inserted released) = none

  -- The readings before the attempt; a retry takes one to see whether the grace has passed.
  abbrev pub readings_before : ℕ → ℕ → ℕ
  readings_before attempt reading = if ltb 1 attempt then suc reading else reading

  abbrev pub first_timeout : ℕ → List ℕ
  first_timeout start = statement_timeout start ∷ []

  abbrev pub both_timeouts : ℕ → List ℕ
  both_timeouts start = statement_timeout start ∷ statement_timeout (start + 1) ∷ []

  -- How an attempt goes on, given what follows a failure.
  abbrev pub settle_attempt :
      ℕ → ℕ → Transaction E → Recorded E × List Event → Recorded E × List Event
  settle_attempt attempt start (committed inserted released) rest =
      (stored inserted released, tried attempt start (both_timeouts start) ∷ [])
  settle_attempt attempt start (insert_failed e) rest =
      (rest.0, tried attempt start (first_timeout start) ∷ (backoff attempt (start + 1) ++ rest.1))
  settle_attempt attempt start (release_failed e) rest =
      (rest.0, tried attempt start (both_timeouts start) ∷ (backoff attempt (start + 2) ++ rest.1))

  abbrev pub is_over : ℕ → ℕ → Bool
  is_over attempt reading = ltb 1 attempt && (budget reading).expired

  -- The loop from an attempt on, with the attempts that are left, the readings so far and the last
  -- error.
  unfoldable pub record_from : ℕ → ℕ → ℕ → Option E → Recorded E × List Event
  record_from zero attempt reading last = (lost last, [])
  record_from (suc left) attempt reading last =
      let start = readings_before attempt reading in
      let rest =
        record_from left (suc attempt) (suc (start + statements_of (transaction attempt)))
          (error_of (transaction attempt)) in
      if is_over attempt reading
      then (lost last, [])
      else settle_attempt attempt start (transaction attempt) rest

  unfoldable pub record_and_release : Recorded E × List Event
  unfolding record_from
  record_and_release = record_from write_attempts 1 0 none
