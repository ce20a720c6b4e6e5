-- ===== src/Scheduling/LogBackoff/Laws.antt =====
-- No failure is lost from the log, and no line comes too soon or too late.
use probeboard_api.Common.{
  ℕ, suc, ◌+◌, ◌≤◌, ◌<◌, ◌≡◌, refl, inl, inr, true, false, Option, none, some, List, [], ◌∷◌, arith,
  ltb, Bool-cases, length, All,
}
use probeboard_api.Scheduling.LogBackoff.{
  FailureReport, LogBackoff, create, is_quiet, failure, success,
}

-- The failures that a line tells of: itself and the ones held back before it.
abbrev pub told : Option FailureReport → ℕ
told none = 0
told (some r) = suc r.suppressed

-- A call of the backoff, with the reading of the clock.
pub data Call : Type 0 where
  failed : ℕ → Call
  succeeded : Call

module _ (initial_ms max_ms : ℕ) where
  -- The state after the failures of a run, the first one first, and what their lines tell of.
  pub failures_from : List ℕ → LogBackoff → ℕ × LogBackoff
  failures_from [] s = (0, s)
  failures_from (at ∷ times) s =
      let (line, after) = failure initial_ms max_ms at s in
      let (later, last) = failures_from times after in (told line + later, last)

  unfoldable pub after_calls : List Call → LogBackoff → LogBackoff
  after_calls [] s = s
  after_calls (failed at ∷ calls) s = after_calls calls (failure initial_ms max_ms at s).1
  after_calls (succeeded ∷ calls) s = after_calls calls (success initial_ms max_ms s).1

  -- In a run of failures the interval lies between the bounds, and outside of one it is reset.
  record IsPaced (s : LogBackoff) : Type 0 where
    low : initial_ms ≤ s.interval_ms
    high : s.interval_ms ≤ max_ms

  failure-told :
      (at : ℕ) (s : LogBackoff)
      → let (line, after) = failure initial_ms max_ms at s in
        (told line + after.suppressed ≡ suc s.suppressed) × (after.failures ≡ suc s.failures)
  unfolding failure
  failure-told at s = elim (Bool-cases (is_quiet initial_ms max_ms at s)) [
    | inl quiet ↦ rw quiet (omega arith, refl)
    | inr loud ↦ rw loud (omega arith, refl)
  ]

  failure-IsPaced :
      (at : ℕ) (s : LogBackoff)
      → initial_ms ≤ max_ms
      → IsPaced s
      → IsPaced (failure initial_ms max_ms at s).1
  unfolding failure
  failure-IsPaced at s k h = elim (Bool-cases (is_quiet initial_ms max_ms at s)) [
    | inl quiet ↦ rw quiet (record { low = h.low; high = h.high })
    | inr loud ↦ elim (Bool-cases (ltb 1 (suc s.failures))) [
      | inl later ↦ rw (loud, later) (record { low = omega (arith, k, h.low); high = omega arith })
      | inr first ↦ rw (loud, first) (record { low = h.low; high = h.high })
    ]
  ]

  after_calls-IsPaced :
      (calls : List Call) (s : LogBackoff)
      → initial_ms ≤ max_ms
      → IsPaced s
      → IsPaced (after_calls calls s)
  unfolding after_calls success
  after_calls-IsPaced [] s k h = h
  after_calls-IsPaced (failed at ∷ calls) s k h =
      after_calls-IsPaced calls _ k (failure-IsPaced at s k h)
  after_calls-IsPaced (succeeded ∷ calls) s k h =
      after_calls-IsPaced calls _ k (record { low = omega arith; high = k })

  -- Over any failures, what the lines tell of and what is still held back are all the failures,
  -- each once, on top of what was held back before.
  pub failures_from-told :
      (times : List ℕ) (s : LogBackoff)
      → let (lines, last) = failures_from times s in
        (lines + last.suppressed ≡ s.suppressed + length times)
        × (last.failures ≡ s.failures + length times)
  unfolding failures_from
  failures_from-told [] s = (omega arith, omega arith)
  failures_from-told (at ∷ times) s =
      let (lines, count) = failures_from-told times (failure initial_ms max_ms at s).1 in
      let (line, more) = failure-told at s in
      (omega (arith, lines, line), omega (arith, count, more))

  -- A line was written at `at` in the run of failures that goes on.
  record IsDue (at : ℕ) (s : LogBackoff) : Type 0 where
    soon : at + initial_ms ≤ s.next_log_at
    late : s.next_log_at ≤ at + max_ms
    running : 1 ≤ s.failures

  failure-IsDue :
      (at : ℕ) (s : LogBackoff) (report : FailureReport)
      → initial_ms ≤ max_ms
      → IsPaced s
      → (failure initial_ms max_ms at s).0 ≡ some report
      → IsDue at (failure initial_ms max_ms at s).1
  unfolding failure
  failure-IsDue at s report k h e = elim (Bool-cases (is_quiet initial_ms max_ms at s)) [
    | inl quiet ↦ let none' : none ≡ some report = rw quiet at e in cc
    | inr loud ↦ elim (Bool-cases (ltb 1 (suc s.failures))) [
      | inl later ↦
          rw (loud, later)
            (record { soon = omega (arith, k, h.low); late = omega arith; running = omega arith })
      | inr first ↦
          rw (loud, first)
            (record {
              soon = omega (arith, h.low);
              late = omega (arith, h.high);
              running = omega arith;
            })
    ]
  ]

  failure-quiet :
      (at t : ℕ) (s : LogBackoff)
      → IsDue at s
      → t < at + initial_ms
      → ((failure initial_ms max_ms t s).0 ≡ none) × IsDue at (failure initial_ms max_ms t s).1
  unfolding failure
  failure-quiet at t s h k =
      let quiet : is_quiet initial_ms max_ms t s ≡ true = ground (arith, h.soon, h.running) in
      rw quiet (refl, record { soon = h.soon; late = h.late; running = omega arith })

  failure-loud :
      (at t : ℕ) (s : LogBackoff)
      → IsDue at s
      → at + max_ms ≤ t
      → (r : FailureReport) × ((failure initial_ms max_ms t s).0 ≡ some r)
  unfolding failure
  failure-loud at t s h k =
      let loud : is_quiet initial_ms max_ms t s ≡ false = ground (arith, h.late) in
      rw loud (_, refl)

  failures_from-quiet :
      (at : ℕ) (times : List ℕ) (s : LogBackoff)
      → IsDue at s
      → All (λ t. t < at + initial_ms) times
      → ((failures_from times s).0 ≡ 0) × IsDue at (failures_from times s).1
  unfolding failures_from
  failures_from-quiet at [] s h k = (refl, h)
  failures_from-quiet at (t ∷ times) s h (k, later) =
      let (silent, due) = failure-quiet at t s h k in
      let (none', last) = failures_from-quiet at times _ due later in
      (rw silent (omega (arith, none')), last)

  -- Whatever came before, once a failure is logged, the failures of the same run are held back for
  -- the initial interval at least, and one that comes when the longest interval has passed is
  -- logged; the initial interval is at most the longest.
  pub failure-paced :
      (calls : List Call) (at t : ℕ) (times : List ℕ) (report : FailureReport)
      → initial_ms ≤ max_ms
      → (failure initial_ms max_ms at (after_calls calls (create initial_ms max_ms))).0
        ≡ some report
      → All (λ x. x < at + initial_ms) times
      → at + max_ms ≤ t
      → let logged =
          (failure initial_ms max_ms at (after_calls calls (create initial_ms max_ms))).1 in
        let (lines, last) = failures_from times logged in
        (lines ≡ 0) × ((r : FailureReport) × ((failure initial_ms max_ms t last).0 ≡ some r))
  failure-paced calls at t times report k e quiet late =
      let paced =
        after_calls-IsPaced calls (create initial_ms max_ms) k
          (record { low = omega arith; high = k }) in
      let (none', due) =
        failures_from-quiet at times _ (failure-IsDue at _ report k paced e) quiet in
      (none', failure-loud at t _ due late)
