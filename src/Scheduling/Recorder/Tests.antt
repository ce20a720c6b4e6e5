-- ===== src/Scheduling/Recorder/Tests.antt =====
-- A write that commits on its third attempt, and one that the shutdown cuts short.
use probeboard_api.Common.{
  ℕ, ◌-◌, ◌*◌, ◌≤◌, ◌≡◌, refl, false, some, [], ◌∷◌, arith, ltb, ◌==◌, if◌then◌else◌, All,
}
use probeboard_api.Scheduling.Recorder.{
  WriteBudget, Transaction, insert_failed, release_failed, committed, tried, slept, stored, lost,
  record_from, record_and_release,
}
use probeboard_api.Scheduling.Recorder.Laws.{
  tries, IsBounded, Explains, record_and_release_rules, record_and_release_stored,
}

abbrev transaction : ℕ → Transaction ℕ
transaction n =
    if n == 3 then committed 1 0 else if n == 2 then release_failed 8 else insert_failed 7

abbrev budget : ℕ → WriteBudget
budget n = record { timeout_ms = 1000 - 100 * n; expired = false }

abbrev short : ℕ → WriteBudget
short n = record { timeout_ms = 5 - n; expired = ltb 1 n }

stores : (record_and_release 5 200 budget transaction).0 ≡ stored 1 0
unfolding record_and_release record_from
stores = refl

-- After the backoff the next reading finds the grace over, and there is no retry.
loses :
    record_and_release 5 200 short transaction
    ≡ (lost (some 7), tried 1 0 (5 ∷ []) ∷ slept 1 4 ∷ [])
unfolding record_and_release record_from
loses = refl

record_and_release_rules_example :
    let (result, events) = record_and_release 5 200 budget transaction in
    (tries events ≤ 5)
    × All (IsBounded 5 200 budget transaction) events
    × Explains 5 200 budget transaction result events
record_and_release_rules_example = record_and_release_rules 5 200 budget transaction

never : (n : ℕ) → (budget n).expired ≡ false
never n = refl

record_and_release_stored_example :
    (inserted : ℕ) × (released : ℕ) × ((record_and_release 5 200 budget transaction).0
      ≡ stored inserted released)
record_and_release_stored_example =
    record_and_release_stored 5 200 budget transaction 3 1 0 never (omega arith) (omega arith) refl
