-- ===== src/Scheduling/LogBackoff/Tests.antt =====
-- A run of failures, a line each second and then each two.
use probeboard_api.Common.{◌≡◌, refl, some, List, [], ◌∷◌, arith}
use probeboard_api.Scheduling.LogBackoff.{FailureReport, LogBackoff, create, failure, success}
use probeboard_api.Scheduling.LogBackoff.Laws.{
  Call, failed, succeeded, failures_from, after_calls, failure-paced,
}

abbrev calls : List Call
calls = failed 100 ∷ failed 200 ∷ succeeded ∷ failed 400 ∷ []

abbrev state : LogBackoff
state = after_calls 1000 4000 calls (create 1000 4000)

abbrev report : FailureReport
report = record { failures = 2; suppressed = 0 }

logs : (failure 1000 4000 1500 state).0 ≡ some report
unfolding after_calls failure success
logs = refl

failure-paced_example :
    let (lines, last) =
      failures_from 1000 4000 (1600 ∷ 2400 ∷ []) (failure 1000 4000 1500 state).1 in
    (lines ≡ 0) × ((r : FailureReport) × ((failure 1000 4000 5500 last).0 ≡ some r))
failure-paced_example =
    failure-paced 1000 4000 calls 1500 5500 (1600 ∷ 2400 ∷ []) report (omega arith) logs
      (omega arith, (omega arith, tt)) (omega arith)
