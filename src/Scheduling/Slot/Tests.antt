-- ===== src/Scheduling/Slot/Tests.antt =====
-- A slot that is probed, and a write under a shutdown.
use probeboard_api.Common.{ℕ, ◌+◌, ◌*◌, ◌≡◌, refl, none, some, [], ◌∷◌, ◌==◌, if◌then◌else◌, codes}
use probeboard_api.Web.{Url}
use probeboard_api.Storage.OutcomeMapping.{NewProbeResult}
use probeboard_api.Probing.Probe.{Probed, ran}
use probeboard_api.Probing.Probe.Loop.{probe}
use probeboard_api.Probing.Probe.Sample.{platform, config, deps}
use probeboard_api.Scheduling.Recorder.{
  Transaction, insert_failed, committed, tried, slept, stored, record_from, record_and_release,
}
use probeboard_api.Scheduling.Slot.{
  ClaimedSlot, SchedulerConfig, abandons, persists, terminal_write_timeout_ms,
  terminal_write_budget, run_one, persist_and_release,
}
use probeboard_api.Scheduling.Slot.Laws.{IsOf, run_one_rules}

abbrev cfg : SchedulerConfig
cfg = record {
  worker_id = codes "w";
  shutdown_grace_ms = 10000;
  result_write_attempts = 3;
  result_write_backoff_ms = 200;
}

abbrev slot : ClaimedSlot
slot = record { endpoint_id = codes "e"; scheduled_at = 5000; scheduled_interval_s = 30 }

abbrev clock : ℕ → ℕ
clock n = 900 + 50 * n

abbrev fails_once : ℕ → Transaction ℕ
fails_once n = if n == 1 then insert_failed 9 else committed 1 1

-- The backoff is cut to what is left of the grace, and the second attempt is made in time.
cuts :
    persist_and_release cfg (λ n. some 1010) clock fails_once
    ≡ (stored 1 1, tried 1 0 (110 ∷ []) ∷ slept 1 60 ∷ tried 2 3 (1 ∷ 1 ∷ []) ∷ [])
unfolding persist_and_release record_and_release record_from terminal_write_budget
    terminal_write_timeout_ms
cuts = refl

run_one_rules_example :
    (run_one cfg platform deps slot (codes "a") none ≡ abandons)
    × (platform.urls.parse config.url ≡ none
        → run_one cfg platform deps slot (codes "a") (some config) ≡ abandons)
    × ((origin : Url)
        → platform.urls.parse config.url ≡ some origin
        → (p : Probed) × (probe platform config deps ≡ ran p)
          × ((row : NewProbeResult) × (run_one cfg platform deps slot (codes "a") (some config)
                ≡ persists row)
              × IsOf cfg platform deps slot (codes "a") config p.outcome row))
run_one_rules_example = run_one_rules cfg platform deps slot (codes "a") config
