-- ===== src/Storage/Retention/Tests.antt =====
-- Tests and the witness of the retention.
use probeboard_api.Common.{
  ℕ, ◌≡◌, refl, true, false, some, List, [], ◌∷◌, ◌==◌, if◌then◌else◌, Text, codes, text_eq,
}
use probeboard_api.Storage.Periods.{
  date_utc, get_utc_full_year, get_utc_month, get_utc_date, last_started, period_from_suffix,
  next_period_start,
}
use probeboard_api.Storage.Expiry.{RetentionConfig}
use probeboard_api.Storage.Retention.{
  unfolded_rows, concurrently, set_lock_timeout, detach_partition, drop_table, Database, Turn, done,
  lock_lost, Pass, session_run, drop_partition, detach_and_drop, remove_expired, run_family,
  run_retention,
}
use probeboard_api.Storage.Retention.Safety.{run_retention-IsSound}
use probeboard_api.Storage.Retention.Session.{IsSound}

abbrev cfg : RetentionConfig
cfg = record {
  retention_raw_days = 10;
  retention_claim_log_days = 10;
  retention_m1_days = 10;
  retention_h1_days = 10;
  maintenance_lock_timeout_ms = 2000;
}

abbrev raw_names : List Text
raw_names =
    codes "probe_results_p20240112"
    ∷ codes "probe_results_p20240110"
    ∷ codes "probe_results_p20240111"
    ∷ codes "probe_results_p20240199"
    ∷ []

-- The partition of the eleventh has a row not folded.
abbrev db : Database
db = record {
  pending_detaches = λ parent. [];
  attached = λ parent. if text_eq parent (codes "probe_results") then raw_names else [];
  detached =
      λ parent. if text_eq parent (codes "claim_log") then codes "claim_log_p20240101" ∷ [] else [];
  has_unfolded = λ name. text_eq name (codes "probe_results_p20240111");
  has_unfolded_between = λ lo hi. false;
}

abbrev healthy : Turn
healthy = record {
  lost_before = false;
  carried_out = true;
  lost_during = false;
  unavailable = false;
}

abbrev broken : Turn
broken = record {
  lost_before = false;
  carried_out = false;
  lost_during = false;
  unavailable = true;
}

-- The pass of 2024-01-22, in which the session is lost with the fourth statement.
abbrev turns : ℕ → Turn
turns n = if n == 3 then broken else healthy

abbrev now : ℕ
now = 63873100800000

now_test : now ≡ date_utc 2024 1 22
unfolding date_utc
now_test = refl

abbrev whole : Pass
whole = record {
  lost = false;
  sent =
      (drop_table (codes "claim_log_p20240101"), true)
      ∷ (drop_table (codes "probe_results_p20240110"), true)
      ∷ (
        detach_partition (codes "probe_results") (codes "probe_results_p20240110") concurrently,
        true,
      )
      ∷ (set_lock_timeout 2000, true)
      ∷ [];
  dropped = codes "claim_log_p20240101" ∷ codes "probe_results_p20240110" ∷ [];
  blocked = (codes "probe_results_p20240111", unfolded_rows (codes "probe_results")) ∷ [];
  deferred = [];
}

abbrev cut : Pass
cut = record {
  lost = true;
  sent =
      (drop_table (codes "claim_log_p20240101"), false)
      ∷ (drop_table (codes "probe_results_p20240110"), true)
      ∷ (
        detach_partition (codes "probe_results") (codes "probe_results_p20240110") concurrently,
        true,
      )
      ∷ (set_lock_timeout 2000, true)
      ∷ [];
  dropped = codes "probe_results_p20240110" ∷ [];
  blocked = (codes "probe_results_p20240111", unfolded_rows (codes "probe_results")) ∷ [];
  deferred = [];
}

whole_test : run_retention db (λ n. healthy) cfg now true ≡ some (whole, done)
unfolding run_retention run_family remove_expired detach_and_drop drop_partition session_run
    period_from_suffix next_period_start date_utc get_utc_full_year get_utc_month get_utc_date
    last_started
whole_test = refl

cut_test : run_retention db turns cfg now true ≡ some (cut, lock_lost)
unfolding run_retention run_family remove_expired detach_and_drop drop_partition session_run
    period_from_suffix next_period_start date_utc get_utc_full_year get_utc_month get_utc_date
    last_started
cut_test = refl

run_retention-IsSound_example : IsSound db turns cfg now cut
run_retention-IsSound_example = run_retention-IsSound db turns cfg now cut lock_lost cut_test
