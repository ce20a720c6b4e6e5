-- ===== src/Scheduling/Slot/Laws.antt =====
-- Which terminal write a slot comes to, and when a shutdown stops its retries.
use probeboard_api.Common.{
  ℕ, suc, ◌+◌, ◌≤◌, ◌<◌, ◌≡◌, refl, ◌↔◌, true, length, Option, none, some, List, [], ◌∷◌, arith,
  Text,
}
use probeboard_api.Web.{Url}
use probeboard_api.Probing.FailureClasses.{FailureClass}
use probeboard_api.Probing.Probe.{
  EndpointProbeConfig, ProbeDeps, Platform, Verdict, ProbeOutcome, Sent, Probed, ran,
  status_matches,
}
use probeboard_api.Probing.Probe.Loop.{probe}
use probeboard_api.Probing.Probe.Invariant.{IsJudged}
use probeboard_api.Probing.Probe.Outcome.{probe_total, probe-IsJudged}
use probeboard_api.Storage.OutcomeMapping.Labels.{Labelled, probe-outcome_label}
use probeboard_api.Storage.OutcomeMapping.{
  up, outcome_label, class_column, NewProbeResult, to_result_row,
}
use probeboard_api.Scheduling.Recorder.{WriteBudget, Transaction, Event, tried, slept}
use probeboard_api.Scheduling.Slot.{
  ClaimedSlot, SchedulerConfig, abandons, persists, context_of, terminal_write_budget, run_one,
}

module _ (cfg : SchedulerConfig) (env : Platform) (deps : ProbeDeps) (slot : ClaimedSlot)
    (attempt_id : Text) where
  -- The row is of this slot and attempt, and all that it says of the probe is what the probe found:
  -- it says up exactly where the verdict is a success, and then names no failure and a status that
  -- was expected, down for a failure that is evidence against the endpoint, and unknown for others.
  pub record IsOf (config : EndpointProbeConfig) (o : ProbeOutcome) (row : NewProbeResult)
      : Type 0 where
    pub endpoint : row.endpoint_id ≡ slot.endpoint_id
    pub at_slot : row.scheduled_at ≡ slot.scheduled_at
    pub of_interval : row.interval_s ≡ slot.scheduled_interval_s
    pub worker : row.worker_id ≡ cfg.worker_id
    pub attempt : row.attempt_id ≡ attempt_id
    pub started : row.started_at ≡ o.started_at
    pub total : row.total_ms ≡ o.timings.total_ms
    pub hops : row.redirects ≡ o.redirects
    pub cut : row.truncated ≡ o.verdict.truncated
    pub status : row.status_code ≡ o.verdict.status
    pub class : row.failure_class ≡ class_column o.verdict.failure_class
    pub code : row.failure_code ≡ o.verdict.code
    pub outcome : row.outcome ≡ outcome_label o.verdict
    pub meaning : Labelled o.verdict
    pub successful : (row.outcome ≡ up) ↔ (o.verdict.success ≡ true)
    pub label : (row.outcome ≡ up) ↔ (row.failure_class ≡ none)
    pub expected :
        row.outcome ≡ up
        → (status : ℕ) × (row.status_code ≡ some status)
          × (status_matches status config.expected_status ≡ true)

  class_column-none : (c : Option FailureClass) → (class_column c ≡ none) ↔ (c ≡ none)
  class_column-none none = (λ e. refl, λ e. refl)
  class_column-none (some c) = (λ e. cc, λ e. cc)

  up-success : (v : Verdict) → (outcome_label v ≡ up) ↔ (v.success ≡ true)
  unfolding outcome_label
  up-success v = ground arith

  to_result_row-IsOf :
      (config : EndpointProbeConfig) (o : ProbeOutcome) (hops : ℕ) (sent : List Sent)
      → IsJudged env config deps hops sent o.verdict
      → Labelled o.verdict
      → IsOf config o (to_result_row o (context_of cfg slot attempt_id))
  unfolding to_result_row
  to_result_row-IsOf config o hops sent j l =
      let (in', out) = up-success o.verdict in
      let (left, right) = class_column-none o.verdict.failure_class in
      record {
        endpoint = refl;
        at_slot = refl;
        of_interval = refl;
        worker = refl;
        attempt = refl;
        started = refl;
        total = refl;
        hops = refl;
        cut = refl;
        status = refl;
        class = refl;
        code = refl;
        outcome = refl;
        meaning = l;
        successful = (in', out);
        label = (λ e. right (j.failed.0 (in' e)), λ e. out (j.failed.1 (left e)));
        expected = λ e. let g = j.granted (in' e) in (g.response.status, g.reported, g.matches);
      }

  -- A slot whose configuration was not loaded, or whose URL does not parse, is abandoned; any other
  -- is probed, which ends, and what is persisted is a row of this slot and attempt with the probe's
  -- status, failure, redirects, start and total time, which says up exactly where the probe
  -- succeeded.
  pub run_one_rules :
      (config : EndpointProbeConfig)
      → (run_one cfg env deps slot attempt_id none ≡ abandons)
        × (env.urls.parse config.url ≡ none
            → run_one cfg env deps slot attempt_id (some config) ≡ abandons)
        × ((origin : Url)
            → env.urls.parse config.url ≡ some origin
            → (p : Probed) × (probe env config deps ≡ ran p)
              × ((row : NewProbeResult) × (run_one cfg env deps slot attempt_id (some config)
                    ≡ persists row)
                  × IsOf config p.outcome row))
  unfolding run_one
  run_one_rules config = (
    refl,
    λ e. unfold probe in rw e refl,
    λ origin e.
        let (p, runs, _, _, _, _) = probe_total env config deps origin e in
        (
          p,
          runs,
          (
            to_result_row p.outcome (context_of cfg slot attempt_id),
            rw runs refl,
            to_result_row-IsOf config p.outcome _ _ (probe-IsJudged env config deps origin p e runs)
                (probe-outcome_label env config deps origin p e runs),
          ),
        ),
  )

module _ {ℓ} {E : Type ℓ} (cfg : SchedulerConfig) (at : ℕ) (clock : ℕ → ℕ)
    (transaction : ℕ → Transaction E) where
  -- Of what was done from a reading on: a retry starts only if the reading it takes is before the
  -- grace's end, and a backoff, counted from the reading after the failed attempt, ends by the
  -- grace's end. An attempt takes one reading for each of its statements.
  abbrev pub AreInGrace : ℕ → List Event → Type 0
  AreInGrace now [] = Unit
  AreInGrace now (tried attempt start timeouts ∷ events) =
      (1 < attempt → (start ≡ suc (suc now)) × (clock (suc now) < at))
      × AreInGrace (start + length timeouts) events
  AreInGrace now (slept attempt ms ∷ events) = (clock now + ms ≤ at) × AreInGrace now events

  abbrev budget : ℕ → WriteBudget
  budget n = terminal_write_budget cfg (some at) (clock n)

  abbrev attempts : ℕ
  attempts = cfg.result_write_attempts

  abbrev step : ℕ
  step = cfg.result_write_backoff_ms
