-- ===== src/Scheduling/Slot.antt =====
-- worker/scheduler/scheduler.service.ts: one claimed slot, from the load of its configuration to
-- its terminal write.
pub mod Laws
mod Tests
use probeboard_api.Common.{
  ℕ, zero, suc, ◌-◌, min, max, refl, sym, ap, inl, inr, Bool, true, false, not, and-eq-true_iff,
  Option, none, some, List, [], map, append_assoc, append-nil, arith, ltb, leb, ltb→lt, lt→ltb,
  leb→le, ==_iff, tests, Bool-cases, Option-cases, length, get_elem?, get_or, take, replicate,
  length-append, length-take, all, any, find, All, All-append, ℤ, pos, negsuc, sub_ℕ, Text, codes,
  text_eq, text_eq_iff, starts_with, includes, has, lower_unit, upper_unit, to_lower_case,
  to_upper_case,
}
use probeboard_api.Probing.Probe.{
  EndpointProbeConfig, ProbeDeps, Platform, ProbeOutcome, Probed, ProbeResult, ran, bad_url,
  out_of_fuel,
}
use probeboard_api.Probing.Probe.Loop.{probe}
use probeboard_api.Storage.OutcomeMapping.{ResultContext, NewProbeResult, to_result_row}
use probeboard_api.Scheduling.Recorder.{
  WriteBudget, Transaction, Recorded, Event, record_and_release,
}

-- The slot that a claim returned.
pub record ClaimedSlot : Type 0 where
  pub endpoint_id : Text
  pub scheduled_at : ℕ
  pub scheduled_interval_s : ℕ

pub record SchedulerConfig : Type 0 where
  pub worker_id : Text
  pub shutdown_grace_ms : ℕ
  pub result_write_attempts : ℕ
  pub result_write_backoff_ms : ℕ

-- The terminal write that a slot comes to.
pub data SlotEnd : Type 0 where
  abandons : SlotEnd
  persists : NewProbeResult → SlotEnd

abbrev pub context_of : SchedulerConfig → ClaimedSlot → Text → ResultContext
context_of cfg slot attempt_id = record {
  endpoint_id = slot.endpoint_id;
  slot = slot.scheduled_at;
  interval_s = slot.scheduled_interval_s;
  worker_id = cfg.worker_id;
  attempt_id = attempt_id;
}

-- `none` is a shutdown that has not begun, and else it is when the grace ends.
unfoldable pub terminal_write_timeout_ms : SchedulerConfig → Option ℕ → ℕ → ℕ
terminal_write_timeout_ms cfg none now = cfg.shutdown_grace_ms
terminal_write_timeout_ms cfg (some deadline) now = max 1 (deadline - now)

abbrev pub is_past : Option ℕ → ℕ → Bool
is_past none now = false
is_past (some deadline) now = leb deadline now

unfoldable pub terminal_write_budget : SchedulerConfig → Option ℕ → ℕ → WriteBudget
unfolding terminal_write_timeout_ms
terminal_write_budget cfg deadline now = record {
  timeout_ms = terminal_write_timeout_ms cfg deadline now;
  expired = is_past deadline now;
}

module _ (cfg : SchedulerConfig) (env : Platform) (deps : ProbeDeps) where
  abbrev pub probed : ClaimedSlot → Text → ProbeResult → SlotEnd
  probed slot attempt_id (ran p) =
      persists (to_result_row p.outcome (context_of cfg slot attempt_id))
  probed slot attempt_id bad_url = abandons
  probed slot attempt_id out_of_fuel = abandons

  -- `none` is a load that failed or exceeded its budget.
  unfoldable pub run_one : ClaimedSlot → Text → Option EndpointProbeConfig → SlotEnd
  run_one slot attempt_id none = abandons
  run_one slot attempt_id (some loaded) = probed slot attempt_id (probe env loaded deps)

-- `clock n` is the n-th reading of the wall clock by the budget, and `deadline n` whether a
-- shutdown had begun by then.
unfoldable pub persist_and_release {ℓ} :
    {E : Type ℓ}
    → SchedulerConfig
    → (ℕ → Option ℕ)
    → (ℕ → ℕ)
    → (ℕ → Transaction E)
    → Recorded E × List Event
persist_and_release cfg deadline clock transaction =
    record_and_release cfg.result_write_attempts cfg.result_write_backoff_ms
      (λ n. terminal_write_budget cfg (deadline n) (clock n)) transaction
