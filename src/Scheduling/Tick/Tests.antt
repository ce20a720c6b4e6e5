-- ===== src/Scheduling/Tick/Tests.antt =====
-- Ticks around a stop.
use probeboard_api.Common.{
  ◌≤◌, ◌≡◌, refl, true, false, none, some, List, [], ◌∷◌, arith, length, take, length-take, Text,
  codes,
}
use probeboard_api.Scheduling.ProbePool.{available, insert, replay}
use probeboard_api.Scheduling.Tick.{TickConfig, TickInput, claim_step, run_tick, start, stop}
use probeboard_api.Scheduling.Tick.Laws.{
  IsLimited, Agrees, succeeding, run_all, run_all_rules, run_tick-Agrees,
}

abbrev cfg : TickConfig
cfg = record { tick_ms = 1000; batch_size = 10; concurrency = 2; log_max_interval_ms = 60000 }

abbrev all_keys : List Text
all_keys = codes "a" ∷ codes "b" ∷ codes "c" ∷ []

abbrev input : TickInput
input = record {
  started_at = 100;
  ended_at = 350;
  adopt_fails = true;
  reconcile_fails = false;
  stops_early = false;
  stops_late = false;
  settled_before = [];
  claim = λ limit. some (take limit all_keys);
}

-- A claim fills the pool, and the next tick finds no place; the timer waits out the tick.
fills :
    ((run_all cfg (input ∷ input ∷ []) (start cfg)).claims ≡ 2 ∷ [])
    × ((run_all cfg (input ∷ input ∷ []) (start cfg)).pool ≡ codes "a" ∷ codes "b" ∷ [])
    × ((run_all cfg (input ∷ []) (start cfg)).timer ≡ some 750)
unfolding run_all run_tick start claim_step available insert replay
fills = (refl, refl, refl)

input-IsLimited : IsLimited cfg input
input-IsLimited limit keys e =
    let same : take limit all_keys ≡ keys = ground arith in
    rw (← same) (omega (arith, length-take {0} limit all_keys))

run_all_rules_example :
    let stopped = stop cfg (run_all cfg (input ∷ []) (start cfg)) in
    let last = run_all cfg (input ∷ []) stopped in
    (length (run_all cfg (input ∷ []) (start cfg)).pool ≤ 2)
    × (length last.pool ≤ 2)
    × (last.claims ≡ (run_all cfg (input ∷ []) (start cfg)).claims)
    × (last.timer ≡ none)
run_all_rules_example =
    run_all_rules cfg (input ∷ []) (input ∷ []) (input-IsLimited, tt) (input-IsLimited, tt)

run_tick-Agrees_example :
    Agrees cfg (run_tick cfg input (start cfg)) (run_tick cfg (succeeding cfg input) (start cfg))
run_tick-Agrees_example = run_tick-Agrees cfg input (start cfg)
