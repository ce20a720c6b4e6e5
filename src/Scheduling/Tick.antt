-- ===== src/Scheduling/Tick.antt =====
-- worker/scheduler/scheduler.service.ts: the tick loop and its shutdown. What the repository
-- answers, what settles while it is awaited and the readings of the clock are a parameter of a
-- tick; a dispatched slot is known by its key.
pub mod Laws
mod Tests
use probeboard_api.Common.{
  ℕ, zero, suc, ◌-◌, min, max, refl, sym, ap, inl, inr, Bool, true, false, not, ◌||◌,
  and-eq-true_iff, Option, none, some, List, [], ◌∷◌, map, append_assoc, append-nil, arith, ltb,
  leb, ltb→lt, lt→ltb, leb→le, ==_iff, tests, Bool-cases, Option-cases, length, get_elem?, get_or,
  take, replicate, length-append, length-take, all, any, find, All, All-append, ℤ, pos, negsuc,
  sub_ℕ, Text, codes, text_eq, text_eq_iff, starts_with, includes, has, lower_unit, upper_unit,
  to_lower_case, to_upper_case,
}
use probeboard_api.Scheduling.LogBackoff.{LogBackoff, create, failure, success}
use probeboard_api.Scheduling.ProbePool.{Pool, available, insert, Event, settled, replay}

pub record TickConfig : Type 0 where
  pub tick_ms : ℕ
  pub batch_size : ℕ
  pub concurrency : ℕ
  pub log_max_interval_ms : ℕ

-- What happens in one tick. `stops_early` is a `stop()` by the time that `reconcile` has settled,
-- `stops_late` one after that.
pub record TickInput : Type 0 where
  pub started_at : ℕ
  pub ended_at : ℕ
  pub adopt_fails : Bool
  pub reconcile_fails : Bool
  pub stops_early : Bool
  pub stops_late : Bool
  pub settled_before : List Text
  -- The keys claimed under a limit, or `none` where the statement fails.
  pub claim : ℕ → Option (List Text)

pub record Scheduler : Type 0 where
  pub stopping : Bool
  -- The delay of the timer, where it is armed.
  pub timer : Option ℕ
  pub pool : Pool
  pub adopt_log : LogBackoff
  pub reconcile_log : LogBackoff
  pub tick_log : LogBackoff
  -- The limits of the claims made, the last one first.
  pub claims : List ℕ

module _ (cfg : TickConfig) where
  -- `failed` and `recovered`, without the line that is written.
  unfoldable pub logged : Bool → ℕ → LogBackoff → LogBackoff
  logged true now log = (failure cfg.tick_ms cfg.log_max_interval_ms now log).1
  logged false now log = (success cfg.tick_ms cfg.log_max_interval_ms log).1

  abbrev pub dispatch_all : List Text → Pool → Pool
  dispatch_all [] pool = pool
  dispatch_all (key ∷ keys) pool = dispatch_all keys (insert key pool)

  abbrev pub settle_all : List Text → Pool → Pool
  settle_all keys pool = replay (map settled keys) pool

  abbrev pub claimed : ℕ → ℕ → Option (List Text) → Scheduler → Scheduler
  claimed now limit none s = record s {
    claims = limit ∷ s.claims;
    tick_log = logged true now s.tick_log;
  }
  claimed now limit (some keys) s = record s {
    claims = limit ∷ s.claims;
    pool = dispatch_all keys s.pool;
    tick_log = logged false now s.tick_log;
  }

  -- `if (capacity > 0)`.
  abbrev pub claim_up_to : ℕ → TickInput → Scheduler → Scheduler
  claim_up_to zero input s = record s { tick_log = logged false input.started_at s.tick_log }
  claim_up_to (suc places) input s =
      claimed input.started_at (min cfg.batch_size (suc places))
        (input.claim (min cfg.batch_size (suc places))) s

  abbrev pub unless_stopping : Bool → ℕ → TickInput → Scheduler → Scheduler
  unless_stopping true capacity input s = s
  unless_stopping false capacity input s = claim_up_to capacity input s

  -- From the second look at `stopping` on.
  unfoldable pub claim_step : TickInput → Scheduler → Scheduler
  claim_step input s = unless_stopping s.stopping (available cfg.concurrency s.pool) input s

  -- `arm`, which does nothing once stopping.
  abbrev pub timer_of : Bool → ℕ → Option ℕ → Option ℕ
  timer_of true delay_ms timer = timer
  timer_of false delay_ms timer = some delay_ms

  abbrev pub arm : ℕ → Scheduler → Scheduler
  arm delay_ms s = record s { timer = timer_of s.stopping delay_ms s.timer }

  abbrev pub begun : TickInput → Scheduler → Scheduler
  begun input s = record s {
    timer = none;
    stopping = s.stopping || input.stops_early;
    adopt_log = logged input.adopt_fails input.started_at s.adopt_log;
    reconcile_log = logged input.reconcile_fails input.started_at s.reconcile_log;
    pool = settle_all input.settled_before s.pool;
  }

  abbrev pub stopped_late : TickInput → Scheduler → Scheduler
  stopped_late input s = record s { stopping = s.stopping || input.stops_late }

  unfoldable pub run_tick : TickInput → Scheduler → Scheduler
  unfolding claim_step
  run_tick input s =
      arm (cfg.tick_ms - (input.ended_at - input.started_at))
        (stopped_late input (claim_step input (begun input s)))

  unfoldable pub start : Scheduler
  start = arm 0 (record {
    stopping = false;
    timer = none;
    pool = [];
    adopt_log = create cfg.tick_ms cfg.log_max_interval_ms;
    reconcile_log = create cfg.tick_ms cfg.log_max_interval_ms;
    tick_log = create cfg.tick_ms cfg.log_max_interval_ms;
    claims = [];
  })

  -- `doStop`, up to the drain.
  unfoldable pub stop : Scheduler → Scheduler
  stop s = record s { stopping = true; timer = none }
