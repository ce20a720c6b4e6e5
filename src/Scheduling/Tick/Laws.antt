-- ===== src/Scheduling/Tick/Laws.antt =====
-- The pool's bound, the independence of the steps of a tick, and what a shutdown stops.
use probeboard_api.Common.{
  ℕ, zero, suc, ◌+◌, ◌≤◌, min, ◌≡◌, refl, ap, ◌∙◌, Bool, true, false, ◌||◌, Option, none, some,
  List, [], ◌∷◌, arith, length, All, Text,
}
use mathlib.Core.Path.{subst}
use probeboard_api.Scheduling.ProbePool.{Pool, available, insert, delete, replay}
use probeboard_api.Scheduling.ProbePool.Laws.{length-insert, length-delete}
use probeboard_api.Scheduling.Tick.{
  TickConfig, TickInput, Scheduler, dispatch_all, settle_all, claimed, claim_up_to, unless_stopping,
  claim_step, begun, run_tick, start, stop,
}

module _ (cfg : TickConfig) where
  -- The database gives no more rows than the limit.
  abbrev pub IsLimited : TickInput → Type 0
  IsLimited input =
      (limit : ℕ) (keys : List Text) → input.claim limit ≡ some keys → length keys ≤ limit

  length-dispatch_all :
      (keys : List Text) (pool : Pool)
      → length (dispatch_all cfg keys pool) ≤ length pool + length keys
  length-dispatch_all [] pool = omega arith
  length-dispatch_all (key ∷ keys) pool =
      omega (arith, length-dispatch_all keys (insert key pool), length-insert key pool)

  length-settle_all :
      (keys : List Text) (pool : Pool) → length (settle_all cfg keys pool) ≤ length pool
  unfolding replay
  length-settle_all [] pool = omega arith
  length-settle_all (key ∷ keys) pool =
      omega (arith, length-settle_all keys (delete key pool), length-delete key pool)

  length-claimed :
      (now limit : ℕ) (answer : Option (List Text)) (s : Scheduler)
      → ((keys : List Text) → answer ≡ some keys → length keys ≤ limit)
      → length s.pool + limit ≤ cfg.concurrency
      → length (claimed cfg now limit answer s).pool ≤ cfg.concurrency
  length-claimed now limit none s h k = omega (arith, k)
  length-claimed now limit (some keys) s h k =
      omega (arith, length-dispatch_all keys s.pool, h keys refl, k)

  length-claim_up_to :
      (places : ℕ) (input : TickInput) (s : Scheduler)
      → IsLimited input
      → length s.pool + places ≤ cfg.concurrency
      → length (claim_up_to cfg places input s).pool ≤ cfg.concurrency
  length-claim_up_to zero input s h k = omega (arith, k)
  length-claim_up_to (suc places) input s h k =
      length-claimed input.started_at (min cfg.batch_size (suc places)) _ s (h _) (omega (arith, k))

  length-unless_stopping :
      (stopping : Bool) (places : ℕ) (input : TickInput) (s : Scheduler)
      → IsLimited input
      → length s.pool + places ≤ cfg.concurrency
      → length (unless_stopping cfg stopping places input s).pool ≤ cfg.concurrency
  length-unless_stopping true places input s h k = omega (arith, k)
  length-unless_stopping false places input s h k = length-claim_up_to places input s h k

  length-claim_step :
      (input : TickInput) (s : Scheduler)
      → IsLimited input
      → length s.pool ≤ cfg.concurrency
      → length (claim_step cfg input s).pool ≤ cfg.concurrency
  unfolding claim_step available
  length-claim_step input s h k = length-unless_stopping s.stopping _ input s h (omega (arith, k))

  -- Only the pool, the stop and the claims: the rest of the state is the logs' and the timer's.
  abbrev pub Agrees : Scheduler → Scheduler → Type 0
  Agrees s t =
      (s.pool ≡ t.pool) × (s.stopping ≡ t.stopping) × (s.claims ≡ t.claims) × (s.timer ≡ t.timer)

  -- The same tick with both of its first steps successful.
  abbrev pub succeeding : TickInput → TickInput
  succeeding input = record input { adopt_fails = false; reconcile_fails = false }

  abbrev IsBusy : Scheduler → Type 0
  IsBusy s = length s.pool ≤ cfg.concurrency

  run_tick-IsBusy :
      (input : TickInput) (s : Scheduler)
      → IsLimited input
      → IsBusy s
      → IsBusy (run_tick cfg input s)
  unfolding run_tick
  run_tick-IsBusy input s h k =
      length-claim_step input (begun cfg input s) h
        (omega (arith, length-settle_all input.settled_before s.pool, k))

  run_tick-stopped :
      (input : TickInput) (s : Scheduler)
      → s.stopping ≡ true
      → ((run_tick cfg input s).stopping ≡ true)
        × ((run_tick cfg input s).claims ≡ s.claims)
        × ((run_tick cfg input s).timer ≡ none)
  unfolding run_tick claim_step
  run_tick-stopped input s h = ground (arith, h)

  -- The ticks of a scheduler.
  unfoldable pub run_all : List TickInput → Scheduler → Scheduler
  run_all [] s = s
  run_all (input ∷ inputs) s = run_all inputs (run_tick cfg input s)

  run_all-IsBusy :
      (inputs : List TickInput) (s : Scheduler)
      → All IsLimited inputs
      → IsBusy s
      → IsBusy (run_all inputs s)
  unfolding run_all
  run_all-IsBusy [] s h k = k
  run_all-IsBusy (input ∷ inputs) s (l, h) k =
      run_all-IsBusy inputs (run_tick cfg input s) h (run_tick-IsBusy input s l k)

  run_all-stopped :
      (inputs : List TickInput) (s : Scheduler)
      → s.stopping ≡ true
      → s.timer ≡ none
      → ((run_all inputs s).claims ≡ s.claims) × ((run_all inputs s).timer ≡ none)
  unfolding run_all
  run_all-stopped [] s h k = (refl, k)
  run_all-stopped (input ∷ inputs) s h k =
      let (on, same, off) = run_tick-stopped input s h in
      let (later, none') = run_all-stopped inputs (run_tick cfg input s) on off in
      (later ∙ same, none')

  -- From the start on, over any ticks, a stop, and any ticks still under way after it, the probes
  -- in flight never exceed the concurrency, and after the stop nothing is claimed and no timer is
  -- armed. A claim gives no more rows than its limit.
  pub run_all_rules :
      (before after : List TickInput)
      → All IsLimited before
      → All IsLimited after
      → let stopped = stop cfg (run_all before (start cfg)) in
        let last = run_all after stopped in
        (length (run_all before (start cfg)).pool ≤ cfg.concurrency)
        × (length last.pool ≤ cfg.concurrency)
        × (last.claims ≡ (run_all before (start cfg)).claims)
        × (last.timer ≡ none)
  unfolding stop
  run_all_rules before after h k =
      let busy = run_all-IsBusy before (start cfg) h (unfold start in omega arith) in
      let (same, off) = run_all-stopped after (stop cfg (run_all before (start cfg))) refl refl in
      (busy, run_all-IsBusy after (stop cfg (run_all before (start cfg))) k busy, same, off)

  claimed-Agrees :
      (now limit : ℕ) (answer : Option (List Text)) (s t : Scheduler)
      → Agrees s t
      → Agrees (claimed cfg now limit answer s) (claimed cfg now limit answer t)
  claimed-Agrees now limit none s t (p, q, r, u) = (p, q, ap (◌∷◌ limit) r, u)
  claimed-Agrees now limit (some keys) s t (p, q, r, u) =
      (ap (dispatch_all cfg keys) p, q, ap (◌∷◌ limit) r, u)

  unless_stopping-Agrees :
      (stopping : Bool) (places : ℕ) (input : TickInput) (s t : Scheduler)
      → Agrees s t
      → Agrees
          (unless_stopping cfg stopping places input s)
          (unless_stopping cfg stopping places (succeeding input) t)
  unless_stopping-Agrees true places input s t h = h
  unless_stopping-Agrees false zero input s t h = h
  unless_stopping-Agrees false (suc places) input s t h = claimed-Agrees input.started_at _ _ s t h

  claim_step-Agrees :
      (input : TickInput) (s t : Scheduler)
      → Agrees s t
      → Agrees (claim_step cfg input s) (claim_step cfg (succeeding input) t)
  unfolding claim_step
  claim_step-Agrees input s t (p, q, r, u) =
      subst
        (λ b.
          Agrees (claim_step cfg input s)
            (unless_stopping cfg b (available cfg.concurrency t.pool) (succeeding input) t))
        q
        (subst
          (λ pool.
            Agrees (claim_step cfg input s) (
              unless_stopping cfg s.stopping (available cfg.concurrency pool) (succeeding input) t))
          p
          (unless_stopping-Agrees s.stopping (available cfg.concurrency s.pool) input s t
            (p, q, r, u)))

  -- A tick whose first two steps fail, one or both, claims, dispatches, stops and is armed again
  -- just as one where they succeed.
  pub run_tick-Agrees :
      (input : TickInput) (s : Scheduler)
      → Agrees (run_tick cfg input s) (run_tick cfg (succeeding input) s)
  unfolding run_tick
  run_tick-Agrees input s =
      let (p, q, r, u) =
        claim_step-Agrees input (begun cfg input s) (begun cfg (succeeding input) s)
          (refl, refl, refl, refl) in
      (p, ap (λ b. b || input.stops_late) q, r, cc (q, u))
