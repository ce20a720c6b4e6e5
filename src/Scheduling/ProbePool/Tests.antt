-- ===== src/Scheduling/ProbePool/Tests.antt =====
-- A drain during which one probe settles and one starts.
use probeboard_api.Common.{◌≡◌, refl, List, [], ◌∷◌, arith, codes}
use probeboard_api.Scheduling.ProbePool.{
  Pool, available, insert, delete, Event, started, settled, replay, keep_if, drain,
}
use probeboard_api.Scheduling.ProbePool.Laws.{IsGated}

abbrev pool : Pool
pool = codes "a" ∷ codes "b" ∷ []

abbrev events : List Event
events = settled (codes "a") ∷ started (codes "c") ∷ []

drains : drain events pool ≡ record { settled = codes "a" ∷ []; still_running = codes "b" ∷ [] }
unfolding drain replay keep_if insert delete
drains = refl

gated : IsGated 2 events pool
unfolding available insert delete
gated = (omega arith, tt)
