-- ===== src/Scheduling/ProbePool.antt =====
-- worker/scheduler/services/probe-pool.service.ts: the bounded set of probes running at once.
-- The map is the list of its keys, in order of insertion; a promise settles by an event.
pub mod Laws
mod Tests
use probeboard_api.Common.{
  ℕ, zero, suc, ◌-◌, min, max, refl, sym, ap, inl, inr, Bool, true, false, not, and-eq-true_iff,
  Option, none, some, List, [], ◌∷◌, ◌++◌, map, append_assoc, append-nil, arith, ltb, leb,
  if◌then◌else◌, ltb→lt, lt→ltb, leb→le, ==_iff, tests, Bool-cases, Option-cases, length, get_elem?,
  get_or, take, replicate, length-append, length-take, all, any, find, All, All-append, ℤ, pos,
  negsuc, sub_ℕ, Text, codes, text_eq, text_eq_iff, starts_with, includes, has, lower_unit,
  upper_unit, to_lower_case, to_upper_case,
}

abbrev pub Pool : Type 0
Pool = List Text

pub record DrainResult : Type 0 where
  pub settled : List Text
  pub still_running : List Text

unfoldable pub available : ℕ → Pool → ℕ
available capacity pool = capacity - length pool

-- `Map.set`, and `Map.delete`.
unfoldable pub insert : Text → Pool → Pool
insert key pool = if has pool key then pool else pool ++ key ∷ []

unfoldable pub delete : Text → Pool → Pool
delete key [] = []
delete key (k ∷ pool) = let rest = delete key pool in if text_eq k key then rest else k ∷ rest

-- A call of `start`, and the settlement of its promise.
pub data Event : Type 0 where
  started settled : Text → Event

abbrev pub happen : Event → Pool → Pool
happen (started key) pool = insert key pool
happen (settled key) pool = delete key pool

unfoldable pub replay : List Event → Pool → Pool
unfolding insert delete
replay [] pool = pool
replay (e ∷ events) pool = replay events (happen e pool)

unfoldable pub keep_if : (Text → Bool) → List Text → List Text
keep_if p [] = []
keep_if p (k ∷ keys) = let rest = keep_if p keys in if p k then k ∷ rest else rest

-- `drain`, where the events are the ones of the grace period.
unfoldable pub drain : List Event → Pool → DrainResult
unfolding replay keep_if
drain events at_start = record {
  settled = keep_if (λ k. not (has still k)) at_start;
  still_running = still;
}
  where
    still : List Text
    still = keep_if (λ k. has (replay events at_start) k) at_start
