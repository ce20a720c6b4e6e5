-- ===== src/Scheduling/ProbePool/Laws.antt =====
-- What a drain reports, and the bound on the probes in flight.
use probeboard_api.Common.{
  ℕ, suc, ◌≤◌, ◌≡◌, refl, inl, inr, Bool, not, ◌&&◌, List, [], ◌∷◌, arith, Bool-cases, length,
  length-append, Text, text_eq, text_eq_iff, has,
}
use probeboard_api.Scheduling.ProbePool.{
  Pool, available, insert, delete, Event, started, settled, replay, keep_if, drain,
}

has-keep_if :
    (p : Text → Bool) (keys : List Text) (k : Text) → has (keep_if p keys) k ≡ (has keys k && p k)
unfolding keep_if
has-keep_if p [] k = refl
has-keep_if p (j ∷ keys) k = elim (Bool-cases (text_eq j k)) [
  | inl same ↦
      let e : j ≡ k = (text_eq_iff j k).0 same in
      elim (Bool-cases (p k)) [
        | inl on ↦ ground (arith, has-keep_if p keys k, on, e, same)
        | inr off ↦ ground (arith, has-keep_if p keys k, off, e, same)
      ]
  | inr other ↦ elim (Bool-cases (p j)) [
    | inl on ↦ ground (arith, has-keep_if p keys k, on, other)
    | inr off ↦ ground (arith, has-keep_if p keys k, off, other)
  ]
]

-- A drain reports of the keys that were in flight when it began, and of no other: as still running
-- the ones that are in flight when the grace ends, and as settled the others.
pub drain_rules :
    (events : List Event) (pool : Pool) (key : Text)
    → let result = drain events pool in
      (has result.still_running key ≡ (has pool key && has (replay events pool) key))
      × (has result.settled key ≡ (has pool key && not (has (replay events pool) key)))
unfolding drain
drain_rules events pool key =
    let still = has-keep_if (λ k. has (replay events pool) k) pool key in
    let gone =
      has-keep_if (λ k. not (has (keep_if (λ j. has (replay events pool) j) pool) k)) pool key in
    (still, ground (arith, still, gone))

-- `start` is called only where the pool has a place for another probe.
abbrev pub IsGated : ℕ → List Event → Pool → Type 0
IsGated capacity [] pool = Unit
IsGated capacity (started key ∷ events) pool =
    (1 ≤ available capacity pool) × IsGated capacity events (insert key pool)
IsGated capacity (settled key ∷ events) pool = IsGated capacity events (delete key pool)

pub length-delete : (key : Text) (pool : Pool) → length (delete key pool) ≤ length pool
unfolding delete
length-delete key [] = omega arith
length-delete key (k ∷ pool) = elim (Bool-cases (text_eq k key)) [
  | inl same ↦ rw same (omega (arith, length-delete key pool))
  | inr other ↦ rw other (omega (arith, length-delete key pool))
]

pub length-insert : (key : Text) (pool : Pool) → length (insert key pool) ≤ suc (length pool)
unfolding insert
length-insert key pool = elim (Bool-cases (has pool key)) [
  | inl old ↦ rw old (omega arith)
  | inr new ↦ rw new (omega (arith, length-append pool (key ∷ [])))
]

-- Where `start` is called only with a place left, the probes in flight never exceed the capacity.
pub length-replay :
    (capacity : ℕ) (events : List Event) (pool : Pool)
    → length pool ≤ capacity
    → IsGated capacity events pool
    → length (replay events pool) ≤ capacity
unfolding replay available
length-replay capacity [] pool h g = h
length-replay capacity (started key ∷ events) pool h (place, later) =
    length-replay capacity events (insert key pool) (omega (arith, place, length-insert key pool))
      later
length-replay capacity (settled key ∷ events) pool h later =
    length-replay capacity events (delete key pool) (omega (arith, length-delete key pool)) later
