-- ===== src/Scheduling/Recorder/Laws.antt =====
-- The bounds on the retries of a terminal write, and what its result says.
use probeboard_api.Common.{
  ℕ, zero, suc, ◌+◌, ◌-◌, ◌*◌, ◌≤◌, ◌<◌, ◌≡◌, refl, inl, inr, true, false, not, ◌&&◌, Option, none,
  some, List, [], ◌∷◌, ◌++◌, arith, ltb, ◌==◌, ==_iff, Bool-cases, All, All-append,
}
use probeboard_api.Scheduling.Recorder.{
  WriteBudget, Transaction, insert_failed, release_failed, committed, Event, tried, slept, Recorded,
  stored, lost, backoff, error_of, readings_before, settle_attempt, is_over, record_from,
  record_and_release,
}

abbrev pub tries : List Event → ℕ
tries [] = 0
tries (tried attempt start timeouts ∷ events) = suc (tries events)
tries (slept attempt ms ∷ events) = tries events

module _ {ℓ} {E : Type ℓ} (write_attempts backoff_ms : ℕ) (budget : ℕ → WriteBudget)
    (transaction : ℕ → Transaction E) where
  -- An attempt is one of those allowed, none of its statements runs without a timeout, and a retry
  -- saw a budget that had not expired; a backoff stays within its step and within the budget that
  -- was read.
  abbrev pub IsBounded : Event → Type 0
  IsBounded (tried attempt start timeouts) =
      (1 ≤ attempt)
      × (attempt ≤ write_attempts)
      × All (λ t. 1 ≤ t) timeouts
      × (1 < attempt → (budget (start - 1)).expired ≡ false)
  IsBounded (slept attempt ms) =
      (attempt < write_attempts)
      × (ms ≤ backoff_ms * attempt)
      × ((reading : ℕ) × ((budget reading).expired ≡ false) × (ms ≤ (budget reading).timeout_ms))

  abbrev pub Fails : Event → Type ℓ
  Fails (tried attempt start timeouts) =
      (e : E) × (error_of write_attempts backoff_ms budget transaction (transaction attempt)
        ≡ some e)
  Fails (slept attempt ms) = Unit

  -- A result that is stored is that of an attempt that committed; where it is lost, every attempt
  -- failed.
  abbrev pub Explains : Recorded E → List Event → Type ℓ
  Explains (stored inserted released) events =
      (attempt : ℕ) × (1 ≤ attempt)
      × (attempt ≤ write_attempts)
      × (transaction attempt ≡ committed inserted released)
  Explains (lost last) events = All Fails events

  abbrev Rules : Recorded E × List Event → ℕ → Type ℓ
  Rules (result, events) left =
      (tries events ≤ left) × All IsBounded events × Explains result events

  backoff-IsBounded :
      (attempt reading : ℕ)
      → All IsBounded (backoff write_attempts backoff_ms budget transaction attempt reading)
  backoff-IsBounded attempt reading =
      elim (Bool-cases (ltb attempt write_attempts && not (budget reading).expired)) [
        | inr none' ↦ rw none' tt
        | inl goes ↦
            rw goes (
              (ground (arith, goes), omega arith, (reading, ground (arith, goes), omega arith)),
              tt,
            )
      ]

  backoff-tries :
      (attempt reading : ℕ) (events : List Event)
      → tries (backoff write_attempts backoff_ms budget transaction attempt reading ++ events)
        ≡ tries events
  backoff-tries attempt reading events =
      elim (Bool-cases (ltb attempt write_attempts && not (budget reading).expired)) [
        | inr none' ↦ rw none' refl
        | inl goes ↦ rw goes refl
      ]

  backoff-Explains :
      (attempt reading : ℕ) (result : Recorded E) (events : List Event) (e : Event)
      → Fails e
      → Explains result events
      → Explains result
          (e ∷ (backoff write_attempts backoff_ms budget transaction attempt reading ++ events))
  backoff-Explains attempt reading (stored i r) events e f h = h
  backoff-Explains attempt reading (lost last) events e f h =
      elim (Bool-cases (ltb attempt write_attempts && not (budget reading).expired)) [
        | inr none' ↦ rw none' (f, h)
        | inl goes ↦ rw goes (f, (tt, h))
      ]

  settle_attempt-Rules :
      (attempt start left : ℕ) (t : Transaction E) (rest : Recorded E × List Event)
      → transaction attempt ≡ t
      → 1 ≤ attempt
      → attempt ≤ write_attempts
      → (1 < attempt → (budget (start - 1)).expired ≡ false)
      → Rules rest left
      → Rules
          (settle_attempt write_attempts backoff_ms budget transaction attempt start t rest)
          (suc left)
  settle_attempt-Rules attempt start left (committed i r) rest e lo hi live h =
      (omega arith, ((lo, hi, (omega arith, (omega arith, tt)), live), tt), (attempt, lo, hi, e))
  settle_attempt-Rules attempt start left (insert_failed x) (result, events) e lo hi live
        (n, b, why) =
      (
        rw (backoff-tries attempt (start + 1) events) (omega (arith, n)),
        (
          (lo, hi, (omega arith, tt), live),
          All-append IsBounded _ events (backoff-IsBounded attempt (start + 1)) b,
        ),
        backoff-Explains attempt (start + 1) result events _ (x, rw e refl) why,
      )
  settle_attempt-Rules attempt start left (release_failed x) (result, events) e lo hi live
        (n, b, why) =
      (
        rw (backoff-tries attempt (start + 2) events) (omega (arith, n)),
        (
          (lo, hi, (omega arith, (omega arith, tt)), live),
          All-append IsBounded _ events (backoff-IsBounded attempt (start + 2)) b,
        ),
        backoff-Explains attempt (start + 2) result events _ (x, rw e refl) why,
      )

  record_from-Rules :
      (left attempt reading : ℕ) (last : Option E)
      → 1 ≤ attempt
      → attempt + left ≡ suc write_attempts
      → Rules
          (record_from write_attempts backoff_ms budget transaction left attempt reading last)
          left
  unfolding record_from
  record_from-Rules zero attempt reading last lo sum = (omega arith, tt, tt)
  record_from-Rules (suc left) attempt reading last lo sum =
      elim (Bool-cases (is_over write_attempts backoff_ms budget transaction attempt reading)) [
        | inl over ↦ rw over (omega arith, tt, tt)
        | inr live ↦ rw live (
            settle_attempt-Rules attempt _ left (transaction attempt) _ refl lo (omega (arith, sum))
              (goes live)
              (record_from-Rules left (suc attempt) _ _ (omega arith) (omega (arith, sum))))
      ]
    where
      goes :
          is_over write_attempts backoff_ms budget transaction attempt reading ≡ false
          → 1 < attempt
          → (budget (
              readings_before write_attempts backoff_ms budget transaction attempt reading
              - 1)).expired
            ≡ false
      goes live more =
          let retry : ltb 1 attempt ≡ true = ground arith in
          rw retry (
            let same : suc reading - 1 ≡ reading = omega arith in
            rw same (ground (arith, live, retry)))

  -- A terminal write makes at most the allowed number of attempts, each within the bounds, starts
  -- no retry once the budget that it reads has expired, and never calls a result stored that no
  -- attempt committed, nor lost where one did not fail.
  pub record_and_release_rules :
      let (result, events) = record_and_release write_attempts backoff_ms budget transaction in
      (tries events ≤ write_attempts) × All IsBounded events × Explains result events
  unfolding record_and_release
  record_and_release_rules = record_from-Rules write_attempts 1 0 none (omega arith) (omega arith)

  abbrev IsStored : Recorded E → Type 0
  IsStored (stored inserted released) = Unit
  IsStored (lost last) = ⊥

  settle_attempt-IsStored :
      (attempt start : ℕ) (t : Transaction E) (rest : Recorded E × List Event)
      → IsStored rest.0
      → IsStored
          (settle_attempt write_attempts backoff_ms budget transaction attempt start t rest).0
  settle_attempt-IsStored attempt start (committed i r) rest h = tt
  settle_attempt-IsStored attempt start (insert_failed e) rest h = h
  settle_attempt-IsStored attempt start (release_failed e) rest h = h

  record_from-IsStored :
      (left attempt reading : ℕ) (last : Option E) (k i r : ℕ)
      → ((n : ℕ) → (budget n).expired ≡ false)
      → attempt ≤ k
      → k < attempt + left
      → transaction k ≡ committed i r
      → IsStored
          (record_from write_attempts backoff_ms budget transaction left attempt reading last).0
  unfolding record_from
  record_from-IsStored zero attempt reading last k i r live lo hi e = absurd (omega (arith, lo, hi))
  record_from-IsStored (suc left) attempt reading last k i r live lo hi e =
      let on : is_over write_attempts backoff_ms budget transaction attempt reading ≡ false =
        rw (live reading) (ground arith) in
      elim (Bool-cases (attempt == k)) [
        | inl here ↦ let same : attempt ≡ k = (==_iff _ _).0 here in rw (on, same, e) tt
        | inr there ↦ rw on (
            settle_attempt-IsStored attempt _ (transaction attempt) _ (
              record_from-IsStored left (suc attempt) _ _ k i r live (ground (arith, lo, there))
                (omega (arith, hi)) e))
      ]

  -- As long as the budget does not expire, a result is stored if one of the allowed attempts
  -- commits.
  pub record_and_release_stored :
      (k i r : ℕ)
      → ((n : ℕ) → (budget n).expired ≡ false)
      → 1 ≤ k
      → k ≤ write_attempts
      → transaction k ≡ committed i r
      → (inserted : ℕ) × (released : ℕ) × ((record_and_release write_attempts backoff_ms budget
            transaction).0
          ≡ stored inserted released)
  unfolding record_and_release
  record_and_release_stored k i r live lo hi e =
      go _ (record_from-IsStored write_attempts 1 0 none k i r live lo (omega (arith, hi)) e)
    where
      go :
          (result : Recorded E)
          → IsStored result
          → (inserted : ℕ) × (released : ℕ) × (result ≡ stored inserted released)
      go (stored a b) h = (a, b, refl)
      go (lost last) h = absurd h
