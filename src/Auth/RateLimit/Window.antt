-- ===== src/Auth/RateLimit/Window.antt =====
-- How many attempts a window admits, over any run of the service.
use probeboard_api.Common.{
  ℕ, suc, ◌-◌, ◌≤◌, ◌<◌, ◌≡◌, refl, ◌∙◌, inl, inr, Bool, true, false, ◌&&◌, Option, none, some,
  List, [], ◌∷◌, arith, leb, if◌then◌else◌, Bool-cases, Text, text_eq, text_eq_iff,
}
use mathlib.Core.Path.{subst}
use probeboard_api.Auth.RateLimit.{
  AuthAttemptScope, ip, email, register, same_scope, Attempt, Attempts, ReserveLimits, limited,
  is_counted, count, inserting, reserve_email, reserve, sweep, RateConfig, normalized, admit,
  admit_registration, succeeded_at,
}
use probeboard_api.Auth.RateLimit.Laws.{IsHost, count-mark_succeeded, count-prune_before}
use probeboard_api.Auth.RateLimit.Service.{
  login, registration, success, swept, step, limit_of, run, IsRun, last_of, IsLimited,
  later-IsLimited, Operation, Admission, Service, admitted, is_admission, admissions_since,
}

module _ (cfg : RateConfig) where
  -- One more row of a host counts where one more admission does.
  module _ (scope : AuthAttemptScope) (host : Text) (now : ℕ) (by : AuthAttemptScope)
      (from : Text) where
    counted_alike :
        (since id : ℕ)
        → is_counted scope host since false
            (record { id = id; scope = by; key = from; succeeded = false; occurred_at = now })
          ≡ is_admission scope host since (record { scope = by; host = from; at = now })
    counted_alike since id = go (same_scope by scope && text_eq from host) (leb since now)
      where
        go : (p q : Bool) → p && (q && true) ≡ p && q
        go p true = refl
        go p false = refl

    count-inserting :
        (since : ℕ) (s : Attempts) (log : List Admission)
        → count scope host since false s.rows ≡ admissions_since scope host since log
        → count scope host since false (inserting by from now s).rows
          ≡ admissions_since scope host since (record { scope = by; host = from; at = now } ∷ log)
    unfolding count
    count-inserting since s log e = rw (counted_alike since s.next_id, e) refl

  count_email :
      (scope : AuthAttemptScope) (host address : Text) (now since : ℕ) (s : Attempts)
      → IsHost scope
      → count scope host since false (inserting email address now s).rows
        ≡ count scope host since false s.rows
  unfolding count
  count_email scope host address now since s h = rw h refl

  same_scope-eq : (a b : AuthAttemptScope) → same_scope a b ≡ true → a ≡ b
  same_scope-eq ip ip e = refl
  same_scope-eq email email e = refl
  same_scope-eq register register e = refl
  same_scope-eq ip email e = cc
  same_scope-eq ip register e = cc
  same_scope-eq email ip e = cc
  same_scope-eq email register e = cc
  same_scope-eq register ip e = cc
  same_scope-eq register email e = cc

  module _ (scope : AuthAttemptScope) (host : Text) (now : ℕ) (is_host : IsHost scope)
      (by : AuthAttemptScope) (from : Text) (s : Service)
      (limited_before : IsLimited cfg scope host now s) where
    -- A host row and its admission, where the host has not reached its limit.
    grown-IsLimited :
        (rows : List Attempt)
        → ((since : ℕ)
            → count scope host since false rows
              ≡ count scope host since false (inserting by from now s.attempts).rows)
        → (n : ℕ) → count by from (now - cfg.auth_window_ms) false s.attempts.rows < limit_of cfg by
        → IsLimited cfg scope host now (record {
          attempts = record { next_id = n; rows = rows };
          admissions = record { scope = by; host = from; at = now } ∷ s.admissions;
        })
    grown-IsLimited rows alike n below =
        let (same, few) = limited_before in
        (
          λ since k.
              alike since
              ∙ count-inserting scope host now by from since s.attempts s.admissions (same since k),
          elim (Bool-cases (
              is_admission scope host (now - cfg.auth_window_ms)
                (record { scope = by; host = from; at = now }))) [
                  | inl e ↦ rw e (
                      reached (same_scope-eq by scope (ground (arith, e)))
                        ((text_eq_iff from host).0 (ground (arith, e))))
                  | inr e ↦ rw e few
                ],
        )
      where
        reached :
            by ≡ scope
            → from ≡ host
            → suc (admissions_since scope host (now - cfg.auth_window_ms) s.admissions)
              ≤ limit_of cfg scope
        reached p q =
            let moved : count scope from (now - cfg.auth_window_ms) false s.attempts.rows
                < limit_of cfg scope =
              subst
                (λ z.
                  count z from (now - cfg.auth_window_ms) false s.attempts.rows < limit_of cfg z)
                p below in
            let here : count scope host (now - cfg.auth_window_ms) false s.attempts.rows
                < limit_of cfg scope =
              subst
                (λ z.
                  count scope z (now - cfg.auth_window_ms) false s.attempts.rows
                  < limit_of cfg scope)
                q moved in
            omega (arith, here, limited_before.0 (now - cfg.auth_window_ms) (omega arith))

    abbrev limits : ReserveLimits
    limits = record {
      since = now - cfg.auth_window_ms;
      max_per_ip = limit_of cfg by;
      max_failures_per_email = cfg.auth_max_failures_per_email;
      ip_scope = by;
    }

    reserve_email-IsLimited :
        (address : Option Text)
        → count by from (now - cfg.auth_window_ms) false s.attempts.rows < limit_of cfg by
        → IsLimited cfg scope host now
            (admitted by from now s.admissions (reserve_email limits from address now s.attempts))
    reserve_email-IsLimited none below =
        grown-IsLimited (inserting by from now s.attempts).rows (λ since. refl)
          (suc s.attempts.next_id) below
    reserve_email-IsLimited (some address) below =
        elim (Bool-cases (
          leb cfg.auth_max_failures_per_email
            (count email address (now - cfg.auth_window_ms) true s.attempts.rows))) [
              | inl full ↦ rw full limited_before
              | inr free ↦ rw free (
                  grown-IsLimited
                    (inserting email address now (inserting by from now s.attempts)).rows
                    (λ since.
                      count_email scope host address now since (inserting by from now s.attempts)
                        is_host)
                    (suc (suc s.attempts.next_id)) below)
            ]

    reserve-IsLimited :
        (address : Option Text)
        → IsLimited cfg scope host now
            (admitted by from now s.admissions (reserve limits from address now s.attempts))
    unfolding reserve
    reserve-IsLimited address =
        go (leb (limit_of cfg by) (count by from (now - cfg.auth_window_ms) false s.attempts.rows))
          refl
      where
        go :
            (b : Bool)
            → leb (limit_of cfg by) (count by from (now - cfg.auth_window_ms) false s.attempts.rows)
              ≡ b
            → IsLimited cfg scope host now (
                admitted by from now s.admissions (
                  if b
                  then (s.attempts, limited by)
                  else reserve_email limits from address now s.attempts))
        go true e = limited_before
        go false e = reserve_email-IsLimited address (ground (arith, e))

  step-IsLimited :
      (scope : AuthAttemptScope) (host : Text) (o : Operation) (now : ℕ) (s : Service)
      → IsHost scope
      → cfg.auth_window_ms ≤ cfg.auth_attempt_retention_ms
      → IsLimited cfg scope host now s
      → IsLimited cfg scope host now (step cfg o now s)
  unfolding admit admit_registration succeeded_at sweep
  step-IsLimited scope host (login from address) now s h t i =
      reserve-IsLimited scope host now h ip from s i (normalized address)
  step-IsLimited scope host (registration from) now s h t i =
      reserve-IsLimited scope host now h register from s i none
  step-IsLimited scope host (success from address) now s h t (same, few) = (
    λ since k.
        count-mark_succeeded scope host since from (normalized address) now s.attempts h
        ∙ same since k,
    few,
  )
  step-IsLimited scope host swept now s h t (same, few) = (
    λ since k.
        count-prune_before scope host since (now - cfg.auth_attempt_retention_ms) s.attempts
          (omega (arith, t, k))
        ∙ same since k,
    few,
  )

  run-IsLimited :
      (scope : AuthAttemptScope) (host : Text) (last : ℕ) (steps : List (Operation × ℕ))
      (s : Service)
      → IsHost scope
      → cfg.auth_window_ms ≤ cfg.auth_attempt_retention_ms
      → IsRun cfg last steps
      → IsLimited cfg scope host last s
      → IsLimited cfg scope host (last_of cfg last steps) (run cfg steps s)
  run-IsLimited scope host last [] s h t r i = i
  run-IsLimited scope host last ((o, now) ∷ rest) s h t (later, r) i =
      run-IsLimited scope host now rest (step cfg o now s) h t r
        (step-IsLimited scope host o now s h t (later-IsLimited cfg scope host last now s later i))

  abbrev pub empty : Service
  empty = record { attempts = record { next_id = 0; rows = [] }; admissions = [] }

  -- Over any run from an empty table in which the clock does not go back, and where attempts are
  -- retained for the window at least, an address is let through no more often in the window up to
  -- the last step than the limit: the one of logins for logins, and the one of registrations for
  -- registrations, whatever succeeds and is swept in between.
  pub admissions_rules :
      (host : Text) (steps : List (Operation × ℕ))
      → cfg.auth_window_ms ≤ cfg.auth_attempt_retention_ms
      → IsRun cfg 0 steps
      → let since = last_of cfg 0 steps - cfg.auth_window_ms in
        (admissions_since ip host since (run cfg steps empty).admissions ≤ cfg.auth_max_per_ip)
        × (admissions_since register host since (run cfg steps empty).admissions
            ≤ cfg.auth_max_registrations_per_ip)
  unfolding count
  admissions_rules host steps t r = (
    (run-IsLimited ip host 0 steps empty refl t r (λ since k. refl, omega arith)).1,
    (run-IsLimited register host 0 steps empty refl t r (λ since k. refl, omega arith)).1,
  )
