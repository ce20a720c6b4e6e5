-- ===== src/Auth/RateLimit/Service.antt =====
-- Runs of the service: logins, registrations, successes and sweeps.
use probeboard_api.Common.{
  ℕ, ◌-◌, ◌≤◌, ◌≡◌, Bool, false, ◌&&◌, Option, List, [], ◌∷◌, arith, leb, Text, text_eq,
}
use probeboard_api.Auth.RateLimit.{
  AuthAttemptScope, ip, email, register, same_scope, Attempts, ReserveResult, allowed, limited,
  tally, count, sweep, RateConfig, admit, admit_registration, succeeded_at,
}
use probeboard_api.Auth.RateLimit.Laws.{tally-le}

pub data Operation : Type 0 where
  login : (host : Text) → (address : Option Text) → Operation
  registration : (host : Text) → Operation
  success : (host : Text) → (address : Option Text) → Operation
  swept : Operation

-- An attempt that was let through.
pub record Admission : Type 0 where
  pub scope : AuthAttemptScope
  pub host : Text
  pub at : ℕ

-- The table, and apart from it the admissions there were.
pub record Service : Type 0 where
  pub attempts : Attempts
  pub admissions : List Admission

abbrev pub admitted :
    AuthAttemptScope → Text → ℕ → List Admission → Attempts × ReserveResult → Service
admitted scope host now log (s, allowed) = record {
  attempts = s;
  admissions = record { scope = scope; host = host; at = now } ∷ log;
}
admitted scope host now log (s, limited by) = record { attempts = s; admissions = log }

abbrev pub is_admission : AuthAttemptScope → Text → ℕ → Admission → Bool
is_admission scope host since a =
    (same_scope a.scope scope && text_eq a.host host) && leb since a.at

abbrev pub admissions_since : AuthAttemptScope → Text → ℕ → List Admission → ℕ
admissions_since scope host since log = tally (is_admission scope host since) log

module _ (cfg : RateConfig) where
  abbrev pub step : Operation → ℕ → Service → Service
  step (login host address) now s =
      admitted ip host now s.admissions (admit cfg host address now s.attempts)
  step (registration host) now s =
      admitted register host now s.admissions (admit_registration cfg host now s.attempts)
  step (success host address) now s = record {
    attempts = succeeded_at host address now s.attempts;
    admissions = s.admissions;
  }
  step swept now s = record { attempts = sweep cfg now s.attempts; admissions = s.admissions }

  abbrev pub limit_of : AuthAttemptScope → ℕ
  limit_of register = cfg.auth_max_registrations_per_ip
  limit_of ip = cfg.auth_max_per_ip
  limit_of email = cfg.auth_max_per_ip

  abbrev pub run : List (Operation × ℕ) → Service → Service
  run [] s = s
  run ((o, now) ∷ rest) s = run rest (step o now s)

  -- The clock does not go back.
  abbrev pub IsRun : ℕ → List (Operation × ℕ) → Type 0
  IsRun last [] = Unit
  IsRun last ((o, now) ∷ rest) = (last ≤ now) × IsRun now rest

  abbrev pub last_of : ℕ → List (Operation × ℕ) → ℕ
  last_of last [] = last
  last_of last ((o, now) ∷ rest) = last_of now rest

  -- The table counts what was admitted in a window, and that is within the limit.
  abbrev pub IsLimited : AuthAttemptScope → Text → ℕ → Service → Type 0
  IsLimited scope host now s =
      ((since : ℕ)
        → now - cfg.auth_window_ms ≤ since
        → count scope host since false s.attempts.rows
          ≡ admissions_since scope host since s.admissions)
      × (admissions_since scope host (now - cfg.auth_window_ms) s.admissions ≤ limit_of scope)

  admissions_later :
      (scope : AuthAttemptScope) (host : Text) (from to : ℕ) (log : List Admission)
      → from ≤ to
      → admissions_since scope host to log ≤ admissions_since scope host from log
  admissions_later scope host from to log h =
      tally-le (is_admission scope host to) (is_admission scope host from) log
        (λ a e. ground (arith, e, h))

  pub later-IsLimited :
      (scope : AuthAttemptScope) (host : Text) (last now : ℕ) (s : Service)
      → last ≤ now
      → IsLimited scope host last s
      → IsLimited scope host now s
  later-IsLimited scope host last now s h (same, few) =
      let sooner : last - cfg.auth_window_ms ≤ now - cfg.auth_window_ms = omega (arith, h) in
      let fewer =
        admissions_later scope host (last - cfg.auth_window_ms) (now - cfg.auth_window_ms)
          s.admissions sooner in
      (λ since k. same since (omega (arith, sooner, k)), omega (arith, few, fewer))
