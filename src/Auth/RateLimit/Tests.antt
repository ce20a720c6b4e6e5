-- ===== src/Auth/RateLimit/Tests.antt =====
-- Tests and the witness of the rate limit.
use probeboard_api.Common.{ℕ, ◌≤◌, ◌≡◌, refl, Option, none, some, List, [], ◌∷◌, arith, Text, codes}
use probeboard_api.Auth.RateLimit.{
  ip, register, RateConfig, count, reserve, admit, admit_registration, succeeded_at, mark_succeeded,
  prune_before, sweep, normalize_email,
}
use probeboard_api.Auth.RateLimit.Window.{admissions_rules, empty}
use probeboard_api.Auth.RateLimit.Service.{
  Operation, login, registration, success, swept, run, admissions_since,
}

abbrev cfg : RateConfig
cfg = record {
  auth_window_ms = 100;
  auth_max_per_ip = 2;
  auth_max_failures_per_email = 1;
  auth_max_registrations_per_ip = 1;
  auth_attempt_retention_ms = 150;
}

abbrev host : Text
host = codes "192.0.2.1"

abbrev mail : Option Text
mail = some (codes " A@b.c ")

normalize_test : normalize_email (codes " A@b.c ") ≡ codes "a@b.c"
normalize_test = refl

-- The second login of the account is refused until the first succeeds, and the third of the address
-- until the window has gone by; registrations count apart.
abbrev steps : List (Operation × ℕ)
steps =
    (login host mail, 1000)
    ∷ (login (codes "192.0.2.2") mail, 1001)
    ∷ (success host mail, 1002)
    ∷ (registration host, 1003)
    ∷ (login host mail, 1004)
    ∷ (login host none, 1005)
    ∷ (swept, 1090)
    ∷ (login host none, 1101)
    ∷ []

run_test :
    (admissions_since ip host 1001 (run cfg steps (empty cfg)).admissions ≡ 2)
    × (admissions_since ip host 0 (run cfg steps (empty cfg)).admissions ≡ 3)
    × (admissions_since register host 0 (run cfg steps (empty cfg)).admissions ≡ 1)
    × (admissions_since ip (codes "192.0.2.2") 0 (run cfg steps (empty cfg)).admissions ≡ 0)
unfolding count reserve admit admit_registration mark_succeeded succeeded_at prune_before sweep
run_test = (refl, refl, refl, refl)

admissions_rules_example :
    (admissions_since ip host 1001 (run cfg steps (empty cfg)).admissions ≤ cfg.auth_max_per_ip)
    × (admissions_since register host 1001 (run cfg steps (empty cfg)).admissions
        ≤ cfg.auth_max_registrations_per_ip)
admissions_rules_example = admissions_rules cfg host steps (omega arith) (
  omega arith,
  (
    omega arith,
    (omega arith, (omega arith, (omega arith, (omega arith, (omega arith, (omega arith, tt)))))),
  ),
)
