-- ===== src/Probing/FailureClasses/Aborts.antt =====
-- The phase that a deadline is put down to.
use probeboard_api.Common.{ℕ, ◌≡◌, ◌↔◌, Bool, true, false, Option, arith}
use probeboard_api.Probing.FailureClasses.{
  dns_failure, response_timeout, body_timeout, unknown_error, Boundaries, is_missing,
  classify_abort,
}

abbrev pub Reached : Option ℕ → Type 0
Reached boundary = is_missing boundary ≡ false

-- The connection is up: resolved, connected, and over https with its handshake done.
abbrev pub IsConnected : Boundaries → Bool → Type 0
IsConnected b secure =
    Reached b.dns_done × Reached b.connect_done × (secure ≡ true → Reached b.tls_done)

-- A deadline is the resolver's where no name was resolved, the endpoint's answer's where the
-- connection was up and no byte came, the body's where it began and did not end; it is not
-- classified only where every phase was done.
pub classify_abort_rules :
    (b : Boundaries) (secure : Bool)
    → let c = classify_abort b secure in
      ((c ≡ dns_failure) ↔ (is_missing b.dns_done ≡ true))
      × ((c ≡ response_timeout) ↔ (IsConnected b secure × (is_missing b.first_byte ≡ true)))
      × ((c ≡ body_timeout)
          ↔ (IsConnected b secure × Reached b.first_byte × (is_missing b.transfer_done ≡ true)))
      × ((c ≡ unknown_error)
          ↔ (IsConnected b secure × Reached b.first_byte × Reached b.transfer_done))
unfolding classify_abort
classify_abort_rules b secure = ground arith
