-- ===== src/Auth/RateLimit.antt =====
-- api/auth/services/rate-limit.service.ts and api/auth/repositories/auth-attempt.repository.ts: the
-- attempts at a login or a registration that are admitted. A transaction under its advisory locks
-- is one step. Instants are milliseconds from 1970 on.
mod Laws
mod Service
mod Window
mod Tests
use probeboard_api.Common.{
  ℕ, zero, suc, ◌-◌, min, max, refl, sym, ap, inl, inr, Bool, true, false, not, ◌&&◌, ◌||◌,
  and-eq-true_iff, Option, none, some, List, [], ◌∷◌, map, append_assoc, append-nil, arith, ltb,
  leb, ◌==◌, if◌then◌else◌, ltb→lt, lt→ltb, leb→le, ==_iff, tests, Bool-cases, Option-cases, length,
  get_elem?, get_or, take, replicate, length-append, length-take, all, any, find, All, All-append,
  ℤ, pos, negsuc, sub_ℕ, Text, codes, text_eq, text_eq_iff, starts_with, includes, has, lower_unit,
  upper_unit, to_lower_case, to_upper_case,
}

pub data AuthAttemptScope : Type 0 where
  ip email register : AuthAttemptScope

abbrev pub same_scope : AuthAttemptScope → AuthAttemptScope → Bool
same_scope ip ip = true
same_scope ip email = false
same_scope ip register = false
same_scope email ip = false
same_scope email email = true
same_scope email register = false
same_scope register ip = false
same_scope register email = false
same_scope register register = true

pub record Attempt : Type 0 where
  pub id : ℕ
  pub scope : AuthAttemptScope
  pub key : Text
  pub succeeded : Bool
  pub occurred_at : ℕ

-- The table, with the latest row first, and the identity of the next row.
pub record Attempts : Type 0 where
  pub next_id : ℕ
  pub rows : List Attempt

pub record ReserveLimits : Type 0 where
  pub since : ℕ
  pub max_per_ip : ℕ
  pub max_failures_per_email : ℕ
  pub ip_scope : AuthAttemptScope

pub data ReserveResult : Type 0 where
  allowed : ReserveResult
  limited : AuthAttemptScope → ReserveResult

abbrev pub tally {ℓ} : {A : Type ℓ} → (A → Bool) → List A → ℕ
tally p [] = 0
tally p (x ∷ xs) = let rest = tally p xs in if p x then suc rest else rest

abbrev pub keep_if {ℓ} : {A : Type ℓ} → (A → Bool) → List A → List A
keep_if p [] = []
keep_if p (x ∷ xs) = let rest = keep_if p xs in if p x then x ∷ rest else rest

abbrev pub is_counted : AuthAttemptScope → Text → ℕ → Bool → Attempt → Bool
is_counted scope key since only_failures r =
    (same_scope r.scope scope && text_eq r.key key)
    && (leb since r.occurred_at && (not only_failures || not r.succeeded))

unfoldable pub count : AuthAttemptScope → Text → ℕ → Bool → List Attempt → ℕ
count scope key since only_failures rows = tally (is_counted scope key since only_failures) rows

abbrev pub inserting : AuthAttemptScope → Text → ℕ → Attempts → Attempts
inserting scope key now s = record {
  next_id = suc s.next_id;
  rows =
      record { id = s.next_id; scope = scope; key = key; succeeded = false; occurred_at = now }
      ∷ s.rows;
}

abbrev pub reserve_email :
    ReserveLimits → Text → Option Text → ℕ → Attempts → Attempts × ReserveResult
reserve_email limits host none now s = (inserting limits.ip_scope host now s, allowed)
reserve_email limits host (some address) now s =
    if leb limits.max_failures_per_email (count email address limits.since true s.rows)
    then (s, limited email)
    else (inserting email address now (inserting limits.ip_scope host now s), allowed)

unfoldable pub reserve :
    ReserveLimits → Text → Option Text → ℕ → Attempts → Attempts × ReserveResult
unfolding count
reserve limits host address now s =
    if leb limits.max_per_ip (count limits.ip_scope host limits.since false s.rows)
    then (s, limited limits.ip_scope)
    else reserve_email limits host address now s

-- The failed attempt of an address that is the newest by a time, and of those of one instant the one
-- with the greatest identity.
abbrev pub is_open : Text → ℕ → Attempt → Bool
is_open key now r =
    (same_scope r.scope ip && text_eq r.key key) && (not r.succeeded && leb r.occurred_at now)

abbrev pub is_newer : Attempt → Attempt → Bool
is_newer r q =
    ltb q.occurred_at r.occurred_at || ((q.occurred_at == r.occurred_at) && ltb q.id r.id)

abbrev pub newer : Attempt → Option Attempt → Option Attempt
newer r none = some r
newer r (some q) = if is_newer r q then some r else some q

abbrev pub newest : List Attempt → Option Attempt
newest [] = none
newest (r ∷ rows) = newer r (newest rows)

abbrev pub succeed : Attempt → Attempt
succeed r = record {
  id = r.id;
  scope = r.scope;
  key = r.key;
  succeeded = true;
  occurred_at = r.occurred_at;
}

abbrev pub mark : Option Attempt → List Attempt → List Attempt
mark none rows = rows
mark (some q) rows = map (λ r. if r.id == q.id then succeed r else r) rows

abbrev pub clear_email : Option Text → List Attempt → List Attempt
clear_email none rows = rows
clear_email (some address) rows =
    keep_if (λ r. not (same_scope r.scope email && text_eq r.key address)) rows

unfoldable pub mark_succeeded : Text → Option Text → ℕ → Attempts → Attempts
mark_succeeded address mail now s = record {
  next_id = s.next_id;
  rows = clear_email mail (mark (newest (keep_if (is_open address now) s.rows)) s.rows);
}

unfoldable pub prune_before : ℕ → Attempts → Attempts
prune_before cutoff s = record {
  next_id = s.next_id;
  rows = keep_if (λ r. not (ltb r.occurred_at cutoff)) s.rows;
}

-- `normalizeEmail`: `trim` drops the white space of the language at both ends.
abbrev pub is_space : ℕ → Bool
is_space u =
    (leb 9 u && leb u 13)
    || (leb 8192 u && leb u 8202)
    || any (λ v. v == u) (32 ∷ 160 ∷ 5760 ∷ 8232 ∷ 8233 ∷ 8239 ∷ 8287 ∷ 12288 ∷ 65279 ∷ [])

abbrev pub trim_start : Text → Text
trim_start [] = []
trim_start (u ∷ s) = let rest = trim_start s in if is_space u then rest else u ∷ s

abbrev pub or_drop : ℕ → Text → Text
or_drop u [] = if is_space u then [] else u ∷ []
or_drop u (v ∷ s) = u ∷ v ∷ s

abbrev pub trim_end : Text → Text
trim_end [] = []
trim_end (u ∷ s) = or_drop u (trim_end s)

abbrev pub normalize_email : Text → Text
normalize_email address = to_lower_case (trim_end (trim_start address))

pub record RateConfig : Type 0 where
  pub auth_window_ms : ℕ
  pub auth_max_per_ip : ℕ
  pub auth_max_failures_per_email : ℕ
  pub auth_max_registrations_per_ip : ℕ
  pub auth_attempt_retention_ms : ℕ

abbrev pub normalized : Option Text → Option Text
normalized none = none
normalized (some address) = some (normalize_email address)

unfoldable pub admit : RateConfig → Text → Option Text → ℕ → Attempts → Attempts × ReserveResult
unfolding reserve
admit cfg host address now =
    reserve
      (record {
        since = now - cfg.auth_window_ms;
        max_per_ip = cfg.auth_max_per_ip;
        max_failures_per_email = cfg.auth_max_failures_per_email;
        ip_scope = ip;
      })
      host (normalized address) now

unfoldable pub admit_registration : RateConfig → Text → ℕ → Attempts → Attempts × ReserveResult
unfolding reserve
admit_registration cfg host now =
    reserve
      (record {
        since = now - cfg.auth_window_ms;
        max_per_ip = cfg.auth_max_registrations_per_ip;
        max_failures_per_email = cfg.auth_max_failures_per_email;
        ip_scope = register;
      })
      host none now

unfoldable pub succeeded_at : Text → Option Text → ℕ → Attempts → Attempts
unfolding mark_succeeded
succeeded_at host address now = mark_succeeded host (normalized address) now

-- What the sweep of auth-maintenance.service.ts prunes of the attempts.
unfoldable pub sweep : RateConfig → ℕ → Attempts → Attempts
unfolding prune_before
sweep cfg now s = prune_before (now - cfg.auth_attempt_retention_ms) s
