-- ===== src/Storage/Retention.antt =====
-- worker/storage/services/retention.service.ts: partitions past their retention are detached and
-- dropped, on the one session that holds the lock. The database and the session are parameters:
-- what the reads of a pass give, and what becomes of its n-th statement.
mod Session
mod Safety
mod Tests
use probeboard_api.Common.{
  ℕ, zero, suc, ◌-◌, ◌*◌, min, max, refl, sym, ap, inl, inr, Bool, true, false, not, ◌||◌,
  and-eq-true_iff, Option, none, some, List, [], ◌∷◌, map, append_assoc, append-nil, arith, ltb,
  leb, if◌then◌else◌, ltb→lt, lt→ltb, leb→le, ==_iff, tests, Bool-cases, Option-cases, length,
  get_elem?, get_or, take, replicate, length-append, length-take, all, any, find, All, All-append,
  ℤ, pos, negsuc, sub_ℕ, Text, codes, text_eq, text_eq_iff, starts_with, includes, has, lower_unit,
  upper_unit, to_lower_case, to_upper_case,
}
use probeboard_api.Storage.Periods.{PartitionFamily, partition_families, day_ms}
use probeboard_api.Storage.Expiry.{RetentionConfig, Expired, days_for, classify}

pub data Guard : Type 0 where
  raw stats unguarded : Guard

pub data BlockReason : Type 0 where
  unfolded_rows : (parent : Text) → BlockReason
  unfolded_raw_rows : (parent : Text) → BlockReason

pub data DetachMode : Type 0 where
  concurrently finalize : DetachMode

pub data SessionStatement : Type 0 where
  set_lock_timeout : ℕ → SessionStatement
  detach_partition : (parent name : Text) → DetachMode → SessionStatement
  drop_table : (name : Text) → SessionStatement

-- What the catalogue and the tables answer: of a parent the partitions pending detach, those
-- attached, and the detached tables that have a partition's name; and whether the rows not folded
-- include one of a partition, and one of a range of time.
pub record Database : Type 0 where
  pub pending_detaches : Text → List Text
  pub attached : Text → List Text
  pub detached : Text → List Text
  pub has_unfolded : Text → Bool
  pub has_unfolded_between : ℕ → ℕ → Bool

-- One statement on the session: whether the connection was lost before it, whether it was carried
-- out, and if not whether the connection was lost by then or the error says that it is.
pub record Turn : Type 0 where
  pub lost_before : Bool
  pub carried_out : Bool
  pub lost_during : Bool
  pub unavailable : Bool

-- How a step ends: `refused` and `lock_lost` are thrown.
pub data Outcome : Type 0 where
  done refused lock_lost : Outcome

-- The pass: whether the session is lost, its statements with whether each was carried out, and the
-- result. All lists have the latest first.
pub record Pass : Type 0 where
  pub lost : Bool
  pub sent : List (SessionStatement × Bool)
  pub dropped : List Text
  pub blocked : List (Text × BlockReason)
  pub deferred : List Text

abbrev pub new_pass : Pass
new_pass = record { lost = false; sent = []; dropped = []; blocked = []; deferred = [] }

abbrev pub sending : Pass → Bool → SessionStatement → Bool → Pass
sending p lost statement carried_out = record {
  lost = lost;
  sent = (statement, carried_out) ∷ p.sent;
  dropped = p.dropped;
  blocked = p.blocked;
  deferred = p.deferred;
}

abbrev pub losing : Pass → Pass
losing p = record {
  lost = true;
  sent = p.sent;
  dropped = p.dropped;
  blocked = p.blocked;
  deferred = p.deferred;
}

abbrev pub dropping : Pass → Text → Pass
dropping p name = record {
  lost = p.lost;
  sent = p.sent;
  dropped = name ∷ p.dropped;
  blocked = p.blocked;
  deferred = p.deferred;
}

abbrev pub blocking : Pass → Text → BlockReason → Pass
blocking p name reason = record {
  lost = p.lost;
  sent = p.sent;
  dropped = p.dropped;
  blocked = (name, reason) ∷ p.blocked;
  deferred = p.deferred;
}

abbrev pub deferring : Pass → Text → Pass
deferring p name = record {
  lost = p.lost;
  sent = p.sent;
  dropped = p.dropped;
  blocked = p.blocked;
  deferred = name ∷ p.deferred;
}

abbrev pub Step : Type 0
Step = Pass → Pass × Outcome

-- The steps that follow one, unless it throws.
abbrev pub and_then : Pass × Outcome → Step → Pass × Outcome
and_then (p, done) next = next p
and_then (p, refused) next = (p, refused)
and_then (p, lock_lost) next = (p, lock_lost)

abbrev pub for_each {ℓ} : {A : Type ℓ} → (A → Step) → List A → Step
for_each step [] p = (p, done)
for_each step (x ∷ xs) p = and_then (step x p) (for_each step xs)

abbrev pub guard_for : Text → Guard
guard_for parent =
    if text_eq parent (codes "probe_results")
    then raw
    else if text_eq parent (codes "claim_log")
    then unguarded
    else stats

module _ (db : Database) (turn_of : ℕ → Turn) where
  abbrev pub reply_to : Turn → SessionStatement → Step
  reply_to t statement p =
      if t.carried_out
      then (sending p t.lost_during statement true, done)
      else if t.lost_during || t.unavailable
      then (sending p true statement false, lock_lost)
      else (sending p false statement false, refused)

  -- `session.run`.
  unfoldable pub session_run : SessionStatement → Step
  session_run statement p =
      if p.lost || (turn_of (length p.sent)).lost_before
      then (losing p, lock_lost)
      else reply_to (turn_of (length p.sent)) statement p

  unfoldable pub drop_partition : Text → Step
  unfolding session_run
  drop_partition name p = and_then (session_run (drop_table name) p) (λ q. (dropping q name, done))

  -- `if (await this.detach(…)) await this.drop(…); else result.deferred.push(…)`, in which `detach`
  -- throws only that the lock is lost.
  abbrev pub drop_or_defer : Text → Pass × Outcome → Pass × Outcome
  drop_or_defer name (p, done) = drop_partition name p
  drop_or_defer name (p, refused) = (deferring p name, done)
  drop_or_defer name (p, lock_lost) = (p, lock_lost)

  unfoldable pub detach_and_drop : Text → DetachMode → Text → Step
  unfolding session_run drop_partition
  detach_and_drop parent mode name p =
      drop_or_defer name (session_run (detach_partition parent name mode) p)

  abbrev pub blocked_by : Guard → Text → Expired → Option BlockReason
  blocked_by unguarded parent e = none
  blocked_by raw parent e = if db.has_unfolded e.name then some (unfolded_rows parent) else none
  blocked_by stats parent e =
      if db.has_unfolded_between e.lo e.hi then some (unfolded_raw_rows parent) else none

  abbrev pub unless_blocked : Text → Text → Option BlockReason → Step
  unless_blocked parent name (some reason) p = (blocking p name reason, done)
  unless_blocked parent name none p = detach_and_drop parent concurrently name p

  unfoldable pub remove_expired : Text → Expired → Step
  unfolding detach_and_drop
  remove_expired parent e = unless_blocked parent e.name (blocked_by (guard_for parent) parent e)

  abbrev pub up_to : PartitionFamily → ℕ → Step
  up_to family cutoff p =
      and_then
        (and_then
          (for_each (detach_and_drop family.parent finalize) (db.pending_detaches family.parent) p)
          (for_each (remove_expired family.parent)
            (classify family (db.attached family.parent) cutoff)))
        (for_each (λ (e : Expired). drop_partition e.name)
          (classify family (db.detached family.parent) cutoff))

  abbrev pub kept_for : PartitionFamily → ℕ → Option ℕ → Step
  kept_for family now none p = (p, refused)
  kept_for family now (some days) p = up_to family (now - days * day_ms) p

  unfoldable pub run_family : RetentionConfig → ℕ → PartitionFamily → Step
  unfolding detach_and_drop remove_expired drop_partition
  run_family cfg now family = kept_for family now (days_for cfg family.parent)

  -- The pass of `run` once its session is connected; `none` where another holds the lock.
  unfoldable pub run_retention : RetentionConfig → ℕ → Bool → Option (Pass × Outcome)
  unfolding session_run run_family
  run_retention cfg now has_lock =
      if not has_lock
      then none
      else some (
          and_then (session_run (set_lock_timeout cfg.maintenance_lock_timeout_ms) new_pass)
            (for_each (run_family cfg now) partition_families))
