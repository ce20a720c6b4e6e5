-- ===== src/Storage/Retention/Session.antt =====
-- What a statement on the session is allowed to be, and what one leaves of a sound pass.
use probeboard_api.Common.{
  ℕ, ◌-◌, ◌*◌, ◌≡◌, refl, ◌⊎◌, inl, inr, Bool, true, false, ◌||◌, none, some, List, [], ◌∷◌, arith,
  if◌then◌else◌, length, All, Text,
}
use mathlib.Core.List.{Memᴰ}
use probeboard_api.Storage.Periods.{PartitionFamily, day_ms}
use probeboard_api.Storage.Retention.{
  DetachMode, concurrently, finalize, SessionStatement, set_lock_timeout, detach_partition,
  drop_table, Database, Turn, Outcome, done, Pass, guard_for, reply_to, session_run, blocked_by,
}
use probeboard_api.Storage.Expiry.{RetentionConfig, Expired, days_for, IsPast}

abbrev pub Log : Type 0
Log = List (SessionStatement × Bool)

-- The session is still there after a statement.
abbrev pub HasSession : Turn → Type 0
HasSession t = (t.lost_during ≡ false) × ((t.carried_out ≡ true) ⊎ (t.unavailable ≡ false))

module _ (db : Database) (turn_of : ℕ → Turn) (cfg : RetentionConfig) (now : ℕ) where
  -- One of the tables of a family whose period ended as long ago as the family is kept.
  abbrev pub IsExpired : (Text → List Text) → PartitionFamily → Expired → Type 0
  IsExpired names family e =
      (days : ℕ) × (days_for cfg family.parent ≡ some days)
      × IsPast family (now - days * day_ms) (names family.parent) e

  -- What allows a statement after those of a log.
  abbrev pub IsAllowed : SessionStatement → Log → Type 0
  IsAllowed (set_lock_timeout ms) log = ms ≡ cfg.maintenance_lock_timeout_ms
  IsAllowed (detach_partition parent name finalize) log = Memᴰ name (db.pending_detaches parent)
  IsAllowed (detach_partition parent name concurrently) log =
      (family : PartitionFamily) × (e : Expired) × (family.parent ≡ parent)
      × (e.name ≡ name)
      × IsExpired db.attached family e
      × (blocked_by db turn_of (guard_for parent) parent e ≡ none)
  IsAllowed (drop_table name) log =
      ((parent : Text) × (mode : DetachMode) × Memᴰ (detach_partition parent name mode, true) log)
      ⊎ ((family : PartitionFamily) × (e : Expired) × (e.name ≡ name)
          × IsExpired db.detached family e)

  -- The session was there after each statement of a log.
  abbrev pub IsAlive : Log → Type 0
  IsAlive [] = Unit
  IsAlive (s ∷ log) = HasSession (turn_of (length log)) × IsAlive log

  -- Each statement is allowed after those before it, and is sent on a session that was never lost.
  abbrev pub IsSafe : Log → Type 0
  IsSafe [] = Unit
  IsSafe (s ∷ log) =
      IsAllowed s.0 log × ((turn_of (length log)).lost_before ≡ false) × IsAlive log × IsSafe log

  -- What the result names as dropped was dropped.
  abbrev pub IsSound : Pass → Type 0
  IsSound p =
      IsSafe p.sent
      × ((p.lost ≡ false) → IsAlive p.sent)
      × All (λ name. Memᴰ (drop_table name, true) p.sent) p.dropped

  later :
      (entry : SessionStatement × Bool) (log : Log) (names : List Text)
      → All (λ name. Memᴰ (drop_table name, true) log) names
      → All (λ name. Memᴰ (drop_table name, true) (entry ∷ log)) names
  later entry log [] h = tt
  later entry log (name ∷ names) (m, h) = (Memᴰ.tail m, later entry log names h)

  -- A step that keeps a pass sound, and leaves the statement in the log where it is done.
  abbrev pub Sends : SessionStatement → Pass × Outcome → Type 0
  Sends s r = IsSound r.0 × ((r.1 ≡ done) → Memᴰ (s, true) r.0.sent)

  if_lem :
      (P : Pass × Outcome → Type 0) (b : Bool) (x y : Pass × Outcome)
      → (b ≡ true → P x)
      → (b ≡ false → P y)
      → P (if b then x else y)
  if_lem P true x y f g = f refl
  if_lem P false x y f g = g refl

  reply_to-Sends :
      (s : SessionStatement) (p : Pass)
      → IsAllowed s p.sent
      → (turn_of (length p.sent)).lost_before ≡ false
      → IsAlive p.sent
      → IsSound p
      → Sends s (reply_to db turn_of (turn_of (length p.sent)) s p)
  reply_to-Sends s p a b alive (safe, still, named) =
      let t : Turn = turn_of (length p.sent) in
      if_lem (Sends s) t.carried_out _ _
        (λ c. (
          ((a, b, alive, safe), λ l. ((l, inl c), alive), later (s, true) p.sent p.dropped named),
          λ d. Memᴰ.head refl,
        ))
        (λ c.
          if_lem (Sends s) (t.lost_during || t.unavailable) _ _
            (λ l.
              (((a, b, alive, safe), λ k. cc, later (s, false) p.sent p.dropped named), λ d. cc))
            (λ l. (
              (
                (a, b, alive, safe),
                λ k. ((ground (arith, l), inr (ground (arith, l))), alive),
                later (s, false) p.sent p.dropped named,
              ),
              λ d. cc,
            )))

  pub session_run-Sends :
      (s : SessionStatement) (p : Pass)
      → IsAllowed s p.sent
      → IsSound p
      → Sends s (session_run db turn_of s p)
  unfolding session_run
  session_run-Sends s p a (safe, still, named) =
      if_lem (Sends s) (p.lost || (turn_of (length p.sent)).lost_before) _ _
        (λ l. ((safe, λ k. cc, named), λ d. cc))
        (λ l.
          reply_to-Sends s p a (ground (arith, l)) (still (ground (arith, l))) (safe, still, named))
