-- ===== src/Storage/Retention/Safety.antt =====
-- What a pass of the retention sends, and when it sends nothing.
use probeboard_api.Common.{
  ℕ, ◌-◌, ◌*◌, ◌≡◌, refl, inl, inr, true, Option, none, some, List, [], ◌∷◌, arith, All, Text,
}
use mathlib.Core.Path.{subst}
use mathlib.Core.List.{Memᴰ}
use probeboard_api.Storage.Periods.{PartitionFamily, partition_families, day_ms}
use probeboard_api.Storage.Retention.{
  BlockReason, DetachMode, concurrently, finalize, set_lock_timeout, detach_partition, drop_table,
  Database, Turn, Outcome, done, refused, lock_lost, Pass, new_pass, Step, and_then, for_each,
  guard_for, session_run, drop_partition, drop_or_defer, detach_and_drop, blocked_by,
  unless_blocked, remove_expired, up_to, kept_for, run_family, run_retention,
}
use probeboard_api.Storage.Expiry.{
  RetentionConfig, Expired, days_for, classify, IsPast, classify-IsPast,
}
use probeboard_api.Storage.Retention.Session.{
  IsExpired, IsAllowed, IsSound, Sends, session_run-Sends,
}

module _ (db : Database) (turn_of : ℕ → Turn) (cfg : RetentionConfig) (now : ℕ) where
  -- A step that keeps every pass sound.
  abbrev Keeps : Step → Type 0
  Keeps step = (p : Pass) → IsSound db turn_of cfg now p → IsSound db turn_of cfg now (step p).0

  and_then-IsSound :
      (r : Pass × Outcome) (next : Step)
      → IsSound db turn_of cfg now r.0
      → (r.1 ≡ done → IsSound db turn_of cfg now (next r.0).0)
      → IsSound db turn_of cfg now (and_then r next).0
  and_then-IsSound (p, done) next h k = k refl
  and_then-IsSound (p, refused) next h k = h
  and_then-IsSound (p, lock_lost) next h k = h

  for_each-Keeps {ℓ} :
      {A : Type ℓ} (step : A → Step) (xs : List A)
      → All (λ x. Keeps (step x)) xs
      → Keeps (for_each step xs)
  for_each-Keeps step [] h p i = i
  for_each-Keeps step (x ∷ xs) (k, h) p i =
      and_then-IsSound (step x p) (for_each step xs) (k p i)
        (λ d. for_each-Keeps step xs h (step x p).0 (k p i))

  and_then-Keeps :
      (first next : Step) → Keeps first → Keeps next → Keeps (λ p. and_then (first p) next)
  and_then-Keeps first next k l p i =
      and_then-IsSound (first p) next (k p i) (λ d. l (first p).0 (k p i))

  drop_partition-IsSound :
      (name : Text) (p : Pass)
      → IsAllowed db turn_of cfg now (drop_table name) p.sent
      → IsSound db turn_of cfg now p
      → IsSound db turn_of cfg now (drop_partition db turn_of name p).0
  unfolding drop_partition
  drop_partition-IsSound name p a i =
      let (k, m) = session_run-Sends db turn_of cfg now (drop_table name) p a i in
      and_then-IsSound (session_run db turn_of (drop_table name) p) _ k
        (λ d. (k.0, k.1, (m d, k.2)))

  drop_or_defer-IsSound :
      (parent name : Text) (mode : DetachMode) (r : Pass × Outcome)
      → Sends db turn_of cfg now (detach_partition parent name mode) r
      → IsSound db turn_of cfg now (drop_or_defer db turn_of name r).0
  drop_or_defer-IsSound parent name mode (p, done) (i, m) =
      drop_partition-IsSound name p (inl (parent, mode, m refl)) i
  drop_or_defer-IsSound parent name mode (p, refused) (i, m) = i
  drop_or_defer-IsSound parent name mode (p, lock_lost) (i, m) = i

  detach_and_drop-IsSound :
      (parent name : Text) (mode : DetachMode) (p : Pass)
      → IsAllowed db turn_of cfg now (detach_partition parent name mode) p.sent
      → IsSound db turn_of cfg now p
      → IsSound db turn_of cfg now (detach_and_drop db turn_of parent mode name p).0
  unfolding detach_and_drop
  detach_and_drop-IsSound parent name mode p a i =
      drop_or_defer-IsSound parent name mode
        (session_run db turn_of (detach_partition parent name mode) p)
        (session_run-Sends db turn_of cfg now (detach_partition parent name mode) p a i)

  remove_expired-Keeps :
      (family : PartitionFamily) (e : Expired)
      → IsExpired db turn_of cfg now db.attached family e
      → Keeps (remove_expired db turn_of family.parent e)
  unfolding remove_expired
  remove_expired-Keeps family e x p i =
      go (blocked_by db turn_of (guard_for family.parent) family.parent e) refl
    where
      go :
          (o : Option BlockReason)
          → blocked_by db turn_of (guard_for family.parent) family.parent e ≡ o
          → IsSound db turn_of cfg now (unless_blocked db turn_of family.parent e.name o p).0
      go (some reason) k = i
      go none k =
          detach_and_drop-IsSound family.parent e.name concurrently p (family, e, refl, refl, x, k)
            i

  module _ (family : PartitionFamily) (days : ℕ)
      (known : days_for cfg family.parent ≡ some days) where
    pending-Keeps :
        (names : List Text)
        → ((name : Text) → Memᴰ name names → Memᴰ name (db.pending_detaches family.parent))
        → All (λ name. Keeps (detach_and_drop db turn_of family.parent finalize name)) names
    pending-Keeps [] h = tt
    pending-Keeps (name ∷ names) h = (
      λ p i. detach_and_drop-IsSound family.parent name finalize p (h name (Memᴰ.head refl)) i,
      pending-Keeps names (λ n m. h n (Memᴰ.tail m)),
    )

    expired-Keeps :
        (es : List Expired)
        → All (IsPast family (now - days * day_ms) (db.attached family.parent)) es
        → All (λ e. Keeps (remove_expired db turn_of family.parent e)) es
    expired-Keeps [] h = tt
    expired-Keeps (e ∷ es) (x, h) =
        (remove_expired-Keeps family e (days, known, x), expired-Keeps es h)

    leftover-Keeps :
        (es : List Expired)
        → All (IsPast family (now - days * day_ms) (db.detached family.parent)) es
        → All (λ (e : Expired). Keeps (drop_partition db turn_of e.name)) es
    leftover-Keeps [] h = tt
    leftover-Keeps (e ∷ es) (x, h) = (
      λ p i. drop_partition-IsSound e.name p (inr (family, e, refl, (days, known, x))) i,
      leftover-Keeps es h,
    )

    up_to-Keeps : Keeps (up_to db turn_of family (now - days * day_ms))
    up_to-Keeps =
        let cutoff : ℕ = now - days * day_ms in
        let finish : Text → Step = detach_and_drop db turn_of family.parent finalize in
        let remove : Expired → Step = remove_expired db turn_of family.parent in
        let clear : Expired → Step = λ e. drop_partition db turn_of e.name in
        let pending : List Text = db.pending_detaches family.parent in
        let live : List Expired = classify family (db.attached family.parent) cutoff in
        let loose : List Expired = classify family (db.detached family.parent) cutoff in
        and_then-Keeps (λ p. and_then (for_each finish pending p) (for_each remove live))
          (for_each clear loose)
          (and_then-Keeps (for_each finish pending) (for_each remove live)
            (for_each-Keeps finish pending (pending-Keeps pending (λ n m. m)))
            (for_each-Keeps remove live
              (expired-Keeps live (classify-IsPast family (db.attached family.parent) cutoff))))
          (for_each-Keeps clear loose
            (leftover-Keeps loose (classify-IsPast family (db.detached family.parent) cutoff)))

  run_family-Keeps : (family : PartitionFamily) → Keeps (run_family db turn_of cfg now family)
  unfolding run_family
  run_family-Keeps family p i = go (days_for cfg family.parent) refl
    where
      go :
          (o : Option ℕ)
          → days_for cfg family.parent ≡ o
          → IsSound db turn_of cfg now (kept_for db turn_of family now o p).0
      go none k = i
      go (some days) k = up_to-Keeps family days k p i

  all-Keeps :
      (families : List PartitionFamily)
      → All (λ f. Keeps (run_family db turn_of cfg now f)) families
  all-Keeps [] = tt
  all-Keeps (f ∷ families) = (run_family-Keeps f, all-Keeps families)

  -- Every statement of a pass, however its statements fare, is sent on a session that was there
  -- before it and after each one earlier. A partition is detached only where its detach was
  -- interrupted before, or where its whole period ended as long ago as its family is kept and
  -- its guard finds nothing unfolded; a table is dropped only after its detach was carried out, or
  -- where it stands detached and has expired. What the result names as dropped was dropped.
  pub run_retention-IsSound :
      (p : Pass) (o : Outcome)
      → run_retention db turn_of cfg now true ≡ some (p, o)
      → IsSound db turn_of cfg now p
  unfolding run_retention
  run_retention-IsSound p o e =
      let start =
        session_run-Sends db turn_of cfg now (set_lock_timeout cfg.maintenance_lock_timeout_ms)
          new_pass refl (tt, λ l. tt, tt) in
      let sent : Pass × Outcome =
        session_run db turn_of (set_lock_timeout cfg.maintenance_lock_timeout_ms) new_pass in
      let rest : Step = for_each (run_family db turn_of cfg now) partition_families in
      let whole = and_then-IsSound sent rest start.0 (λ d.
        for_each-Keeps (run_family db turn_of cfg now) partition_families
          (all-Keeps partition_families) sent.0 start.0) in
      let same : and_then sent rest ≡ (p, o) = ground (arith, e) in
      subst (λ (r : Pass × Outcome). IsSound db turn_of cfg now r.0) same whole
