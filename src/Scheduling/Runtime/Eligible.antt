-- ===== src/Scheduling/Runtime/Eligible.antt =====
-- Which rows a claim may take, and what it writes to one.
use probeboard_api.Common.{
  ℕ, All, ◌+◌, ◌-◌, ◌*◌, ◌/◌, ◌≤◌, ◌<◌, ◌≡◌, refl, inl, inr, Bool, true, false, and-eq-true_iff,
  Option, none, some, List, arith, leb→le, lt→ltb, Option-cases, Text,
}
use probeboard_api.Scheduling.Runtime.{
  due, due_rows, by_next_run, Table, Endpoint, RuntimeRow, micros, lookup_endpoint, is_free,
  is_enabled, is_due, next_slot, claimed_row,
}
use mathlib.Core.List.{Memᴰ}
use probeboard_api.Scheduling.Runtime.Tables.{All-take, All-due_rows, All-by_next_run, All-map}
use probeboard_api.Scheduling.Runtime.Members.{All-self}
use probeboard_api.Scheduling.Runtime.Claims.{IsPositive, lookup_endpoint-positive, next_slot_lem}

module _ (now : ℕ) (is_locked : Text → Bool) (endpoints : List Endpoint) where
  -- A row that may be claimed: its endpoint is enabled, its slot has come, no lease of it reaches to
  -- now, and no other statement holds it.
  pub record IsEligible (r : RuntimeRow) : Type 0 where
    pub owner : Endpoint
    pub owned : lookup_endpoint r.endpoint_id endpoints ≡ some owner
    pub enabled : owner.enabled ≡ true
    pub was_due : r.next_run_at ≤ now
    pub was_free : (until : ℕ) → r.leased_until ≡ some until → until < now
    pub unlocked : is_locked r.endpoint_id ≡ false

  -- A row as it was, and as the claim leaves it: the slot is the one that was due, leased from now
  -- on to the worker, and the next is the first after now on the grid of that slot.
  pub record IsClaimed (worker : Text) (lease_ms : ℕ) (r c : RuntimeRow) : Type 0 where
    pub eligible : IsEligible r
    pub same : c.endpoint_id ≡ r.endpoint_id
    pub slot : c.scheduled_at ≡ some r.next_run_at
    pub of_interval : c.scheduled_interval_s ≡ some eligible.owner.interval_s
    pub leased : c.leased_until ≡ some (now + lease_ms * 1000)
    pub holder : c.leased_by ≡ some worker
    pub probed : c.last_probe_at ≡ r.last_probe_at
    pub future : now < c.next_run_at
    pub soonest : c.next_run_at ≤ now + eligible.owner.interval_s * micros
    pub grid : ℕ
    pub on_grid : c.next_run_at ≡ r.next_run_at + eligible.owner.interval_s * micros * grid

  is_free-late : (o : Option ℕ) → is_free now o ≡ true → (until : ℕ) → o ≡ some until → until < now
  is_free-late none h until e = cc
  is_free-late (some t) h until e = ground (arith, h, e)

  late-is_free :
      (o : Option ℕ) → ((until : ℕ) → o ≡ some until → until < now) → is_free now o ≡ true
  late-is_free none h = refl
  late-is_free (some t) h = lt→ltb t now (h t refl)

  pub is_due-IsEligible : (r : RuntimeRow) → is_due now is_locked endpoints r ≡ true → IsEligible r
  unfolding is_due
  is_due-IsEligible r k = elim (Option-cases (lookup_endpoint r.endpoint_id endpoints)) [
    | inl missing ↦ let none' : false ≡ true = rw missing at k in cc
    | inr (e, found) ↦
        let (on, rest) =
          (and-eq-true_iff (is_enabled (lookup_endpoint r.endpoint_id endpoints)) _).0 k in
        let (late, rest') = (and-eq-true_iff _ _).0 rest in
        let (free, unlocked) = (and-eq-true_iff _ _).0 rest' in
        record {
          owner = e;
          owned = found;
          enabled = rw found at on;
          was_due = leb→le _ _ late;
          was_free = is_free-late r.leased_until free;
          unlocked = ground (arith, unlocked);
        }
  ]

  pub IsEligible-is_due : (r : RuntimeRow) → IsEligible r → is_due now is_locked endpoints r ≡ true
  unfolding is_due
  IsEligible-is_due r h =
      let free = late-is_free r.leased_until h.was_free in
      rw (h.owned, h.enabled, free, h.unlocked) (ground (arith, h.was_due))

  pub claimed_row-IsClaimed :
      (worker : Text) (lease_ms : ℕ) (r : RuntimeRow)
      → IsPositive endpoints
      → IsEligible r
      → IsClaimed worker lease_ms r (claimed_row now worker lease_ms endpoints r)
  unfolding claimed_row
  claimed_row-IsClaimed worker lease_ms r positive h =
      let e : Endpoint = h.owner in
      let (after, by) =
        next_slot_lem now r.next_run_at e.interval_s
          (lookup_endpoint-positive r.endpoint_id endpoints e positive h.owned) h.was_due in
      record {
        eligible = h;
        same = refl;
        slot = refl;
        of_interval = rw h.owned refl;
        leased = refl;
        holder = refl;
        probed = refl;
        future = rw h.owned after;
        soonest = rw h.owned by;
        grid = (now - r.next_run_at) / (e.interval_s * micros) + 1;
        on_grid = rw h.owned (unfold next_slot in refl);
      }

  -- A claim takes eligible rows only.
  pub due-IsEligible :
      (batch_size : ℕ) (rows : Table) → All IsEligible (due now is_locked endpoints batch_size rows)
  unfolding due
  due-IsEligible batch_size rows =
      let eligible = due_rows (is_due now is_locked endpoints) rows in
      All-take IsEligible batch_size (by_next_run eligible) (
        All-by_next_run IsEligible eligible (
          All-map _ IsEligible (λ r (m, on). is_due-IsEligible r on) eligible
            (All-due_rows (λ d. Memᴰ d rows) (is_due now is_locked endpoints) rows
              (All-self rows))))
