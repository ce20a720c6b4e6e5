-- ===== src/Scheduling/Runtime/Logging.antt =====
-- A claim logs no slot that was logged before.
use probeboard_api.Common.{
  ℕ, ◌≤◌, ◌≡◌, refl, sym, ap, ◌∙◌, ◌≢◌, inl, inr, Bool, true, Option, none, some, List, [], ◌∷◌,
  ◌++◌, map, arith, if◌then◌else◌, Bool-cases, All, All-append, Text, text_eq, text_eq_iff, has,
}
use mathlib.Core.Path.{subst}
use probeboard_api.Scheduling.Runtime.{
  Endpoint, RuntimeRow, Entry, Table, ids, lookup_endpoint, due, next_slot, claimed_row, entry_of,
  claim,
}
use probeboard_api.Scheduling.Runtime.Tables.{
  IsKeyed, All-map, All-due, IsKeyed-due, has-others, has-own, SameSlot, IsKeyed-SameSlot, All-both,
}
use probeboard_api.Scheduling.Runtime.Eligible.{IsEligible, due-IsEligible}
use probeboard_api.Scheduling.Runtime.Claims.{IsPositive, lookup_endpoint-positive}
use probeboard_api.Scheduling.Runtime.Statements.{
  claimed, Store, execute, IsUnique, NotAfter, IsAhead, Covers, Good, IsSound, Moves, Moves-Good,
  Moves-ids, Moves-IsKeyed,
}

module _ (now : ℕ) (worker : Text) (lease_ms : ℕ) (is_locked : Text → Bool)
    (endpoints : List Endpoint) (batch_size : ℕ) (positive : IsPositive endpoints) (s : Store)
    (h : IsSound s) where
  abbrev taken : Table
  taken = due now is_locked endpoints batch_size s.rows

  abbrev update : RuntimeRow → RuntimeRow
  update r =
      if has (ids taken) r.endpoint_id then claimed_row now worker lease_ms endpoints r else r

  owned :
      (rows : Table)
      → All (IsEligible now is_locked endpoints) rows
      → (id : Text) → has (ids rows) id ≡ true
      → (e : Endpoint) × (lookup_endpoint id endpoints ≡ some e)
  owned [] t id k = cc
  owned (r ∷ rows) (t, ts) id k = elim (Bool-cases (text_eq r.endpoint_id id)) [
    | inl here ↦ (t.owner, rw (← (text_eq_iff r.endpoint_id id).0 here) t.owned)
    | inr there ↦ owned rows ts id (ground (arith, there, k))
  ]

  update-Moves : Moves update
  unfolding claimed_row
  update-Moves r ahead = elim (Bool-cases (has (ids taken) r.endpoint_id)) [
    | inr off ↦ rw off (refl, ahead, λ slot k. k)
    | inl on ↦
        let (e, found) =
          owned taken (due-IsEligible now is_locked endpoints batch_size s.rows) r.endpoint_id on in
        let p = lookup_endpoint-positive r.endpoint_id endpoints e positive found in
        rw (on, found) (refl, unfold next_slot in grind (arith, p), later r.scheduled_at ahead)
  ]
    where
      later :
          (o : Option ℕ)
          → IsAhead o r.next_run_at
          → (slot : ℕ) → NotAfter slot o
          → slot ≤ r.next_run_at
      later none a slot k = absurd k
      later (some t) a slot k = omega (arith, a, k)

  own_taken : All (λ d. has (ids taken) d.endpoint_id ≡ true) taken
  own_taken = has-own taken

  update-id : (r : RuntimeRow) → (update r).endpoint_id ≡ r.endpoint_id
  unfolding claimed_row
  update-id r = elim (Bool-cases (has (ids taken) r.endpoint_id)) [
    | inl on ↦ rw on refl
    | inr off ↦ rw off refl
  ]

  -- A new entry is covered by the row that was claimed.
  update-Covers :
      (r d : RuntimeRow)
      → SameSlot d r
      → has (ids taken) d.endpoint_id ≡ true
      → Covers (update r) (entry_of d)
  unfolding claimed_row
  update-Covers r d same on e =
      let key : d.endpoint_id ≡ r.endpoint_id = e ∙ update-id r in
      let on' : has (ids taken) r.endpoint_id ≡ true =
        subst (λ id. has (ids taken) id ≡ true) key on in
      rw on' (omega (arith, same key))

  -- What is new in the log.
  Entries-of :
      (P : Entry → Type 0) (Q : RuntimeRow → Type 0)
      → ((d : RuntimeRow) → Q d → P (entry_of d))
      → (rows : Table) → All Q rows
      → All P (map entry_of rows)
  Entries-of P Q f [] k = tt
  Entries-of P Q f (d ∷ rows) (q, k) = (f d q, Entries-of P Q f rows k)

  SameSlot-taken : All (λ d. All (SameSlot d) s.rows) taken
  SameSlot-taken =
      All-due _ now is_locked endpoints batch_size s.rows (IsKeyed-SameSlot s.rows h.keyed)

  -- Of each row, the entries of the taken ones.
  Covers-new :
      (r : RuntimeRow) (rows : Table)
      → All (λ d. SameSlot d r × (has (ids taken) d.endpoint_id ≡ true)) rows
      → All (Covers (update r)) (map entry_of rows)
  Covers-new r rows k =
      Entries-of (Covers (update r)) _ (λ d (same, on). update-Covers r d same on) rows k

  -- The rows turned about: what holds of each taken row with all rows, by the row.
  by_row :
      (rows : Table) (ds : Table)
      → All (λ d. All (SameSlot d) rows) ds
      → All (λ r. All (λ d. SameSlot d r) ds) rows
  by_row [] ds k = tt
  by_row (r ∷ rows) ds k = (
    All-map (λ d. All (SameSlot d) (r ∷ rows)) (λ d. SameSlot d r) (λ d both. both.0) ds k,
    by_row rows ds (
        All-map (λ d. All (SameSlot d) (r ∷ rows)) (λ d. All (SameSlot d) rows) (λ d both. both.1)
          ds k),
  )

  good_after :
      (rows : Table)
      → All (Good s.claim_log) rows
      → All (λ r. All (λ d. SameSlot d r) taken) rows
      → All (Good (s.claim_log ++ map entry_of taken)) (map update rows)
  good_after [] g k = tt
  good_after (r ∷ rows) (g, gs) (k, ks) =
      let (ahead, covers) = Moves-Good update update-Moves s.claim_log r g in
      (
        (
          ahead,
          All-append (Covers (update r)) s.claim_log (map entry_of taken) covers
              (Covers-new r taken (All-both _ _ taken k own_taken)),
        ),
        good_after rows gs ks,
      )

  -- No entry of the log is one of a taken row.
  Good-fresh : (d : RuntimeRow) (log : List Entry) → Good log d → All (λ e. entry_of d ≢ e) log
  Good-fresh d [] g = tt
  Good-fresh d (e ∷ log) (ahead, (c, cs)) = (
    λ same.
        clash d.scheduled_at ahead (c (ap (λ (x : Entry). x.0) (sym same)))
          (ap (λ (x : Entry). x.1) same),
    Good-fresh d log (ahead, cs),
  )
    where
      clash : (o : Option ℕ) → IsAhead o d.next_run_at → NotAfter e.1 o → d.next_run_at ≡ e.1 → ⊥
      clash none a k q = k
      clash (some t) a k q = omega (arith, a, k, q)

  IsUnique-append :
      (log : List Entry) (ds : Table)
      → IsUnique log
      → IsKeyed ds
      → All (λ d. All (λ e. entry_of d ≢ e) log) ds
      → IsUnique (log ++ map entry_of ds)
  IsUnique-append [] [] u k f = tt
  IsUnique-append [] (d ∷ ds) u (new, k) (_, f) = (
    Entries-of (λ e. e ≢ entry_of d) _ (λ r other same. other (ap (λ (x : Entry). x.0) (sym same)))
        ds (has-others ds d.endpoint_id new),
    IsUnique-append [] ds tt k f,
  )
  IsUnique-append (e ∷ log) ds (u, us) k f = (
    All-append (λ x. x ≢ e) log (map entry_of ds) u
        (Entries-of (λ x. x ≢ e) _ (λ d both. both.0) ds f),
    IsUnique-append log ds us k (
        All-map (λ d. All (λ x. entry_of d ≢ x) (e ∷ log)) (λ d. All (λ x. entry_of d ≢ x) log)
          (λ d both. both.1) ds f),
  )

  pub claim-IsSound :
      IsSound (execute (claimed now worker lease_ms is_locked endpoints batch_size) s)
  unfolding execute claim
  claim-IsSound =
      let same = Moves-ids update update-Moves s.claim_log s.rows h.good in
      record {
        good = good_after s.rows h.good (by_row s.rows taken SameSlot-taken);
        known = rw same (
            All-append (λ e. has (ids s.rows) e.0 ≡ true) s.claim_log (map entry_of taken) h.known
              (Entries-of (λ e. has (ids s.rows) e.0 ≡ true) _ (λ d k. k) taken
                (All-due _ now is_locked endpoints batch_size s.rows (has-own s.rows))));
        keyed = Moves-IsKeyed update update-Moves s.claim_log s.rows h.good h.keyed;
        unique =
            IsUnique-append s.claim_log taken h.unique
              (IsKeyed-due now is_locked endpoints batch_size s.rows h.keyed)
              (All-map (Good s.claim_log) _ (λ d g. Good-fresh d s.claim_log g) taken
                (All-due (Good s.claim_log) now is_locked endpoints batch_size s.rows h.good));
      }
