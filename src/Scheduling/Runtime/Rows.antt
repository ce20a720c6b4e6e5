-- ===== src/Scheduling/Runtime/Rows.antt =====
-- The claim, row by row.
use probeboard_api.Common.{
  ℕ, suc, ◌≤◌, ◌≡◌, refl, ap, ◌∙◌, ◌⊎◌, inl, inr, Bool, true, false, if◌then◌else◌, some, List, [],
  ◌∷◌, map, arith, Bool-cases, length, length-take, All, Text, has,
}
use mathlib.Core.List.{Memᴰ}
use mathlib.Core.Path.{subst}
use probeboard_api.Scheduling.Runtime.{
  Endpoint, RuntimeRow, Entry, Table, ids, is_due, due_rows, by_next_run, due, claimed_row,
  entry_of, claim,
}
use probeboard_api.Scheduling.Runtime.Tables.{
  All-take, All-due_rows, All-by_next_run, All-map, IsKeyed, IsKeyed-due, IsOrdered,
  IsOrdered-by_next_run,
}
use probeboard_api.Scheduling.Runtime.Eligible.{
  IsEligible, IsClaimed, is_due-IsEligible, IsEligible-is_due, claimed_row-IsClaimed,
}
use probeboard_api.Scheduling.Runtime.Members.{
  Mem-due_rows, Mem-by_next_run, All-Mem, Mem-take, has-Mem, IsKeyed-only, All-self, has-row,
}
use probeboard_api.Scheduling.Runtime.Claims.{IsPositive, IsOrdered-take}

-- The log is in the order of the slots.
abbrev pub AreInOrder : List Entry → Type 0
AreInOrder [] = Unit
AreInOrder (e ∷ log) = All (λ (f : Entry). e.1 ≤ f.1) log × AreInOrder log

module _ (now : ℕ) (worker : Text) (lease_ms : ℕ) (is_locked : Text → Bool)
    (endpoints : List Endpoint) (batch_size : ℕ) (rows : Table) where
  abbrev taken : Table
  taken = due now is_locked endpoints batch_size rows

  abbrev written : RuntimeRow → RuntimeRow
  written r = claimed_row now worker lease_ms endpoints r

  -- The effect of the claim on one row.
  abbrev step : RuntimeRow → RuntimeRow
  step r = if has (ids taken) r.endpoint_id then written r else r

  -- A row of the table, before and after: claimed and returned, or left as it was, and then it may
  -- not be claimed or the batch is full of slots that are not later.
  abbrev pub Outcome : Table → List Entry → RuntimeRow → RuntimeRow → Type 0
  Outcome returned logged r c =
      (IsClaimed now is_locked endpoints worker lease_ms r c × Memᴰ c returned)
      ⊎ ((c ≡ r)
          × ((¬ IsEligible now is_locked endpoints r)
              ⊎ ((length returned ≡ batch_size) × All (λ (e : Entry). e.1 ≤ r.next_run_at) logged)))

  -- Each row that is returned is logged under the slot that it was claimed for.
  abbrev pub AreLogged : Table → List Entry → Type 0
  AreLogged [] [] = Unit
  AreLogged (c ∷ returned) (e ∷ logged) =
      (e.0 ≡ c.endpoint_id) × (c.scheduled_at ≡ some e.1) × AreLogged returned logged
  AreLogged [] (e ∷ logged) = ⊥
  AreLogged (c ∷ returned) [] = ⊥

  taken_of : All (λ d. Memᴰ d rows × (is_due now is_locked endpoints d ≡ true)) taken
  unfolding due
  taken_of =
      let eligible = due_rows (is_due now is_locked endpoints) rows in
      All-take _ batch_size (by_next_run eligible) (
        All-by_next_run _ eligible
          (All-due_rows (λ d. Memᴰ d rows) (is_due now is_locked endpoints) rows (All-self rows)))

  Mem-written : (r : RuntimeRow) (ds : Table) → Memᴰ r ds → Memᴰ (written r) (map written ds)
  Mem-written r [] m = elim m [ ]
  Mem-written r (d ∷ ds) (Memᴰ.head e) = Memᴰ.head (ap written e)
  Mem-written r (d ∷ ds) (Memᴰ.tail m) = Memᴰ.tail (Mem-written r ds m)

  length-written : (ds : Table) → length (map written ds) ≡ length ds
  length-written [] = refl
  length-written (d ∷ ds) = ap suc (length-written ds)

  Slots-entries :
      (n : ℕ) (ds : Table)
      → All (λ (s : RuntimeRow). s.next_run_at ≤ n) ds
      → All (λ (e : Entry). e.1 ≤ n) (map entry_of ds)
  Slots-entries n [] h = tt
  Slots-entries n (d ∷ ds) (p, h) = (p, Slots-entries n ds h)

  left-Outcome :
      (r : RuntimeRow)
      → Memᴰ r rows
      → has (ids taken) r.endpoint_id ≡ false
      → Outcome (map written taken) (map entry_of taken) r r
  unfolding due
  left-Outcome r m off = elim (Bool-cases (is_due now is_locked endpoints r)) [
    | inr idle ↦
        inr (refl, inl (λ h. absurd (twist idle (IsEligible-is_due now is_locked endpoints r h))))
    | inl on ↦
        let eligible = due_rows (is_due now is_locked endpoints) rows in
        elim (Mem-take r batch_size (by_next_run eligible) (IsOrdered-by_next_run eligible)
          (Mem-by_next_run r eligible (Mem-due_rows r _ rows on m))) [
            | inl found ↦ absurd (twist off (has-Mem r _ found))
            | inr (full, early) ↦
                inr (refl, inr (length-written _ ∙ full, Slots-entries r.next_run_at _ early))
          ]
  ]
    where
      twist : {b : Bool} → b ≡ false → b ≡ true → ⊥
      twist e h = cc

  step-Outcome :
      (r : RuntimeRow)
      → IsPositive endpoints
      → IsKeyed rows
      → Memᴰ r rows
      → Outcome (map written taken) (map entry_of taken) r (step r)
  step-Outcome r positive keyed m = elim (Bool-cases (has (ids taken) r.endpoint_id)) [
    | inr off ↦ rw off (left-Outcome r m off)
    | inl on ↦
        let (d, found, key) = has-row taken r.endpoint_id on in
        let (there, eligible) = All-Mem d _ taken taken_of found in
        let same : d ≡ r = IsKeyed-only r d rows keyed there m key in
        rw on (
          inl (
            claimed_row-IsClaimed now is_locked endpoints worker lease_ms r positive
                (is_due-IsEligible now is_locked endpoints r (rw same at eligible)),
            Mem-written r taken (subst (λ q. Memᴰ q taken) same found),
          ))
  ]

  written-endpoint_id : (r : RuntimeRow) → (written r).endpoint_id ≡ r.endpoint_id
  unfolding claimed_row
  written-endpoint_id r = refl

  ids-written : (ds : Table) → ids (map written ds) ≡ ids ds
  ids-written [] = refl
  ids-written (d ∷ ds) = rw (written-endpoint_id d, ids-written ds) refl

  IsKeyed-written : (ds : Table) → IsKeyed ds → IsKeyed (map written ds)
  IsKeyed-written [] h = tt
  IsKeyed-written (d ∷ ds) (new, h) =
      (rw (ids-written ds, written-endpoint_id d) new, IsKeyed-written ds h)

  AreLogged-written : (ds : Table) → AreLogged (map written ds) (map entry_of ds)
  unfolding claimed_row
  AreLogged-written [] = tt
  AreLogged-written (d ∷ ds) = (refl, refl, AreLogged-written ds)

  AreInOrder-entries : (ds : Table) → IsOrdered ds → AreInOrder (map entry_of ds)
  AreInOrder-entries [] h = tt
  AreInOrder-entries (d ∷ ds) (first, h) = (later ds first, AreInOrder-entries ds h)
    where
      later :
          (es : Table)
          → All (λ (s : RuntimeRow). d.next_run_at ≤ s.next_run_at) es
          → All (λ (e : Entry). d.next_run_at ≤ e.1) (map entry_of es)
      later [] k = tt
      later (e ∷ es) (p, k) = (p, later es k)

  IsOrdered-taken : IsOrdered taken
  unfolding due
  IsOrdered-taken =
      let eligible = due_rows (is_due now is_locked endpoints) rows in
      IsOrdered-take batch_size (by_next_run eligible) (IsOrdered-by_next_run eligible)

  length-taken : length taken ≤ batch_size
  unfolding due
  length-taken =
      let size =
        length-take batch_size (by_next_run (due_rows (is_due now is_locked endpoints) rows)) in
      omega (arith, size)

  -- The rows that a claim returns are distinct and at most a batch, each logged under its slot and
  -- the slots in order. Each row of the table either is claimed and returned: then its endpoint is
  -- enabled, its slot was due and under no live lease, its new lease is the worker's, and its next
  -- slot is the first after now on the grid of its slot and interval. Or it stays as it was: then it
  -- may not be claimed, or the batch is full of slots that are not later. Intervals are positive,
  -- and no two rows have one endpoint.
  pub claim_rules :
      IsPositive endpoints
      → IsKeyed rows
      → let (returned, after, logged) =
          claim now worker lease_ms is_locked endpoints batch_size rows in
        (step : RuntimeRow → RuntimeRow) × (after ≡ map step rows)
        × All (λ r. Outcome returned logged r (step r)) rows
        × (length returned ≤ batch_size)
        × IsKeyed returned
        × AreLogged returned logged
        × AreInOrder logged
  unfolding claim
  claim_rules positive keyed = (
    step,
    refl,
    All-map _ (λ r. Outcome (map written taken) (map entry_of taken) r (step r))
        (λ r m. step-Outcome r positive keyed m) rows (All-self rows),
    omega (arith, length-written taken, length-taken),
    IsKeyed-written taken (IsKeyed-due now is_locked endpoints batch_size rows keyed),
    AreLogged-written taken,
    AreInOrder-entries taken IsOrdered-taken,
  )
