-- ===== src/Scheduling/Runtime/Slots.antt =====
-- No slot of an endpoint is claimed twice, whichever workers run which statements in which order.
use probeboard_api.Common.{
  ℕ, ◌≡◌, refl, inl, inr, Bool, true, false, not, ◌&&◌, ◌||◌, none, some, List, [], ◌∷◌, ◌++◌,
  arith, if◌then◌else◌, Bool-cases, Option-cases, All, All-append, Text, text_eq, has,
}
use mathlib.Core.Path.{subst}
use probeboard_api.Scheduling.Runtime.{
  Endpoint, RuntimeRow, Entry, Table, ids, lookup_endpoint, is_free, is_distinct_from, first_row,
  adopt, reconcile_row, reconcile, is_fenced, release, abandon,
}
use probeboard_api.Scheduling.Runtime.Tables.{IsKeyed, text_eq_comm}
use probeboard_api.Scheduling.Runtime.Claims.{IsPositive, lookup_endpoint-positive}
use probeboard_api.Scheduling.Runtime.Statements.{
  Statement, adopted, reconciles, claimed, released, abandoned, ReadsPositive, Store, execute, run,
  empty_store, IsUnique, IsAhead, Covers, Good, IsSound, Entries-map, Moves, Moves-IsSound,
}
use probeboard_api.Scheduling.Runtime.Logging.{claim-IsSound}

released-Moves :
    (p : RuntimeRow → Bool) (now : ℕ)
    → Moves (λ r.
      if p r
      then record r { leased_until = none; leased_by = none; last_probe_at = some now }
      else r)
released-Moves p now r ahead = elim (Bool-cases (p r)) [
  | inl on ↦ rw on (refl, ahead, λ slot k. k)
  | inr off ↦ rw off (refl, ahead, λ slot k. k)
]

abandoned-Moves :
    (p : RuntimeRow → Bool)
    → Moves (λ r. if p r then record r { leased_until = none; leased_by = none } else r)
abandoned-Moves p r ahead = elim (Bool-cases (p r)) [
  | inl on ↦ rw on (refl, ahead, λ slot k. k)
  | inr off ↦ rw off (refl, ahead, λ slot k. k)
]

reconcile_row-Moves :
    (now : ℕ) (is_locked : Text → Bool) (endpoints : List Endpoint)
    → IsPositive endpoints
    → Moves (reconcile_row now is_locked endpoints)
unfolding reconcile_row
reconcile_row-Moves now is_locked endpoints positive r ahead =
    elim (Bool-cases (is_free now r.leased_until && not (is_locked r.endpoint_id))) [
      | inr off ↦ rw off (refl, ahead, λ slot k. k)
      | inl on ↦ elim (Option-cases r.scheduled_at) [
        | inl first ↦ rw (on, first) (refl, tt, λ slot k. k)
        | inr (t, held) ↦ elim (Option-cases (lookup_endpoint r.endpoint_id endpoints)) [
          | inl missing ↦
              rw (on, held, missing)
                (refl, subst (λ o. IsAhead o r.next_run_at) held ahead, λ slot k. k)
          | inr (e, found) ↦
              elim (Bool-cases (is_distinct_from r.scheduled_interval_s e.interval_s)) [
                | inr same ↦
                    rw (on, held, found, same)
                      (refl, subst (λ o. IsAhead o r.next_run_at) held ahead, λ slot k. k)
                | inl stale ↦
                    rw (on, held, found, stale)
                      (
                        refl,
                        omega (
                          arith,
                          lookup_endpoint-positive r.endpoint_id endpoints e positive found,
                        ),
                        λ slot k. k,
                      )
              ]
        ]
      ]
    ]

has-append :
    (rows ds : Table) (id : Text)
    → has (ids (rows ++ ds)) id ≡ (has (ids rows) id || has (ids ds) id)
has-append [] ds id = refl
has-append (r ∷ rows) ds id = rw (has-append rows ds id) (ground arith)

IsKeyed-append :
    (rows : Table) (r : RuntimeRow)
    → IsKeyed rows
    → has (ids rows) r.endpoint_id ≡ false
    → IsKeyed (rows ++ r ∷ [])
IsKeyed-append [] r k new = (refl, tt)
IsKeyed-append (q ∷ rows) r (first, k) new = (
  rw (has-append rows (r ∷ []) q.endpoint_id) (
      let other : text_eq r.endpoint_id q.endpoint_id ≡ false =
        ground (arith, text_eq_comm r.endpoint_id q.endpoint_id, new) in
      ground (arith, first, other)),
  IsKeyed-append rows r k (ground (arith, new)),
)

-- A row with no slot is covered where the log does not know its endpoint.
Covers-first :
    (r : RuntimeRow) (rows : Table) (log : List Entry)
    → has (ids rows) r.endpoint_id ≡ false
    → All (λ e. has (ids rows) e.0 ≡ true) log
    → All (Covers r) log
Covers-first r rows log new known =
    Entries-map (λ e there same. absurd (clash e there same)) log known
  where
    clash : (e : Entry) → has (ids rows) e.0 ≡ true → e.0 ≡ r.endpoint_id → ⊥
    clash e there same = cc (there, same, new)

first-IsSound :
    (now : ℕ) (jitter : Text → ℕ) (e : Endpoint) (s : Store)
    → IsSound s
    → IsSound (record s {
      rows = if has (ids s.rows) e.id then s.rows else s.rows ++ first_row now jitter e ∷ [];
    })
first-IsSound now jitter e s h = elim (Bool-cases (has (ids s.rows) e.id)) [
  | inl old ↦ rw old (record { good = h.good; known = h.known; keyed = h.keyed; unique = h.unique })
  | inr new ↦ rw new (record {
    good =
        All-append (Good s.claim_log) s.rows (first_row now jitter e ∷ []) h.good
          ((tt, Covers-first (first_row now jitter e) s.rows s.claim_log new h.known), tt);
    known =
        Entries-map
          (λ x there. rw (has-append s.rows (first_row now jitter e ∷ []) x.0, there) refl)
          s.claim_log h.known;
    keyed = IsKeyed-append s.rows (first_row now jitter e) h.keyed new;
    unique = h.unique;
  })
]

adopt-IsSound :
    (now : ℕ) (jitter : Text → ℕ) (endpoints : List Endpoint) (s : Store)
    → IsSound s
    → IsSound (record s { rows = adopt now jitter endpoints s.rows })
unfolding adopt
adopt-IsSound now jitter [] s h = record {
  good = h.good;
  known = h.known;
  keyed = h.keyed;
  unique = h.unique;
}
adopt-IsSound now jitter (e ∷ endpoints) s h =
    adopt-IsSound now jitter endpoints _ (first-IsSound now jitter e s h)

execute-IsSound :
    (statement : Statement) (s : Store)
    → ReadsPositive statement
    → IsSound s
    → IsSound (execute statement s)
unfolding execute
execute-IsSound (adopted now jitter endpoints) s p h = adopt-IsSound now jitter endpoints s h
execute-IsSound (reconciles now is_locked endpoints) s p h =
    unfold reconcile in
    Moves-IsSound (reconcile_row now is_locked endpoints)
      (reconcile_row-Moves now is_locked endpoints p) s h
execute-IsSound (claimed now worker lease_ms is_locked endpoints batch_size) s p h =
    claim-IsSound now worker lease_ms is_locked endpoints batch_size p s h
execute-IsSound (released now id worker slot) s p h =
    unfold release in Moves-IsSound _ (released-Moves (is_fenced id worker slot) now) s h
execute-IsSound (abandoned id worker slot) s p h =
    unfold abandon in Moves-IsSound _ (abandoned-Moves (is_fenced id worker slot)) s h

run-IsSound :
    (statements : List Statement) (s : Store)
    → All ReadsPositive statements
    → IsSound s
    → IsSound (run statements s)
unfolding run
run-IsSound [] s p h = h
run-IsSound (statement ∷ statements) s (p, ps) h =
    run-IsSound statements (execute statement s) ps (execute-IsSound statement s p h)

-- From empty tables, whichever workers run which of the statements in which order and at whatever
-- times, no slot of an endpoint is logged as claimed twice. Intervals are positive.
pub run-IsUnique :
    (statements : List Statement)
    → All ReadsPositive statements
    → IsUnique (run statements empty_store).claim_log
run-IsUnique statements p =
    (run-IsSound statements empty_store p
      (record { good = tt; known = tt; keyed = tt; unique = tt })).unique
