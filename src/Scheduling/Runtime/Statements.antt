-- ===== src/Scheduling/Runtime/Statements.antt =====
-- The statements as steps on the tables, and what the steps keep.
use probeboard_api.Common.{
  ℕ, ◌≤◌, ◌<◌, ◌≡◌, refl, ◌∙◌, ◌≢◌, Bool, true, Option, none, some, List, [], ◌∷◌, ◌++◌, map, All,
  Text, has,
}
use probeboard_api.Scheduling.Runtime.{
  Endpoint, RuntimeRow, Entry, Table, ids, adopt, reconcile, claim, release, abandon,
}
use probeboard_api.Scheduling.Runtime.Tables.{IsKeyed}
use probeboard_api.Scheduling.Runtime.Claims.{IsPositive}

-- A statement that a worker runs, with the clock of the database and the endpoints it reads.
pub data Statement : Type 0 where
  adopted : ℕ → (Text → ℕ) → List Endpoint → Statement
  reconciles : ℕ → (Text → Bool) → List Endpoint → Statement
  claimed : ℕ → Text → ℕ → (Text → Bool) → List Endpoint → ℕ → Statement
  released : ℕ → Text → Text → ℕ → Statement
  abandoned : Text → Text → ℕ → Statement

pub record Store : Type 0 where
  pub rows : Table
  pub claim_log : List Entry

unfoldable pub execute : Statement → Store → Store
execute (adopted now jitter endpoints) s = record s { rows = adopt now jitter endpoints s.rows }
execute (reconciles now is_locked endpoints) s = record s {
  rows = reconcile now is_locked endpoints s.rows;
}
execute (claimed now worker lease_ms is_locked endpoints batch_size) s =
    let (taken, rows, log) = claim now worker lease_ms is_locked endpoints batch_size s.rows in
    record { rows = rows; claim_log = s.claim_log ++ log }
execute (released now id worker slot) s = record s { rows = release now id worker slot s.rows }
execute (abandoned id worker slot) s = record s { rows = abandon id worker slot s.rows }

unfoldable pub run : List Statement → Store → Store
unfolding execute
run [] s = s
run (statement ∷ statements) s = run statements (execute statement s)

abbrev pub empty_store : Store
empty_store = record { rows = []; claim_log = [] }

-- The endpoints that a statement reads have positive intervals, as the table's check wants.
abbrev pub ReadsPositive : Statement → Type 0
ReadsPositive (adopted now jitter endpoints) = IsPositive endpoints
ReadsPositive (reconciles now is_locked endpoints) = IsPositive endpoints
ReadsPositive (claimed now worker lease_ms is_locked endpoints batch_size) = IsPositive endpoints
ReadsPositive (released now id worker slot) = Unit
ReadsPositive (abandoned id worker slot) = Unit

abbrev pub IsUnique : List Entry → Type 0
IsUnique [] = Unit
IsUnique (e ∷ log) = All (λ f. f ≢ e) log × IsUnique log

abbrev pub NotAfter : ℕ → Option ℕ → Type 0
NotAfter slot none = ⊥
NotAfter slot (some s) = slot ≤ s

-- The claimed slot of a row lies before its next one.
abbrev pub IsAhead : Option ℕ → ℕ → Type 0
IsAhead none next = Unit
IsAhead (some s) next = s < next

-- What the log says of the endpoint of a row is no later than the slot that the row holds.
abbrev pub Covers : RuntimeRow → Entry → Type 0
Covers r e = e.0 ≡ r.endpoint_id → NotAfter e.1 r.scheduled_at

abbrev pub Good : List Entry → RuntimeRow → Type 0
Good log r = IsAhead r.scheduled_at r.next_run_at × All (Covers r) log

pub record IsSound (s : Store) : Type 0 where
  pub good : All (Good s.claim_log) s.rows
  pub known : All (λ e. has (ids s.rows) e.0 ≡ true) s.claim_log
  pub keyed : IsKeyed s.rows
  pub unique : IsUnique s.claim_log

module _ {P Q : Entry → Type 0} where
  pub Entries-map : (f : (e : Entry) → P e → Q e) (log : List Entry) → All P log → All Q log
  Entries-map f [] h = tt
  Entries-map f (e ∷ log) (p, h) = (f e p, Entries-map f log h)

-- A change of rows that keeps their keys and slots, or moves a slot on, keeps a store sound.
abbrev pub Moves : (RuntimeRow → RuntimeRow) → Type 0
Moves f =
    (r : RuntimeRow)
    → IsAhead r.scheduled_at r.next_run_at
    → ((f r).endpoint_id ≡ r.endpoint_id)
      × IsAhead (f r).scheduled_at (f r).next_run_at
      × ((slot : ℕ) → NotAfter slot r.scheduled_at → NotAfter slot (f r).scheduled_at)

module _ (f : RuntimeRow → RuntimeRow) (moves : Moves f) where
  pub Moves-Good : (log : List Entry) (r : RuntimeRow) → Good log r → Good log (f r)
  Moves-Good log r (ahead, covers) =
      let (same, ahead', later) = moves r ahead in
      (ahead', Entries-map (λ e c k. later e.1 (c (k ∙ same))) log covers)

  Moves-rows : (log : List Entry) (rows : Table) → All (Good log) rows → All (Good log) (map f rows)
  Moves-rows log [] h = tt
  Moves-rows log (r ∷ rows) (g, h) = (Moves-Good log r g, Moves-rows log rows h)

  pub Moves-ids :
      (log : List Entry) (rows : Table) → All (Good log) rows → ids (map f rows) ≡ ids rows
  Moves-ids log [] h = refl
  Moves-ids log (r ∷ rows) (g, h) = cc ((moves r g.0).0, Moves-ids log rows h)

  pub Moves-IsKeyed :
      (log : List Entry) (rows : Table) → All (Good log) rows → IsKeyed rows → IsKeyed (map f rows)
  Moves-IsKeyed log [] h k = tt
  Moves-IsKeyed log (r ∷ rows) (g, h) (new, k) =
      (rw (Moves-ids log rows h, (moves r g.0).0) new, Moves-IsKeyed log rows h k)

  pub Moves-IsSound : (s : Store) → IsSound s → IsSound (record s { rows = map f s.rows })
  Moves-IsSound s h = record {
    good = Moves-rows s.claim_log s.rows h.good;
    known = rw (Moves-ids s.claim_log s.rows h.good) h.known;
    keyed = Moves-IsKeyed s.claim_log s.rows h.good h.keyed;
    unique = h.unique;
  }
