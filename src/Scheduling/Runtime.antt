-- ===== src/Scheduling/Runtime.antt =====
-- worker/scheduler/repositories/endpoint-runtime.repository.ts: the statements on the table
-- `endpoint_runtime` and its log of claims. A table is the list of its rows. The clock of the
-- database is an argument, in microseconds; `is_locked` tells the rows that another statement
-- holds, which `SKIP LOCKED` passes over.
pub mod Tables
pub mod Claims
pub mod Statements
pub mod Members
pub mod Eligible
pub mod Rows
pub mod Logging
pub mod Slots
mod Tests
use probeboard_api.Common.{
  ℕ, zero, suc, ◌+◌, ◌-◌, ◌*◌, ◌/◌, min, max, refl, sym, ap, inl, inr, Bool, true, false, not, ◌&&◌,
  and-eq-true_iff, Option, none, some, List, [], ◌∷◌, ◌++◌, map, append_assoc, append-nil, arith,
  ltb, leb, ◌==◌, if◌then◌else◌, ltb→lt, lt→ltb, leb→le, ==_iff, tests, Bool-cases, Option-cases,
  length, get_elem?, get_or, take, replicate, length-append, length-take, all, any, find, All,
  All-append, ℤ, pos, negsuc, sub_ℕ, Text, codes, text_eq, text_eq_iff, starts_with, includes, has,
  lower_unit, upper_unit, to_lower_case, to_upper_case,
}

pub record Endpoint : Type 0 where
  pub id : Text
  pub interval_s : ℕ
  pub enabled : Bool

pub record RuntimeRow : Type 0 where
  pub endpoint_id : Text
  pub next_run_at : ℕ
  pub scheduled_at : Option ℕ
  pub scheduled_interval_s : Option ℕ
  pub leased_until : Option ℕ
  pub leased_by : Option Text
  pub last_probe_at : Option ℕ

-- A row of the log: the endpoint and the slot.
abbrev pub Entry : Type 0
Entry = Text × ℕ

abbrev pub Table : Type 0
Table = List RuntimeRow

abbrev pub micros : ℕ
micros = 1000000

abbrev pub ids : Table → List Text
ids rows = map (λ r. r.endpoint_id) rows

abbrev pub lookup_endpoint : Text → List Endpoint → Option Endpoint
lookup_endpoint id [] = none
lookup_endpoint id (e ∷ endpoints) =
    let rest = lookup_endpoint id endpoints in if text_eq e.id id then some e else rest

-- `leased_until IS NULL OR leased_until < now()`.
abbrev pub is_free : ℕ → Option ℕ → Bool
is_free now none = true
is_free now (some until) = ltb until now

abbrev pub first_row : ℕ → (Text → ℕ) → Endpoint → RuntimeRow
first_row now jitter e = record {
  endpoint_id = e.id;
  next_run_at = now + jitter e.id;
  scheduled_at = none;
  scheduled_interval_s = some e.interval_s;
  leased_until = none;
  leased_by = none;
  last_probe_at = none;
}

-- `jitter` is what `random()` comes to for each endpoint, in microseconds.
unfoldable pub adopt : ℕ → (Text → ℕ) → List Endpoint → Table → Table
adopt now jitter [] rows = rows
adopt now jitter (e ∷ endpoints) rows =
    adopt now jitter endpoints
      (if has (ids rows) e.id then rows else rows ++ first_row now jitter e ∷ [])

-- `IS DISTINCT FROM` a value.
abbrev pub is_distinct_from : Option ℕ → ℕ → Bool
is_distinct_from none n = true
is_distinct_from (some m) n = not (m == n)

abbrev pub reconciled : Option ℕ → Option Endpoint → RuntimeRow → RuntimeRow
reconciled none e r = r
reconciled (some slot) none r = r
reconciled (some slot) (some e) r =
    if is_distinct_from r.scheduled_interval_s e.interval_s
    then record r {
      next_run_at = slot + e.interval_s * micros;
      scheduled_interval_s = some e.interval_s;
    }
    else r

unfoldable pub reconcile_row : ℕ → (Text → Bool) → List Endpoint → RuntimeRow → RuntimeRow
reconcile_row now is_locked endpoints r =
    if is_free now r.leased_until && not (is_locked r.endpoint_id)
    then reconciled r.scheduled_at (lookup_endpoint r.endpoint_id endpoints) r
    else r

unfoldable pub reconcile : ℕ → (Text → Bool) → List Endpoint → Table → Table
reconcile now is_locked endpoints rows = map (reconcile_row now is_locked endpoints) rows

abbrev pub is_enabled : Option Endpoint → Bool
is_enabled none = false
is_enabled (some e) = e.enabled

unfoldable pub is_due : ℕ → (Text → Bool) → List Endpoint → RuntimeRow → Bool
is_due now is_locked endpoints r =
    is_enabled (lookup_endpoint r.endpoint_id endpoints)
    && (leb r.next_run_at now && (is_free now r.leased_until && not (is_locked r.endpoint_id)))

-- `WHERE`, `ORDER BY r.next_run_at`, and `LIMIT`.
unfoldable pub due_rows : (RuntimeRow → Bool) → Table → Table
due_rows p [] = []
due_rows p (r ∷ rows) = let rest = due_rows p rows in if p r then r ∷ rest else rest

unfoldable pub insert_row : RuntimeRow → Table → Table
insert_row r [] = r ∷ []
insert_row r (s ∷ rows) =
    let rest = insert_row r rows in
    if leb r.next_run_at s.next_run_at then r ∷ s ∷ rows else s ∷ rest

unfoldable pub by_next_run : Table → Table
unfolding insert_row
by_next_run [] = []
by_next_run (r ∷ rows) = insert_row r (by_next_run rows)

unfoldable pub due : ℕ → (Text → Bool) → List Endpoint → ℕ → Table → Table
unfolding due_rows by_next_run
due now is_locked endpoints batch_size rows =
    take batch_size (by_next_run (due_rows (is_due now is_locked endpoints) rows))

abbrev pub interval_of : Option Endpoint → ℕ
interval_of none = 0
interval_of (some e) = e.interval_s

-- The slot after `slot`, past the ones that were missed.
unfoldable pub next_slot : ℕ → ℕ → ℕ → ℕ
next_slot now slot interval_s =
    slot + interval_s * micros * ((now - slot) / (interval_s * micros) + 1)

-- A lease is given in milliseconds.
unfoldable pub claimed_row : ℕ → Text → ℕ → List Endpoint → RuntimeRow → RuntimeRow
claimed_row now worker lease_ms endpoints r = record r {
  scheduled_at = some r.next_run_at;
  next_run_at = next_slot now r.next_run_at interval_s;
  scheduled_interval_s = some interval_s;
  leased_until = some (now + lease_ms * 1000);
  leased_by = some worker;
}
  where
    interval_s : ℕ
    interval_s = interval_of (lookup_endpoint r.endpoint_id endpoints)

abbrev pub update_where : (RuntimeRow → Bool) → (RuntimeRow → RuntimeRow) → Table → Table
update_where p f rows = map (λ r. if p r then f r else r) rows

abbrev pub entry_of : RuntimeRow → Entry
entry_of r = (r.endpoint_id, r.next_run_at)

-- The rows claimed, the table after the claim, and what is logged of it.
unfoldable pub claim :
    ℕ → Text → ℕ → (Text → Bool) → List Endpoint → ℕ → Table → Table × Table × List Entry
claim now worker lease_ms is_locked endpoints batch_size rows =
    let taken = due now is_locked endpoints batch_size rows in
    (
      map (claimed_row now worker lease_ms endpoints) taken,
      update_where (λ r. has (ids taken) r.endpoint_id) (claimed_row now worker lease_ms endpoints)
          rows,
      map entry_of taken,
    )

abbrev pub holds : Option Text → Text → Bool
holds none worker = false
holds (some w) worker = text_eq w worker

abbrev pub is_slot : Option ℕ → ℕ → Bool
is_slot none slot = false
is_slot (some s) slot = s == slot

-- The fence of a release and of an abandonment.
unfoldable pub is_fenced : Text → Text → ℕ → RuntimeRow → Bool
is_fenced endpoint_id worker slot r =
    text_eq r.endpoint_id endpoint_id && (holds r.leased_by worker && is_slot r.scheduled_at slot)

unfoldable pub release : ℕ → Text → Text → ℕ → Table → Table
unfolding is_fenced
release now endpoint_id worker slot rows =
    update_where (is_fenced endpoint_id worker slot)
      (λ r. record r { leased_until = none; leased_by = none; last_probe_at = some now }) rows

unfoldable pub abandon : Text → Text → ℕ → Table → Table
unfolding is_fenced
abandon endpoint_id worker slot rows =
    update_where (is_fenced endpoint_id worker slot)
      (λ r. record r { leased_until = none; leased_by = none }) rows
