-- ===== src/Scheduling/Runtime/Tables.antt =====
-- Tables with one row for each endpoint, and what filtering, ordering and limiting keep of them.
use probeboard_api.Common.{
  ℕ, zero, suc, ◌≤◌, ◌≡◌, refl, sym, ◌∙◌, ◌≢◌, inl, inr, Bool, true, false, ◌||◌, List, [], ◌∷◌,
  arith, leb, leb→le, Bool-cases, take, All, Text, text_eq, text_eq_iff, has,
}
use probeboard_api.Scheduling.Runtime.{
  Endpoint, is_due, due, RuntimeRow, Table, ids, due_rows, insert_row, by_next_run,
}

abbrev pub IsKeyed : Table → Type 0
IsKeyed [] = Unit
IsKeyed (r ∷ rows) = (has (ids rows) r.endpoint_id ≡ false) × IsKeyed rows

module _ (P : RuntimeRow → Type 0) where
  pub All-take : (n : ℕ) (rows : Table) → All P rows → All P (take n rows)
  All-take zero rows h = tt
  All-take (suc n) [] h = tt
  All-take (suc n) (r ∷ rows) (p, h) = (p, All-take n rows h)

  pub All-due_rows :
      (t : RuntimeRow → Bool) (rows : Table)
      → All P rows
      → All (λ r. P r × (t r ≡ true)) (due_rows t rows)
  unfolding due_rows
  All-due_rows t [] h = tt
  All-due_rows t (r ∷ rows) (p, h) = elim (Bool-cases (t r)) [
    | inl on ↦ rw on ((p, on), All-due_rows t rows h)
    | inr off ↦ rw off (All-due_rows t rows h)
  ]

  All-insert_row : (r : RuntimeRow) (rows : Table) → P r → All P rows → All P (insert_row r rows)
  unfolding insert_row
  All-insert_row r [] p h = (p, tt)
  All-insert_row r (s ∷ rows) p (q, h) = elim (Bool-cases (leb r.next_run_at s.next_run_at)) [
    | inl le ↦ rw le (p, (q, h))
    | inr gt ↦ rw gt (q, All-insert_row r rows p h)
  ]

  pub All-by_next_run : (rows : Table) → All P rows → All P (by_next_run rows)
  unfolding by_next_run
  All-by_next_run [] h = tt
  All-by_next_run (r ∷ rows) (p, h) = All-insert_row r (by_next_run rows) p (All-by_next_run rows h)

pub All-map :
    (P Q : RuntimeRow → Type 0) (f : (r : RuntimeRow) → P r → Q r) (rows : Table)
    → All P rows
    → All Q rows
All-map P Q f [] h = tt
All-map P Q f (r ∷ rows) (p, h) = (f r p, All-map P Q f rows h)

has-take :
    (n : ℕ) (rows : Table) (id : Text)
    → has (ids rows) id ≡ false
    → has (ids (take n rows)) id ≡ false
has-take zero rows id h = refl
has-take (suc n) [] id h = refl
has-take (suc n) (r ∷ rows) id h = ground (arith, has-take n rows id)

pub IsKeyed-take : (n : ℕ) (rows : Table) → IsKeyed rows → IsKeyed (take n rows)
IsKeyed-take zero rows h = tt
IsKeyed-take (suc n) [] h = tt
IsKeyed-take (suc n) (r ∷ rows) (new, h) =
    (has-take n rows r.endpoint_id new, IsKeyed-take n rows h)

has-due_rows :
    (t : RuntimeRow → Bool) (rows : Table) (id : Text)
    → has (ids rows) id ≡ false
    → has (ids (due_rows t rows)) id ≡ false
unfolding due_rows
has-due_rows t [] id h = refl
has-due_rows t (r ∷ rows) id h = elim (Bool-cases (t r)) [
  | inl on ↦ rw on (ground (arith, has-due_rows t rows id))
  | inr off ↦ rw off (ground (arith, has-due_rows t rows id))
]

pub IsKeyed-due_rows :
    (t : RuntimeRow → Bool) (rows : Table) → IsKeyed rows → IsKeyed (due_rows t rows)
unfolding due_rows
IsKeyed-due_rows t [] h = tt
IsKeyed-due_rows t (r ∷ rows) (new, h) = elim (Bool-cases (t r)) [
  | inl on ↦ rw on (has-due_rows t rows r.endpoint_id new, IsKeyed-due_rows t rows h)
  | inr off ↦ rw off (IsKeyed-due_rows t rows h)
]

has-insert_row :
    (r : RuntimeRow) (rows : Table) (id : Text)
    → has (ids (insert_row r rows)) id ≡ (text_eq r.endpoint_id id || has (ids rows) id)
unfolding insert_row
has-insert_row r [] id = refl
has-insert_row r (s ∷ rows) id = elim (Bool-cases (leb r.next_run_at s.next_run_at)) [
  | inl le ↦ rw le refl
  | inr gt ↦ rw (gt, has-insert_row r rows id) (ground arith)
]

has-by_next_run : (rows : Table) (id : Text) → has (ids (by_next_run rows)) id ≡ has (ids rows) id
unfolding by_next_run
has-by_next_run [] id = refl
has-by_next_run (r ∷ rows) id =
    rw (has-insert_row r (by_next_run rows) id, has-by_next_run rows id) refl

pub text_eq_comm : (s t : Text) → text_eq s t ≡ text_eq t s
text_eq_comm s t = elim (Bool-cases (text_eq s t)) [
  | inl same ↦ rw ((text_eq_iff s t).0 same) refl
  | inr other ↦ elim (Bool-cases (text_eq t s)) [
    | inl same ↦ rw ((text_eq_iff t s).0 same) refl
    | inr still ↦ other ∙ sym still
  ]
]

IsKeyed-insert_row :
    (r : RuntimeRow) (rows : Table)
    → has (ids rows) r.endpoint_id ≡ false
    → IsKeyed rows
    → IsKeyed (insert_row r rows)
unfolding insert_row
IsKeyed-insert_row r [] new h = (refl, tt)
IsKeyed-insert_row r (s ∷ rows) new (key, h) = elim (Bool-cases (leb r.next_run_at s.next_run_at)) [
  | inl le ↦ rw le (new, (key, h))
  | inr gt ↦ rw gt (
    rw (has-insert_row r rows s.endpoint_id)
        (ground (arith, text_eq_comm r.endpoint_id s.endpoint_id, new, key)),
    IsKeyed-insert_row r rows (ground (arith, new)) h,
  )
]

pub IsKeyed-by_next_run : (rows : Table) → IsKeyed rows → IsKeyed (by_next_run rows)
unfolding by_next_run
IsKeyed-by_next_run [] h = tt
IsKeyed-by_next_run (r ∷ rows) (new, h) =
    IsKeyed-insert_row r (by_next_run rows) (has-by_next_run rows r.endpoint_id ∙ new)
      (IsKeyed-by_next_run rows h)

-- The rows are in the order of their next slots.
abbrev pub IsOrdered : Table → Type 0
IsOrdered [] = Unit
IsOrdered (r ∷ rows) = All (λ s. r.next_run_at ≤ s.next_run_at) rows × IsOrdered rows

IsOrdered-insert_row :
    (r : RuntimeRow) (rows : Table) → IsOrdered rows → IsOrdered (insert_row r rows)
unfolding insert_row
IsOrdered-insert_row r [] h = (tt, tt)
IsOrdered-insert_row r (s ∷ rows) (first, h) = elim (Bool-cases (leb r.next_run_at s.next_run_at)) [
  | inl le ↦ rw le (
    (
      leb→le _ _ le,
      All-map (λ q. s.next_run_at ≤ q.next_run_at) (λ q. r.next_run_at ≤ q.next_run_at)
          (λ q b. omega (arith, b, leb→le _ _ le)) rows first,
    ),
    (first, h),
  )
  | inr gt ↦ rw gt (
    All-insert_row (λ q. s.next_run_at ≤ q.next_run_at) r rows (ground arith) first,
    IsOrdered-insert_row r rows h,
  )
]

pub IsOrdered-by_next_run : (rows : Table) → IsOrdered (by_next_run rows)
unfolding by_next_run
IsOrdered-by_next_run [] = tt
IsOrdered-by_next_run (r ∷ rows) =
    IsOrdered-insert_row r (by_next_run rows) (IsOrdered-by_next_run rows)

module _ (P : RuntimeRow → Type 0) (now : ℕ) (is_locked : Text → Bool)
    (endpoints : List Endpoint) where
  -- What holds of every row holds of the rows taken.
  pub All-due :
      (batch_size : ℕ) (rows : Table)
      → All P rows
      → All P (due now is_locked endpoints batch_size rows)
  unfolding due
  All-due batch_size rows h =
      let eligible = due_rows (is_due now is_locked endpoints) rows in
      All-take P batch_size (by_next_run eligible) (
        All-by_next_run P eligible (
          All-map _ P (λ r both. both.0) eligible
            (All-due_rows P (is_due now is_locked endpoints) rows h)))

module _ (now : ℕ) (is_locked : Text → Bool) (endpoints : List Endpoint) where
  pub IsKeyed-due :
      (batch_size : ℕ) (rows : Table)
      → IsKeyed rows
      → IsKeyed (due now is_locked endpoints batch_size rows)
  unfolding due
  IsKeyed-due batch_size rows h =
      IsKeyed-take batch_size _
        (IsKeyed-by_next_run _ (IsKeyed-due_rows (is_due now is_locked endpoints) rows h))

pub has-others :
    (rows : Table) (id : Text) → has (ids rows) id ≡ false → All (λ r. id ≢ r.endpoint_id) rows
has-others [] id h = tt
has-others (r ∷ rows) id h = (
  λ e. let here = (text_eq_iff r.endpoint_id id).1 (sym e) in ground (arith, here, h),
  has-others rows id (ground (arith, h)),
)

-- Every row is there under its own key.
pub has-own : (rows : Table) → All (λ r. has (ids rows) r.endpoint_id ≡ true) rows
has-own [] = tt
has-own (r ∷ rows) = (
  (let here = (text_eq_iff r.endpoint_id r.endpoint_id).1 refl in ground (arith, here)),
  All-map _ _ (λ s h. ground (arith, h)) rows (has-own rows),
)

abbrev pub SameSlot : RuntimeRow → RuntimeRow → Type 0
SameSlot d r = d.endpoint_id ≡ r.endpoint_id → d.next_run_at ≡ r.next_run_at

pub All-both :
    (P Q : RuntimeRow → Type 0) (rows : Table) → All P rows → All Q rows → All (λ r. P r × Q r) rows
All-both P Q [] h k = tt
All-both P Q (r ∷ rows) (p, h) (q, k) = ((p, q), All-both P Q rows h k)

-- In a keyed table the key tells the row.
pub IsKeyed-SameSlot : (rows : Table) → IsKeyed rows → All (λ d. All (SameSlot d) rows) rows
IsKeyed-SameSlot [] h = tt
IsKeyed-SameSlot (r ∷ rows) (new, h) =
    let others = has-others rows r.endpoint_id new in
    (
      (λ e. refl, All-map _ (SameSlot r) (λ s other e. absurd (other e)) rows others),
      All-map _ _ (λ d (other, same). (λ e. absurd (other (sym e)), same)) rows
          (All-both _ _ rows others (IsKeyed-SameSlot rows h)),
    )
