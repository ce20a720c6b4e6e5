-- ===== src/Scheduling/Runtime/Members.antt =====
-- Membership of a row in a table under filtering, ordering and limiting, and keys.
use probeboard_api.Common.{
  ℕ, zero, suc, ◌≤◌, ◌≡◌, refl, sym, ap, ◌∙◌, ◌⊎◌, inl, inr, Bool, true, false, [], ◌∷◌, arith, leb,
  Bool-cases, length, take, All, Text, text_eq, text_eq_iff, has,
}
use mathlib.Core.List.{Memᴰ}
use mathlib.Core.Path.{subst}
use probeboard_api.Scheduling.Runtime.{RuntimeRow, Table, ids, due_rows, insert_row, by_next_run}
use probeboard_api.Scheduling.Runtime.Tables.{IsKeyed, All-map, IsOrdered}

module _ (r : RuntimeRow) where
  pub Mem-due_rows :
      (p : RuntimeRow → Bool) (rows : Table) → p r ≡ true → Memᴰ r rows → Memᴰ r (due_rows p rows)
  unfolding due_rows
  Mem-due_rows p [] h m = elim m [ ]
  Mem-due_rows p (s ∷ rows) h (Memᴰ.head e) = let on : p s ≡ true = rw e at h in rw on (Memᴰ.head e)
  Mem-due_rows p (s ∷ rows) h (Memᴰ.tail m) = elim (Bool-cases (p s)) [
    | inl on ↦ rw on (Memᴰ.tail (Mem-due_rows p rows h m))
    | inr off ↦ rw off (Mem-due_rows p rows h m)
  ]

  Mem-insert_self : (rows : Table) → Memᴰ r (insert_row r rows)
  unfolding insert_row
  Mem-insert_self [] = Memᴰ.head refl
  Mem-insert_self (s ∷ rows) = elim (Bool-cases (leb r.next_run_at s.next_run_at)) [
    | inl le ↦ rw le (Memᴰ.head refl)
    | inr gt ↦ rw gt (Memᴰ.tail (Mem-insert_self rows))
  ]

  Mem-insert_row : (q : RuntimeRow) (rows : Table) → Memᴰ r rows → Memᴰ r (insert_row q rows)
  unfolding insert_row
  Mem-insert_row q [] m = elim m [ ]
  Mem-insert_row q (s ∷ rows) (Memᴰ.head e) = elim (Bool-cases (leb q.next_run_at s.next_run_at)) [
    | inl le ↦ rw le (Memᴰ.tail (Memᴰ.head e))
    | inr gt ↦ rw gt (Memᴰ.head e)
  ]
  Mem-insert_row q (s ∷ rows) (Memᴰ.tail k) = elim (Bool-cases (leb q.next_run_at s.next_run_at)) [
    | inl le ↦ rw le (Memᴰ.tail (Memᴰ.tail k))
    | inr gt ↦ rw gt (Memᴰ.tail (Mem-insert_row q rows k))
  ]

  pub Mem-by_next_run : (rows : Table) → Memᴰ r rows → Memᴰ r (by_next_run rows)
  unfolding by_next_run
  Mem-by_next_run [] m = elim m [ ]
  Mem-by_next_run (s ∷ rows) (Memᴰ.head e) =
      subst (λ q. Memᴰ r (insert_row q (by_next_run rows))) e (Mem-insert_self (by_next_run rows))
  Mem-by_next_run (s ∷ rows) (Memᴰ.tail m) =
      Mem-insert_row s (by_next_run rows) (Mem-by_next_run rows m)

  pub All-Mem : (P : RuntimeRow → Type 0) (rows : Table) → All P rows → Memᴰ r rows → P r
  All-Mem P [] h m = elim m [ ]
  All-Mem P (s ∷ rows) (p, h) (Memᴰ.head e) = subst P (sym e) p
  All-Mem P (s ∷ rows) (p, h) (Memᴰ.tail m) = All-Mem P rows h m

  -- Of ordered rows, one is among the first n, or they are n and none of them is later.
  pub Mem-take :
      (n : ℕ) (rows : Table)
      → IsOrdered rows
      → Memᴰ r rows
      → Memᴰ r (take n rows)
        ⊎ ((length (take n rows) ≡ n) × All (λ s. s.next_run_at ≤ r.next_run_at) (take n rows))
  Mem-take n [] h m = elim m [ ]
  Mem-take zero (s ∷ rows) h m = inr (refl, tt)
  Mem-take (suc n) (s ∷ rows) (first, h) (Memᴰ.head e) = inl (Memᴰ.head e)
  Mem-take (suc n) (s ∷ rows) (first, h) (Memᴰ.tail m) = elim (Mem-take n rows h m) [
    | inl found ↦ inl (Memᴰ.tail found)
    | inr (full, early) ↦
        inr (ap suc full, (All-Mem (λ q. s.next_run_at ≤ q.next_run_at) rows first m, early))
  ]

  pub has-Mem : (rows : Table) → Memᴰ r rows → has (ids rows) r.endpoint_id ≡ true
  has-Mem [] m = elim m [ ]
  has-Mem (s ∷ rows) (Memᴰ.head e) =
      let same =
        (text_eq_iff s.endpoint_id r.endpoint_id).1
          (ap (λ (q : RuntimeRow). q.endpoint_id) (sym e)) in
      ground (arith, same)
  has-Mem (s ∷ rows) (Memᴰ.tail m) = ground (arith, has-Mem rows m)

  -- In a keyed table the row with a key is the only one.
  pub IsKeyed-only :
      (d : RuntimeRow) (rows : Table)
      → IsKeyed rows
      → Memᴰ d rows
      → Memᴰ r rows
      → d.endpoint_id ≡ r.endpoint_id
      → d ≡ r
  IsKeyed-only d [] h m k e = elim m [ ]
  IsKeyed-only d (s ∷ rows) (new, h) (Memᴰ.head p) (Memᴰ.head q) e = p ∙ sym q
  IsKeyed-only d (s ∷ rows) (new, h) (Memᴰ.tail m) (Memᴰ.tail k) e = IsKeyed-only d rows h m k e
  IsKeyed-only d (s ∷ rows) (new, h) (Memᴰ.head p) (Memᴰ.tail k) e =
      let there = has-Mem rows k in
      let key : s.endpoint_id ≡ r.endpoint_id =
        ap (λ (q : RuntimeRow). q.endpoint_id) (sym p) ∙ e in
      let clash : true ≡ false = sym there ∙ rw key at new in cc
  IsKeyed-only d (s ∷ rows) (new, h) (Memᴰ.tail m) (Memᴰ.head q) e =
      absurd (later d rows m new (e ∙ ap (λ (q : RuntimeRow). q.endpoint_id) q))
    where
      later :
          (d : RuntimeRow) (rows : Table)
          → Memᴰ d rows
          → has (ids rows) s.endpoint_id ≡ false
          → d.endpoint_id ≡ s.endpoint_id
          → ⊥
      later d [] m n e = elim m [ ]
      later d (t ∷ rows) (Memᴰ.head p) n e =
          let same =
            (text_eq_iff t.endpoint_id s.endpoint_id).1
              (ap (λ (q : RuntimeRow). q.endpoint_id) (sym p) ∙ e) in
          ground (arith, same, n)
      later d (t ∷ rows) (Memᴰ.tail m) n e = later d rows m (ground (arith, n)) e

pub All-self : (rows : Table) → All (λ d. Memᴰ d rows) rows
All-self [] = tt
All-self (r ∷ rows) = (Memᴰ.head refl, All-map _ _ (λ d m. Memᴰ.tail m) rows (All-self rows))

-- A key of a table is that of one of its rows.
pub has-row :
    (rows : Table) (id : Text)
    → has (ids rows) id ≡ true
    → (d : RuntimeRow) × Memᴰ d rows × (d.endpoint_id ≡ id)
has-row [] id h = cc
has-row (r ∷ rows) id h = elim (Bool-cases (text_eq r.endpoint_id id)) [
  | inl here ↦ (r, Memᴰ.head refl, (text_eq_iff r.endpoint_id id).0 here)
  | inr there ↦ let (d, m, e) = has-row rows id (ground (arith, there, h)) in (d, Memᴰ.tail m, e)
]
