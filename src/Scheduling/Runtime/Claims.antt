-- ===== src/Scheduling/Runtime/Claims.antt =====
-- Where a claim puts the next slot of a row that is due, and what a batch keeps of the order.
use probeboard_api.Common.{
  ℕ, zero, suc, ◌+◌, ◌-◌, ◌*◌, ◌/◌, ◌≤◌, ◌<◌, ◌≡◌, inl, inr, some, List, [], ◌∷◌, arith, Bool-cases,
  take, All, Text, text_eq,
}
use probeboard_api.Scheduling.Runtime.{Endpoint, Table, micros, lookup_endpoint, next_slot}
use probeboard_api.Scheduling.Runtime.Tables.{All-take, IsOrdered}

abbrev pub IsPositive : List Endpoint → Type 0
IsPositive endpoints = All (λ e. 1 ≤ e.interval_s) endpoints

pub lookup_endpoint-positive :
    (id : Text) (endpoints : List Endpoint) (e : Endpoint)
    → IsPositive endpoints
    → lookup_endpoint id endpoints ≡ some e
    → 1 ≤ e.interval_s
lookup_endpoint-positive id [] e h k = cc
lookup_endpoint-positive id (f ∷ endpoints) e (p, h) k = elim (Bool-cases (text_eq f.id id)) [
  | inl here ↦ let same : some f ≡ some e = rw here at k in ground (arith, same)
  | inr there ↦ lookup_endpoint-positive id endpoints e h (rw there at k)
]

steps : (d w : ℕ) → 1 ≤ w → (d < w * (d / w + 1)) × (w * (d / w + 1) ≤ d + w)
steps d w h = grind arith

-- The next slot is after now, by an interval at most.
pub next_slot_lem :
    (now slot interval_s : ℕ)
    → 1 ≤ interval_s
    → slot ≤ now
    → (now < next_slot now slot interval_s)
      × (next_slot now slot interval_s ≤ now + interval_s * micros)
unfolding next_slot
next_slot_lem now slot interval_s p h =
    omega (arith, steps (now - slot) (interval_s * micros) (omega arith))

pub IsOrdered-take : (n : ℕ) (rows : Table) → IsOrdered rows → IsOrdered (take n rows)
IsOrdered-take zero rows h = tt
IsOrdered-take (suc n) [] h = tt
IsOrdered-take (suc n) (r ∷ rows) (first, h) =
    (All-take (λ s. r.next_run_at ≤ s.next_run_at) n rows first, IsOrdered-take n rows h)
