-- ===== src/Scheduling/Runtime/Tests.antt =====
-- Two workers on one endpoint that missed two slots.
use probeboard_api.Common.{
  ◌*◌, ◌≤◌, map, ◌≡◌, refl, Bool, true, false, List, [], ◌∷◌, arith, length, All, Text, codes,
}
use probeboard_api.Scheduling.Runtime.{
  Endpoint, RuntimeRow, Table, micros, adopt, is_due, due_rows, insert_row, by_next_run, due,
  next_slot, claimed_row, claim, is_fenced, release,
}
use probeboard_api.Scheduling.Runtime.Tables.{IsKeyed}
use probeboard_api.Scheduling.Runtime.Rows.{AreInOrder, Outcome, AreLogged, claim_rules}
use probeboard_api.Scheduling.Runtime.Statements.{
  Statement, adopted, claimed, released, execute, run, empty_store, IsUnique,
}
use probeboard_api.Scheduling.Runtime.Slots.{run-IsUnique}

abbrev endpoints : List Endpoint
endpoints = record { id = codes "e"; interval_s = 30; enabled = true } ∷ []

abbrev unlocked : Text → Bool
unlocked id = false

abbrev statements : List Statement
statements =
    adopted 0 (λ id. 5 * micros) endpoints
    ∷ claimed (70 * micros) (codes "w") 60000 unlocked endpoints 10
    ∷ claimed (71 * micros) (codes "v") 60000 unlocked endpoints 10
    ∷ released (80 * micros) (codes "e") (codes "w") (5 * micros)
    ∷ claimed (95 * micros) (codes "v") 60000 unlocked endpoints 10
    ∷ []

-- The second claim finds the lease; the third takes the next slot on the grid.
logs :
    (run statements empty_store).claim_log ≡ (codes "e", 5 * micros) ∷ (codes "e", 95 * micros) ∷ []
unfolding run execute adopt claim due due_rows is_due by_next_run insert_row claimed_row next_slot
    release is_fenced
logs = refl

abbrev rows : Table
rows = adopt 0 (λ id. 5 * micros) endpoints []

rows-IsKeyed : IsKeyed rows
unfolding adopt
rows-IsKeyed = (refl, tt)

claim_rules_example :
    let (returned, after, logged) =
      claim (70 * micros) (codes "w") 60000 unlocked endpoints 10 rows in
    (step : RuntimeRow → RuntimeRow) × (after ≡ map step rows)
    × All
        (λ r.
          Outcome
            (70 * micros)
            (codes "w")
            60000
            unlocked
            endpoints
            10
            rows
            returned
            logged
            r
            (step r))
        rows
    × (length returned ≤ 10)
    × IsKeyed returned
    × AreLogged (70 * micros) (codes "w") 60000 unlocked endpoints 10 rows returned logged
    × AreInOrder logged
claim_rules_example =
    claim_rules (70 * micros) (codes "w") 60000 unlocked endpoints 10 rows (omega arith, tt)
      rows-IsKeyed

run-IsUnique_example : IsUnique (run statements empty_store).claim_log
run-IsUnique_example =
    run-IsUnique statements
      ((omega arith, tt), ((omega arith, tt), ((omega arith, tt), (tt, ((omega arith, tt), tt)))))
