-- ===== src/Assertions/Json/Tests.antt =====
-- Values that compare equal, and what a path reads of them.
use probeboard_api.Common.{◌≡◌, refl, true, [], ◌∷◌, codes}
use probeboard_api.Assertions.JsonPath.{name, index}
use probeboard_api.Assertions.Json.{
  Json, null, num, arr, obj, nil, cons, end, field, structurally_equal, walk_segments, is_nan,
  num_eq,
}
use probeboard_api.Assertions.Json.Equality.{Reads, walk_segments-Reads}

abbrev nan : Json
nan = num 0x7ff8000000000000

abbrev one_order : Json
one_order = obj (field (codes "a") nan (field (codes "b") (arr (cons null nil)) end))

abbrev other_order : Json
other_order = obj (field (codes "b") (arr (cons null nil)) (field (codes "a") nan end))

orders : structurally_equal one_order other_order ≡ true
unfolding structurally_equal is_nan num_eq
orders = refl

-- The zeros differ in sign only.
zeros : structurally_equal (num 0) (num 0x8000000000000000) ≡ true
unfolding structurally_equal is_nan num_eq
zeros = refl

walk_segments-Reads_example :
    Reads
      (walk_segments (name (codes "b") ∷ index 0 ∷ []) one_order)
      (walk_segments (name (codes "b") ∷ index 0 ∷ []) other_order)
walk_segments-Reads_example =
    walk_segments-Reads (name (codes "b") ∷ index 0 ∷ []) one_order other_order
      (refl, tt, (refl, (tt, tt), tt)) orders
