-- ===== src/Assertions/Evaluate/Tests.antt =====
-- A verdict on a small body.
use probeboard_api.Common.{
  ◌≡◌, refl, ◌↔◌, Bool, true, false, Option, none, List, [], ◌∷◌, All, Text, codes,
}
use probeboard_api.Assertions.Json.{Json}
use probeboard_api.Assertions.Evaluate.{
  EndpointAssertion, body_contains, body_not_contains, ResponseBody, passed, refused,
  absence_unproven, evaluate_assertion, evaluate_assertions,
}
use probeboard_api.Assertions.Evaluate.Laws.{Holds, evaluate_assertions_iff}

abbrev no_json : Text → Option Json
no_json t = none

abbrev both : List EndpointAssertion
both = body_contains (codes "ok") ∷ body_not_contains (codes "error") ∷ []

abbrev body : Bool → ResponseBody
body cut = record { text = codes "all ok"; truncated = cut }

passes : evaluate_assertions no_json both (body false) ≡ passed
unfolding evaluate_assertions evaluate_assertion
passes = refl

-- A cut body cannot show an absence.
unproven : evaluate_assertions no_json both (body true) ≡ refused absence_unproven
unfolding evaluate_assertions evaluate_assertion
unproven = refl

evaluate_assertions_iff_example :
    (evaluate_assertions no_json both (body false) ≡ passed)
    ↔ All (λ a. Holds no_json a (body false)) both
evaluate_assertions_iff_example = evaluate_assertions_iff no_json both (body false)
