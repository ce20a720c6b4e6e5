-- ===== src/Assertions/Evaluate/Laws.antt =====
-- A passing verdict rests on evidence.
use probeboard_api.Common.{
  ◌≡◌, refl, ◌↔◌, inl, inr, true, false, Option, none, some, List, [], ◌∷◌, arith, Bool-cases, All,
  Text, includes,
}
use probeboard_api.Assertions.Json.{Json, read_json_path, structurally_equal}
use probeboard_api.Assertions.Evaluate.{
  EndpointAssertion, body_contains, body_not_contains, json_path, ResponseBody, passed,
  compare_value, compare_parsed, evaluate_assertion, evaluate_assertions,
}

module _ (parse_json : Text → Option Json) where
  -- What each assertion claims, and of which part of a body it can be known.
  abbrev pub Holds : EndpointAssertion → ResponseBody → Type 0
  Holds (body_contains value) body = includes body.text value ≡ true
  Holds (body_not_contains value) body =
      (body.truncated ≡ false) × (includes body.text value ≡ false)
  Holds (json_path path expected) body =
      (body.truncated ≡ false)
      × ((root : Json) × (found : Json) × (parse_json body.text ≡ some root)
          × (read_json_path root path ≡ some found)
          × (structurally_equal found expected ≡ true))

  compare_value-passed :
      (o : Option Json) (expected : Json)
      → compare_value o expected ≡ passed
      → (found : Json) × (o ≡ some found) × (structurally_equal found expected ≡ true)
  compare_value-passed none expected e = cc
  compare_value-passed (some found) expected e = (found, refl, ground arith)

  compare_parsed-passed :
      (o : Option Json) (path : Text) (expected : Json)
      → compare_parsed o path expected ≡ passed
      → (root : Json) × (found : Json) × (o ≡ some root)
        × (read_json_path root path ≡ some found)
        × (structurally_equal found expected ≡ true)
  compare_parsed-passed none path expected e = cc
  compare_parsed-passed (some root) path expected e =
      let (found, read, same) = compare_value-passed (read_json_path root path) expected e in
      (root, found, refl, read, same)

  evaluate_assertion_sound :
      (a : EndpointAssertion) (body : ResponseBody)
      → evaluate_assertion parse_json a body ≡ passed
      → Holds a body
  unfolding evaluate_assertion
  evaluate_assertion_sound (body_contains value) body e = ground arith
  evaluate_assertion_sound (body_not_contains value) body e = ground arith
  evaluate_assertion_sound (json_path path expected) body e = elim (Bool-cases body.truncated) [
    | inl cut ↦ cc (rw cut at e)
    | inr whole ↦
        (whole, compare_parsed-passed (parse_json body.text) path expected (rw whole at e))
  ]

  evaluate_assertion_complete :
      (a : EndpointAssertion) (body : ResponseBody)
      → Holds a body
      → evaluate_assertion parse_json a body ≡ passed
  unfolding evaluate_assertion
  evaluate_assertion_complete (body_contains value) body h = rw h
  evaluate_assertion_complete (body_not_contains value) body (whole, clear) = rw (whole, clear)
  evaluate_assertion_complete (json_path path expected) body
        (whole, (root, found, parsed, read, same)) =
      rw (whole, parsed, read, same)

  all_sound :
      (assertions : List EndpointAssertion) (body : ResponseBody)
      → evaluate_assertions parse_json assertions body ≡ passed
      → All (λ a. Holds a body) assertions
  unfolding evaluate_assertions
  all_sound [] body e = tt
  all_sound (a ∷ assertions) body e =
      let here : evaluate_assertion parse_json a body ≡ passed = ground arith in
      (evaluate_assertion_sound a body here, all_sound assertions body (rw here at e))

  all_complete :
      (assertions : List EndpointAssertion) (body : ResponseBody)
      → All (λ a. Holds a body) assertions
      → evaluate_assertions parse_json assertions body ≡ passed
  unfolding evaluate_assertions
  all_complete [] body h = refl
  all_complete (a ∷ assertions) body (here, h) =
      rw (evaluate_assertion_complete a body here) (all_complete assertions body h)

  -- A body passes exactly when every assertion holds of it; what a truncated body does not show, an
  -- absence or a value at a path, never holds.
  pub evaluate_assertions_iff :
      (assertions : List EndpointAssertion) (body : ResponseBody)
      → (evaluate_assertions parse_json assertions body ≡ passed)
        ↔ All (λ a. Holds a body) assertions
  evaluate_assertions_iff assertions body =
      (all_sound assertions body, all_complete assertions body)
