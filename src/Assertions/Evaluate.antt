-- ===== src/Assertions/Evaluate.antt =====
-- worker/probing/assertions/evaluate.ts: the verdict of a list of assertions on a body.
-- `JSON.parse` is a parameter, `none` where it throws. A reason is its kind.
pub mod Laws
mod Tests
use probeboard_api.Common.{
  ℕ, zero, suc, min, max, refl, sym, ap, inl, inr, Bool, true, false, not, and-eq-true_iff, Option,
  none, some, List, [], ◌∷◌, map, append_assoc, append-nil, arith, ltb, leb, if◌then◌else◌, ltb→lt,
  lt→ltb, leb→le, ==_iff, tests, Bool-cases, Option-cases, length, get_elem?, get_or, take,
  replicate, length-append, length-take, all, any, find, All, All-append, Text, codes, text_eq,
  text_eq_iff, starts_with, includes, has, lower_unit, upper_unit, to_lower_case, to_upper_case,
}
use probeboard_api.Assertions.Json.{Json, read_json_path, structurally_equal}

pub data EndpointAssertion : Type 0 where
  body_contains body_not_contains : Text → EndpointAssertion
  json_path : Text → Json → EndpointAssertion

pub record ResponseBody : Type 0 where
  pub text : Text
  pub truncated : Bool

pub data Reason : Type 0 where
  lacks_substring has_substring absence_unproven : Reason
  not_parsed not_json no_value not_equal : Reason

pub data AssertionResult : Type 0 where
  passed : AssertionResult
  refused : Reason → AssertionResult

-- The loop goes on only past what passes.
abbrev pub or_next : AssertionResult → AssertionResult → AssertionResult
or_next passed next = next
or_next (refused reason) next = refused reason

abbrev pub compare_value : Option Json → Json → AssertionResult
compare_value none expected = refused no_value
compare_value (some value) expected =
    if structurally_equal value expected then passed else refused not_equal

abbrev pub compare_parsed : Option Json → Text → Json → AssertionResult
compare_parsed none path expected = refused not_json
compare_parsed (some parsed) path expected = compare_value (read_json_path parsed path) expected

module _ (parse_json : Text → Option Json) where
  unfoldable pub evaluate_json_path : Text → Json → ResponseBody → AssertionResult
  evaluate_json_path path expected body =
      if body.truncated
      then refused not_parsed
      else compare_parsed (parse_json body.text) path expected

  unfoldable pub evaluate_assertion : EndpointAssertion → ResponseBody → AssertionResult
  unfolding evaluate_json_path
  evaluate_assertion (body_contains value) body =
      if includes body.text value then passed else refused lacks_substring
  evaluate_assertion (body_not_contains value) body =
      if body.truncated
      then refused absence_unproven
      else if includes body.text value
      then refused has_substring
      else passed
  evaluate_assertion (json_path path expected) body = evaluate_json_path path expected body

  unfoldable pub evaluate_assertions : List EndpointAssertion → ResponseBody → AssertionResult
  evaluate_assertions [] body = passed
  evaluate_assertions (a ∷ assertions) body =
      let next = evaluate_assertions assertions body in or_next (evaluate_assertion a body) next
