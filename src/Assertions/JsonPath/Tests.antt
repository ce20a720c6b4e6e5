-- ===== src/Assertions/JsonPath/Tests.antt =====
-- The source's lists of accepted and rejected paths.
use probeboard_api.Common.{◌≡◌, refl, true, false, some, List, [], ◌∷◌, all, any, codes}
use probeboard_api.Regex.{matches}
use Prim.Native.String.{String}
use probeboard_api.Assertions.JsonPath.{
  name, index, is_name_unit, is_digit, is_supported_json_path, parse_json_path,
}

accepted : List String
accepted =
    "$" ∷ "a" ∷ "$.a" ∷ "data.items" ∷ "$.data.items" ∷ "items[0]" ∷ "$.items[0]"
    ∷ "data.items[0].id" ∷ "$.data.items[0].id" ∷ "matrix[0][1]" ∷ "[0]"
    ∷ "snake_case.kebab-case.digits2" ∷ "$.constructor" ∷ "$.__proto__" ∷ []

rejected : List String
rejected =
    "" ∷ ".a" ∷ "a." ∷ "a..b" ∷ "$..a" ∷ "$.items[*].id" ∷ "items[*]" ∷ "a[?(@.x==1)]" ∷ "a[]"
    ∷ "a[-1]" ∷ "a[01]" ∷ "a[1.5]" ∷ "a['b']" ∷ "a b" ∷ "a.b c" ∷ "$$" ∷ "a$" ∷ "$a" ∷ []

accepts_all : all (λ p. is_supported_json_path (codes p)) accepted ≡ true
unfolding is_supported_json_path accepted matches is_name_unit is_digit
accepts_all = refl

rejects_all : any (λ p. is_supported_json_path (codes p)) rejected ≡ false
unfolding is_supported_json_path rejected matches is_name_unit is_digit
rejects_all = refl

parses :
    parse_json_path (codes "$.data.items[10].id")
    ≡ some (name (codes "data") ∷ name (codes "items") ∷ index 10 ∷ name (codes "id") ∷ [])
unfolding parse_json_path matches
parses = refl
