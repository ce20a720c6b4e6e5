-- ===== src/Assertions/JsonPath.antt =====
-- core/assertions/json-path-grammar.ts: the path language, its test and its segments.
-- An index is its exact value; the source's `Number` is exact far beyond any array's length.
mod Tests
use probeboard_api.Common.{
  ℕ, zero, suc, ◌+◌, ◌-◌, ◌*◌, min, max, refl, sym, ap, inl, inr, Bool, true, false, not, ◌&&◌,
  ◌||◌, and-eq-true_iff, Option, none, some, List, [], ◌∷◌, map, append_assoc, append-nil, arith,
  ltb, leb, ◌==◌, if◌then◌else◌, ltb→lt, lt→ltb, leb→le, ==_iff, tests, Bool-cases, Option-cases,
  length, get_elem?, get_or, take, replicate, length-append, length-take, all, any, find, All,
  All-append, Text, codes, text_eq, text_eq_iff, starts_with, includes, has, lower_unit, upper_unit,
  to_lower_case, to_upper_case,
}
use probeboard_api.Regex.{Regex, empty, unit, seq, alt, star, literal, plus, matches}

pub data Segment : Type 0 where
  name : Text → Segment
  index : ℕ → Segment

abbrev in_range : ℕ → ℕ → ℕ → Bool
in_range lo hi c = leb lo c && leb c hi

unfoldable pub is_digit : ℕ → Bool
is_digit c = in_range b'0' b'9' c

-- `[A-Za-z0-9_-]`.
unfoldable pub is_name_unit : ℕ → Bool
is_name_unit c =
    in_range b'A' b'Z' c
    || (in_range b'a' b'z' c || (in_range b'0' b'9' c || ((c == b'_') || (c == b'-'))))

abbrev pub name_pattern : Regex
name_pattern = plus (unit is_name_unit)

-- `\[(?:0|[1-9][0-9]*)\]`.
abbrev pub index_pattern : Regex
index_pattern = seq (literal b'[') (
    seq (alt (literal b'0') (seq (unit (in_range b'1' b'9')) (star (unit is_digit))))
      (literal b']'))

abbrev pub step_pattern : Regex
step_pattern = alt (seq (literal b'.') name_pattern) index_pattern

abbrev pub first_pattern : Regex
first_pattern = alt name_pattern index_pattern

unfoldable pub json_path_pattern : Regex
json_path_pattern =
    alt (seq (literal b'$') (star step_pattern)) (seq first_pattern (star step_pattern))

unfoldable pub is_supported_json_path : Text → Bool
unfolding json_path_pattern
is_supported_json_path path = matches json_path_pattern path

-- The longest run of units that pass, and what is behind it.
unfoldable pub take_while : (ℕ → Bool) → Text → Text
take_while p [] = []
take_while p (c ∷ s) = let rest = take_while p s in if p c then c ∷ rest else []

unfoldable pub drop_while : (ℕ → Bool) → Text → Text
drop_while p [] = []
drop_while p (c ∷ s) = let rest = drop_while p s in if p c then rest else c ∷ s

-- `Number` on a run of digits.
number_from : ℕ → Text → ℕ
number_from n [] = n
number_from n (c ∷ s) = number_from (n * 10 + (c - b'0')) s

unfoldable pub number : Text → ℕ
unfolding number_from
number s = number_from 0 s

-- One match of `\.?([A-Za-z0-9_-]+)|\[(\d+)\]` at the start of a text, and the text behind it. The
-- optional dot and the runs are taken greedily; giving one back never makes a match.
abbrev name_match : Text → Option (Segment × Text)
name_match s = elim (take_while is_name_unit s) [
  | [] ↦ none
  | c ∷ run ↦ some (name (c ∷ run), drop_while is_name_unit s)
]

abbrev index_match : Text → Text → Option (Segment × Text)
index_match [] rest = none
index_match (d ∷ digits) [] = none
index_match (d ∷ digits) (c ∷ rest) =
    if c == b']' then some (index (number (d ∷ digits)), rest) else none

unfoldable pub match_at : Text → Option (Segment × Text)
unfolding take_while drop_while number is_name_unit is_digit
match_at [] = none
match_at (c ∷ s) =
    if c == b'.'
    then name_match s
    else if is_name_unit c
    then name_match (c ∷ s)
    else if c == b'['
    then index_match (take_while is_digit s) (drop_while is_digit s)
    else none

-- `matchAll`: from the left, each match behind the one before. A round takes a unit at least, so
-- the length of the text is enough fuel.
unfoldable pub match_all : ℕ → Text → List Segment
unfolding match_at
match_all zero s = []
match_all (suc fuel) [] = []
match_all (suc fuel) (c ∷ s) = elim (match_at (c ∷ s)) [
  | none ↦ match_all fuel s
  | some (segment, rest) ↦ segment ∷ match_all fuel rest
]

abbrev path_body : Text → Text
path_body [] = []
path_body (c ∷ s) = if c == b'$' then s else c ∷ s

unfoldable pub parse_json_path : Text → Option (List Segment)
unfolding is_supported_json_path match_all
parse_json_path path =
    if is_supported_json_path path then some (match_all (length path) (path_body path)) else none
