-- ===== src/Assertions/Json.antt =====
-- worker/probing/assertions/json-path.ts: reading a parsed body, and structural equality.
-- A number is the bit pattern of its IEEE 754 double, so `===` and NaN are the source's. An object
-- is the list of its own properties.
pub mod Reflexive
pub mod Keys
pub mod Equality
mod Tests
use probeboard_api.Common.{
  ℕ, zero, suc, ◌/◌, ◌%◌, ◌^◌, min, max, refl, sym, ap, inl, inr, Bool, true, false, not, ◌&&◌,
  ◌||◌, and-eq-true_iff, Option, none, some, List, [], ◌∷◌, map, append_assoc, append-nil, arith,
  ltb, leb, ◌==◌, if◌then◌else◌, ltb→lt, lt→ltb, leb→le, ==_iff, tests, Bool-cases, Option-cases,
  length, get_elem?, get_or, take, replicate, length-append, length-take, all, any, find, All,
  All-append, Text, codes, text_eq, text_eq_iff, starts_with, includes, has, lower_unit, upper_unit,
  to_lower_case, to_upper_case,
}
use probeboard_api.Assertions.JsonPath.{Segment, name, index, parse_json_path}

mutual
  pub data Json : Type 0 where
    null : Json
    bool : Bool → Json
    num : ℕ → Json
    str : Text → Json
    arr : Items → Json
    obj : Fields → Json

  pub data Items : Type 0 where
    nil : Items
    cons : Json → Items → Items

  pub data Fields : Type 0 where
    end : Fields
    field : Text → Json → Fields → Fields

-- An own property, by `Object.hasOwn`.
abbrev pub get_field : Text → Fields → Option Json
get_field k end = none
get_field k (field j v fs) = if text_eq j k then some v else get_field k fs

abbrev pub get_item : Items → ℕ → Option Json
get_item nil i = none
get_item (cons v vs) zero = some v
get_item (cons v vs) (suc i) = get_item vs i

-- One step of the loop of `readJsonPath`; `none` is a miss.
unfoldable pub step_into : Json → Segment → Option Json
step_into (obj fs) (name k) = get_field k fs
step_into (arr vs) (index i) = get_item vs i
step_into (arr vs) (name k) = none
step_into (obj fs) (index i) = none
step_into null segment = none
step_into (bool b) segment = none
step_into (num n) segment = none
step_into (str s) segment = none

infixl 5 ◌>>=◌
abbrev pub ◌>>=◌ {ℓ κ} : {A : Type ℓ} {B : Type κ} → Option A → (A → Option B) → Option B
none >>= f = none
some a >>= f = f a

unfoldable pub walk_segments : List Segment → Json → Option Json
unfolding step_into
walk_segments [] current = some current
walk_segments (s ∷ segments) current = step_into current s >>= walk_segments segments

unfoldable pub read_json_path : Json → Text → Option Json
unfolding walk_segments
read_json_path root path = parse_json_path path >>= λ segments. walk_segments segments root

-- IEEE 754: an exponent of ones with a fraction is NaN, and the zeros differ in sign alone.
unfoldable pub is_nan : ℕ → Bool
is_nan n = ((n / 2 ^ 52) % 2 ^ 11 == 2047) && not (n % 2 ^ 52 == 0)

abbrev pub is_zero : ℕ → Bool
is_zero n = n % 2 ^ 63 == 0

-- `===` on numbers.
unfoldable pub num_eq : ℕ → ℕ → Bool
num_eq a b = not (is_nan a) && (not (is_nan b) && ((a == b) || (is_zero a && is_zero b)))

abbrev pub bool_eq : Bool → Bool → Bool
bool_eq true b = b
bool_eq false b = not b

abbrev pub count_items : Items → ℕ
count_items nil = 0
count_items (cons v vs) = suc (count_items vs)

abbrev pub count_fields : Fields → ℕ
count_fields end = 0
count_fields (field k v fs) = suc (count_fields fs)

abbrev pub present_and : (Json → Bool) → Option Json → Bool
present_and p none = false
present_and p (some v) = p v

-- Two references to one object are `===`; here they are equal values, which compare equal by the
-- reflexivity law. `equal_items` is `every` over arrays of one length.
unfoldable mutual
  pub structurally_equal : Json → Json → Bool
  structurally_equal null null = true
  structurally_equal (bool a) (bool b) = bool_eq a b
  structurally_equal (num a) (num b) = num_eq a b || (is_nan a && is_nan b)
  structurally_equal (str a) (str b) = text_eq a b
  structurally_equal (arr as') (arr bs) = (count_items as' == count_items bs) && equal_items as' bs
  structurally_equal (obj fs) (obj gs) = (count_fields fs == count_fields gs) && equal_fields fs gs
  structurally_equal _ _ = false

  pub equal_items : Items → Items → Bool
  equal_items nil bs = true
  equal_items (cons a as') nil = false
  equal_items (cons a as') (cons b bs) = structurally_equal a b && equal_items as' bs

  pub equal_fields : Fields → Fields → Bool
  equal_fields end gs = true
  equal_fields (field k v fs) gs =
      present_and (structurally_equal v) (get_field k gs) && equal_fields fs gs
