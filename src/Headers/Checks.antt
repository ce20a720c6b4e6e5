-- ===== src/Headers/Checks.antt =====
-- api/registration/services/header-validation.service.ts: the header list of an owner, checked as
-- it is saved.
mod Laws
mod Tests
use probeboard_api.Common.{
  ℕ, zero, suc, ◌+◌, min, max, refl, sym, ap, inl, inr, Bool, true, false, not, ◌&&◌, ◌||◌,
  and-eq-true_iff, Option, none, some, List, [], ◌∷◌, map, append_assoc, append-nil, arith, ltb,
  leb, ◌==◌, if◌then◌else◌, ltb→lt, lt→ltb, leb→le, ==_iff, tests, Bool-cases, Option-cases, length,
  get_elem?, get_or, take, replicate, length-append, length-take, all, any, find, All, All-append,
  ℤ, pos, negsuc, sub_ℕ, Text, codes, text_eq, text_eq_iff, starts_with, includes, has, lower_unit,
  upper_unit, to_lower_case, to_upper_case,
}
use probeboard_api.Headers.Rows.{HeaderInput}

pub record HeaderLimits : Type 0 where
  pub max_headers_per_owner : ℕ
  pub max_header_name_bytes : ℕ
  pub max_header_value_bytes : ℕ

pub data HeaderError : Type 0 where
  too_many_headers : (limit count : ℕ) → HeaderError
  header_not_allowed : (name : Text) → HeaderError
  duplicate_name : (name : Text) → HeaderError
  bad_name : (name : Text) → HeaderError
  long_name : (name : Text) → HeaderError
  bad_value : (name : Text) → HeaderError
  long_value : (name : Text) → HeaderError

abbrev pub forbidden_header_names : List Text
forbidden_header_names =
    codes "host"
    ∷ codes "content-length"
    ∷ codes "transfer-encoding"
    ∷ codes "connection"
    ∷ codes "upgrade"
    ∷ codes "expect"
    ∷ codes "te"
    ∷ codes "trailer"
    ∷ []

abbrev pub is_digit_or_letter : ℕ → Bool
is_digit_or_letter u =
    (leb b'0' u && leb u b'9') || (leb b'A' u && leb u b'Z') || (leb b'a' u && leb u b'z')

abbrev pub has_unit : Text → ℕ → Bool
has_unit [] u = false
has_unit (v ∷ units) u = (v == u) || has_unit units u

-- The class of `HEADER_NAME` and the class of `HEADER_VALUE`.
abbrev pub is_token_unit : ℕ → Bool
is_token_unit u = has_unit (codes "!#$%&'*+-.^_`|~") u || is_digit_or_letter u

abbrev pub is_value_unit : ℕ → Bool
is_value_unit u = (u == 9) || (leb 32 u && leb u 126) || (leb 128 u && leb u 255)

-- The patterns' `+` and `*`.
unfoldable pub is_header_name : Text → Bool
is_header_name [] = false
is_header_name (u ∷ units) = all is_token_unit (u ∷ units)

unfoldable pub is_header_value : Text → Bool
is_header_value units = all is_value_unit units

-- `Buffer.byteLength(…, 'utf8')`: of a surrogate pair, the first unit counts one and the second
-- three.
abbrev pub starts_low : Text → Bool
starts_low [] = false
starts_low (u ∷ units) = leb 56320 u && leb u 57343

abbrev pub unit_bytes : ℕ → Text → ℕ
unit_bytes u units =
    if ltb u 128
    then 1
    else if ltb u 2048
    then 2
    else if leb 55296 u && leb u 56319 && starts_low units
    then 1
    else 3

unfoldable pub byte_length : Text → ℕ
byte_length [] = 0
byte_length (u ∷ units) = unit_bytes u units + byte_length units

unfoldable pub check_value : HeaderLimits → Text → Option Text → Option HeaderError
unfolding is_header_value byte_length
check_value limits name none = none
check_value limits name (some value) =
    if not (is_header_value value)
    then some (bad_value name)
    else if ltb limits.max_header_value_bytes (byte_length value)
    then some (long_value name)
    else none

-- One turn of the loop; `none` where it throws nothing.
unfoldable pub check_header : HeaderLimits → List Text → HeaderInput → Option HeaderError
unfolding check_value is_header_name byte_length
check_header limits seen header =
    if has forbidden_header_names (to_lower_case header.name)
    then some (header_not_allowed header.name)
    else if has seen (to_lower_case header.name)
    then some (duplicate_name header.name)
    else if not (is_header_name header.name)
    then some (bad_name header.name)
    else if ltb limits.max_header_name_bytes (byte_length header.name)
    then some (long_name header.name)
    else check_value limits header.name header.value

abbrev pub or_next : Option HeaderError → Option HeaderError → Option HeaderError
or_next (some e) next = some e
or_next none next = next

unfoldable pub check_headers : HeaderLimits → List Text → List HeaderInput → Option HeaderError
unfolding check_header
check_headers limits seen [] = none
check_headers limits seen (header ∷ headers) =
    or_next (check_header limits seen header)
      (check_headers limits (to_lower_case header.name ∷ seen) headers)

unfoldable pub validate : HeaderLimits → List HeaderInput → Option HeaderError
unfolding check_headers
validate limits headers =
    if ltb limits.max_headers_per_owner (length headers)
    then some (too_many_headers limits.max_headers_per_owner (length headers))
    else check_headers limits [] headers
