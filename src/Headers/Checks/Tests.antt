-- ===== src/Headers/Checks/Tests.antt =====
-- Tests and the witness of the header checks.
use probeboard_api.Common.{
  ◌≤◌, ◌≡◌, refl, ◌↔◌, false, none, some, List, [], ◌∷◌, length, replicate, All, Text, codes,
}
use probeboard_api.Headers.Rows.{HeaderInput}
use probeboard_api.Headers.Checks.{
  HeaderLimits, duplicate_name, header_not_allowed, bad_name, bad_value, long_value, validate,
  check_headers, check_header, check_value, is_header_name, is_header_value, byte_length,
}
use probeboard_api.Headers.Checks.Laws.{IsSendable, AreDistinct, validate_iff}

abbrev limits : HeaderLimits
limits = record {
  max_headers_per_owner = 3;
  max_header_name_bytes = 10;
  max_header_value_bytes = 8;
}

abbrev header : Text → Text → HeaderInput
header name value = record { name = name; is_secret = false; value = some value }

abbrev good : List HeaderInput
good = header (codes "X-Key") (codes "a") ∷ header (codes "Accept") (codes "*/*") ∷ []

validate_test :
    (validate limits good ≡ none)
    × (validate limits (header (codes "Host") [] ∷ []) ≡ some (header_not_allowed (codes "Host")))
    × (validate limits (header (codes "A") [] ∷ header (codes "a") [] ∷ [])
        ≡ some (duplicate_name (codes "a")))
    × (validate limits (header (codes "A B") [] ∷ []) ≡ some (bad_name (codes "A B")))
    × (validate limits (header (codes "A") (10 ∷ []) ∷ []) ≡ some (bad_value (codes "A")))
    × (validate limits (header (codes "A") (replicate 5 233) ∷ []) ≡ some (long_value (codes "A")))
unfolding validate check_headers check_header check_value is_header_name is_header_value byte_length
validate_test = (refl, refl, refl, refl, refl, refl)

-- A pair of surrogates is four bytes and one alone three.
byte_length_test : (byte_length (55357 ∷ 56832 ∷ []) ≡ 4) × (byte_length (55357 ∷ 65 ∷ []) ≡ 4)
unfolding byte_length
byte_length_test = (refl, refl)

validate_iff_example : (validate limits good ≡ none) ↔ (
    (length good ≤ limits.max_headers_per_owner)
    × All (IsSendable limits) good
    × AreDistinct [] good)
validate_iff_example = validate_iff limits good
