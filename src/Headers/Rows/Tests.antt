-- ===== src/Headers/Rows/Tests.antt =====
-- Tests and witnesses of the header rows.
use probeboard_api.Common.{
  ◌≡◌, refl, true, false, none, some, List, [], ◌∷◌, replicate, Text, codes,
}
use probeboard_api.Headers.Cipher.{GcmCipher, IsGcm, encrypt_secret}
use probeboard_api.Headers.Rows.{
  Header, HeaderInput, merge_header_rows, plain_row, to_storage_rows, map_get, set_headers,
  secret_row, map_set, to_storage_row,
}
use probeboard_api.Headers.Rows.Merge.{HasDistinctNames, effective, merge_header_rows_rules}
use probeboard_api.Headers.Rows.Storage.{AreStored, to_storage_rows-AreStored}
use probeboard_api.Probing.FailureClasses.{or_else}

-- A cipher that hides nothing, for the tests.
abbrev open_cipher : GcmCipher
open_cipher = record {
  seal = λ key iv plaintext. (plaintext, replicate 16 0);
  unseal = λ key iv ciphertext tag. some ciphertext;
}

open_cipher-IsGcm : IsGcm open_cipher
open_cipher-IsGcm = record {
  full_tag = λ key iv plaintext. refl;
  undoes = λ key iv plaintext. refl;
}

abbrev service_headers : List Header
service_headers =
    plain_row (codes "X-Key") (some (codes "service"))
    ∷ plain_row (codes "Accept") (some (codes "*/*"))
    ∷ []

abbrev endpoint_headers : List Header
endpoint_headers = plain_row (codes "x-key") (some (codes "endpoint")) ∷ []

merge_test :
    merge_header_rows service_headers endpoint_headers
    ≡ plain_row (codes "x-key") (some (codes "endpoint"))
      ∷ plain_row (codes "Accept") (some (codes "*/*"))
      ∷ []
unfolding merge_header_rows set_headers map_set
merge_test = refl

merge_header_rows_rules_example :
    HasDistinctNames (merge_header_rows service_headers endpoint_headers)
    × ((key : Text)
        → effective key (merge_header_rows service_headers endpoint_headers)
          ≡ or_else (effective key endpoint_headers) (effective key service_headers))
merge_header_rows_rules_example = merge_header_rows_rules service_headers endpoint_headers

abbrev inputs : List HeaderInput
inputs =
    record { name = (codes "X-Key"); is_secret = true; value = some (codes "s3cret") }
    ∷ record { name = (codes "X-Old"); is_secret = true; value = none }
    ∷ record { name = (codes "Accept"); is_secret = false; value = some (codes "*/*") }
    ∷ []

abbrev existing : List Header
existing =
    secret_row (codes "x-old")
      (record { ciphertext = (codes "kept"); iv = []; auth_tag = replicate 16 0 })
    ∷ []

abbrev stored_rows : List Header
stored_rows =
    secret_row (codes "X-Key")
      (record { ciphertext = (codes "s3cret"); iv = 7 ∷ []; auth_tag = replicate 16 0 })
    ∷ secret_row (codes "X-Old")
        (record { ciphertext = (codes "kept"); iv = []; auth_tag = replicate 16 0 })
    ∷ plain_row (codes "Accept") (some (codes "*/*"))
    ∷ []

stored_test : to_storage_rows open_cipher [] inputs existing (λ n. 7 ∷ []) ≡ some stored_rows
unfolding to_storage_rows to_storage_row set_headers map_set map_get encrypt_secret
stored_test = refl

to_storage_rows-AreStored_example : AreStored open_cipher [] existing inputs stored_rows
to_storage_rows-AreStored_example =
    to_storage_rows-AreStored open_cipher [] existing inputs (λ n. 7 ∷ []) stored_rows
      open_cipher-IsGcm stored_test
