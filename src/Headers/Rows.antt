-- ===== src/Headers/Rows.antt =====
-- core/registration/header-merge.ts and header-decryption.ts, and
-- api/registration/services/header-storage.service.ts: header rows written, read and merged.
-- A `Map` is the list of its entries, in order of insertion.
pub mod Merge
pub mod Storage
mod Tests
use probeboard_api.Common.{
  ℕ, zero, suc, min, max, refl, sym, ap, inl, inr, Bool, true, false, not, and-eq-true_iff, Option,
  none, some, List, [], ◌∷◌, map, append_assoc, append-nil, arith, ltb, leb, if◌then◌else◌, ltb→lt,
  lt→ltb, leb→le, ==_iff, tests, Bool-cases, Option-cases, length, get_elem?, get_or, take,
  replicate, length-append, length-take, all, any, find, All, All-append, ℤ, pos, negsuc, sub_ℕ,
  Text, codes, text_eq, text_eq_iff, starts_with, includes, has, lower_unit, upper_unit,
  to_lower_case, to_upper_case,
}
use probeboard_api.Probing.BodyCap.{Bytes}
use probeboard_api.Headers.Cipher.{EncryptedSecret, GcmCipher, encrypt_secret, decrypt_secret}

pub record Header : Type 0 where
  pub name : Text
  pub is_secret : Bool
  pub value : Option Text
  pub secret_ciphertext : Option Bytes
  pub secret_iv : Option Bytes
  pub secret_auth_tag : Option Bytes

pub record HeaderInput : Type 0 where
  pub name : Text
  pub is_secret : Bool
  pub value : Option Text

pub record HeaderDto : Type 0 where
  pub name : Text
  pub is_secret : Bool
  pub value : Option Text

abbrev pub Entries : Type 0
Entries = List (Text × Header)

-- `Map.set` and `Map.get`.
unfoldable pub map_set : Text → Header → Entries → Entries
map_set key h [] = (key, h) ∷ []
map_set key h ((k, g) ∷ entries) =
    let rest = map_set key h entries in if text_eq k key then (k, h) ∷ entries else (k, g) ∷ rest

unfoldable pub map_get : Text → Entries → Option Header
map_get key [] = none
map_get key ((k, g) ∷ entries) =
    let rest = map_get key entries in if text_eq k key then some g else rest

unfoldable pub set_headers : List Header → Entries → Entries
unfolding map_set
set_headers [] entries = entries
set_headers (h ∷ headers) entries = set_headers headers (map_set (to_lower_case h.name) h entries)

abbrev pub values : Entries → List Header
values entries = map (λ (e : Text × Header). e.1) entries

unfoldable pub merge_header_rows : List Header → List Header → List Header
unfolding set_headers
merge_header_rows service_headers endpoint_headers =
    values (set_headers endpoint_headers (set_headers service_headers []))

abbrev pub or_empty : Option Text → Text
or_empty none = []
or_empty (some v) = v

unfoldable pub to_header_dto : Header → HeaderDto
to_header_dto h =
    if h.is_secret
    then record { name = h.name; is_secret = true; value = none }
    else record { name = h.name; is_secret = false; value = some (or_empty h.value) }

unfoldable pub merge_headers : List Header → List Header → List HeaderDto
merge_headers service_headers endpoint_headers =
    map to_header_dto (merge_header_rows service_headers endpoint_headers)

abbrev pub plain_row : Text → Option Text → Header
plain_row name value = record {
  name = name;
  is_secret = false;
  value = some (or_empty value);
  secret_ciphertext = none;
  secret_iv = none;
  secret_auth_tag = none;
}

abbrev pub secret_row : Text → EncryptedSecret → Header
secret_row name s = record {
  name = name;
  is_secret = true;
  value = none;
  secret_ciphertext = some s.ciphertext;
  secret_iv = some s.iv;
  secret_auth_tag = some s.auth_tag;
}

-- The secret of the current row, kept as it is; `none` where it throws.
abbrev pub kept_row : Text → Option Header → Option Header
kept_row name none = none
kept_row name (some current) =
    if not current.is_secret
    then none
    else some (record {
      name = name;
      is_secret = true;
      value = none;
      secret_ciphertext = current.secret_ciphertext;
      secret_iv = current.secret_iv;
      secret_auth_tag = current.secret_auth_tag;
    })

infixl 5 ◌>>=◌
abbrev pub ◌>>=◌ {ℓ κ} : {A : Type ℓ} {B : Type κ} → Option A → (A → Option B) → Option B
none >>= f = none
some a >>= f = f a

module _ (cipher : GcmCipher) (key : Bytes) where
  abbrev pub secret_of : Text → Option Text → Option Header → Bytes → Option Header
  secret_of name (some value) current iv =
      some (secret_row name (encrypt_secret cipher iv value key))
  secret_of name none current iv = kept_row name current

  unfoldable pub to_storage_row : HeaderInput → Option Header → Bytes → Option Header
  to_storage_row input current iv =
      if not input.is_secret
      then some (plain_row input.name input.value)
      else secret_of input.name input.value current iv

  -- `iv_of n` is the random vector drawn for the n-th input.
  unfoldable pub to_storage_rows :
      List HeaderInput → List Header → (ℕ → Bytes) → Option (List Header)
  unfolding to_storage_row set_headers map_get
  to_storage_rows [] existing iv_of = some []
  to_storage_rows (input ∷ inputs) existing iv_of = do
    row ←
        to_storage_row input (map_get (to_lower_case input.name) (set_headers existing []))
          (iv_of 0)
    rows ← to_storage_rows inputs existing (λ n. iv_of (suc n))
    some (row ∷ rows)

  abbrev pub secret_parts : Option Bytes → Option Bytes → Option Bytes → Option EncryptedSecret
  secret_parts (some c) (some i) (some t) = some (record { ciphertext = c; iv = i; auth_tag = t })
  secret_parts (some c) (some i) none = none
  secret_parts (some c) none t = none
  secret_parts none i t = none

  unfoldable pub decrypt_header_value : Header → Option Text
  decrypt_header_value h =
      if not h.is_secret
      then none
      else secret_parts h.secret_ciphertext h.secret_iv h.secret_auth_tag >>= λ s.
          decrypt_secret cipher s key

  -- What the loader sends for a row: `h.is_secret ? decryptHeaderValue(h, key) : (h.value ?? '')`.
  unfoldable pub sent_value : Header → Option Text
  sent_value h = if h.is_secret then decrypt_header_value h else some (or_empty h.value)
