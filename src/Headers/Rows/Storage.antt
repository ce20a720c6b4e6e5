-- ===== src/Headers/Rows/Storage.antt =====
-- What is stored is what was submitted, and what is shown of it keeps the secrets.
use probeboard_api.Common.{
  ℕ, suc, ◌≡◌, refl, Bool, true, false, not, Option, none, some, List, [], ◌∷◌, arith,
  if◌then◌else◌, Text, to_lower_case,
}
use probeboard_api.Probing.BodyCap.{Bytes}
use probeboard_api.Headers.Cipher.{GcmCipher, IsGcm, encrypt_secret, decrypt_secret-encrypt_secret}
use probeboard_api.Headers.Rows.{
  Header, HeaderInput, HeaderDto, map_get, set_headers, or_empty, to_header_dto, plain_row,
  secret_row, kept_row, secret_of, to_storage_row, to_storage_rows, decrypt_header_value,
  sent_value, ◌>>=◌,
}

module _ (cipher : GcmCipher) (key : Bytes) (existing : List Header) where
  -- What the user means to be sent: the value given, or of a secret with none the one kept.
  abbrev pub intended : HeaderInput → Option Text
  intended input = elim input.value [
    | some v ↦ some v
    | none ↦
        if input.is_secret
        then map_get (to_lower_case input.name) (set_headers existing []) >>= sent_value cipher key
        else some []
  ]

  abbrev pub shown : HeaderInput → HeaderDto
  shown input = record {
    name = input.name;
    is_secret = input.is_secret;
    value = if input.is_secret then none else some (or_empty input.value);
  }

  abbrev pub IsStored : HeaderInput → Header → Type 0
  IsStored input row =
      (sent_value cipher key row ≡ intended input) × (to_header_dto row ≡ shown input)

  abbrev pub AreStored : List HeaderInput → List Header → Type 0
  AreStored [] [] = Unit
  AreStored [] (row ∷ rows) = ⊥
  AreStored (input ∷ inputs) [] = ⊥
  AreStored (input ∷ inputs) (row ∷ rows) = IsStored input row × AreStored inputs rows

  plain_row-IsStored :
      (name : Text) (value : Option Text)
      → IsStored (record { name = name; is_secret = false; value = value }) (plain_row name value)
  unfolding sent_value to_header_dto
  plain_row-IsStored name none = (refl, refl)
  plain_row-IsStored name (some v) = (refl, refl)

  kept_row-IsStored :
      (name : Text) (current : Option Header) (row : Header)
      → kept_row name current ≡ some row
      → (sent_value cipher key row ≡ (current >>= sent_value cipher key))
        × (to_header_dto row ≡ record { name = name; is_secret = true; value = none })
  unfolding sent_value to_header_dto decrypt_header_value
  kept_row-IsStored name none row e = cc
  kept_row-IsStored name (some current) row e = ground arith

  secret_of-IsStored :
      (name : Text) (value : Option Text) (iv : Bytes) (row : Header)
      → IsGcm cipher
      → secret_of cipher key name value (map_get (to_lower_case name) (set_headers existing [])) iv
        ≡ some row
      → IsStored (record { name = name; is_secret = true; value = value }) row
  secret_of-IsStored name none iv row g e =
      kept_row-IsStored name (map_get (to_lower_case name) (set_headers existing [])) row e
  secret_of-IsStored name (some v) iv row g e =
      let same : secret_row name (encrypt_secret cipher iv v key) ≡ row = ground (arith, e) in
      rw (← same) (
        unfold sent_value decrypt_header_value in decrypt_secret-encrypt_secret cipher iv v key g,
        unfold to_header_dto in refl,
      )

  to_storage_row-IsStored :
      (input : HeaderInput) (iv : Bytes) (row : Header)
      → IsGcm cipher
      → to_storage_row cipher key input
          (map_get (to_lower_case input.name) (set_headers existing []))
          iv
        ≡ some row
      → IsStored input row
  unfolding to_storage_row
  to_storage_row-IsStored input iv row g e = go input.is_secret e
    where
      go :
          (secret : Bool)
          → (if not secret
              then some (plain_row input.name input.value)
              else secret_of cipher key input.name input.value
                  (map_get (to_lower_case input.name) (set_headers existing []))
                  iv)
            ≡ some row
          → IsStored (record { name = input.name; is_secret = secret; value = input.value }) row
      go true k = secret_of-IsStored input.name input.value iv row g k
      go false k =
          let same : plain_row input.name input.value ≡ row = ground (arith, k) in
          rw (← same) (plain_row-IsStored input.name input.value)

  -- Where the headers submitted are stored, each row stands for its input, in order: what is sent
  -- of it is the value given, or for a secret with none the one kept, decrypted; and what is shown
  -- of it is its input, without the value of a secret.
  pub to_storage_rows-AreStored :
      (inputs : List HeaderInput) (iv_of : ℕ → Bytes) (rows : List Header)
      → IsGcm cipher
      → to_storage_rows cipher key inputs existing iv_of ≡ some rows
      → AreStored inputs rows
  unfolding to_storage_rows
  to_storage_rows-AreStored [] iv_of [] g e = tt
  to_storage_rows-AreStored [] iv_of (row ∷ rows) g e = cc
  to_storage_rows-AreStored (input ∷ inputs) iv_of rows g e =
      let (row, k, e1) =
        bind-some
          (to_storage_row cipher key input
            (map_get (to_lower_case input.name) (set_headers existing [])) (iv_of 0))
          _ rows e in
      let (more, l, e2) =
        bind-some (to_storage_rows cipher key inputs existing (λ n. iv_of (suc n))) _ rows e1 in
      let same : row ∷ more ≡ rows = ground (arith, e2) in
      rw (← same) (
        to_storage_row-IsStored input (iv_of 0) row g k,
        to_storage_rows-AreStored inputs (λ n. iv_of (suc n)) more g l,
      )
    where
      bind-some :
          {A B : Type 0} (m : Option A) (f : A → Option B) (b : B)
          → (m >>= f) ≡ some b
          → (a : A) × (m ≡ some a) × (f a ≡ some b)
      bind-some none f b h = cc
      bind-some (some a) f b h = (a, refl, h)
