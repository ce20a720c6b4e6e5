-- ===== src/Headers/Cipher.antt =====
-- core/crypto/header-cipher.ts: secret header values under AES-256-GCM, which the platform supplies.
use probeboard_api.Common.{ℕ, ◌≡◌, not, Option, none, some, ◌==◌, if◌then◌else◌, length, Text}
use probeboard_api.Probing.BodyCap.{Bytes}

pub record EncryptedSecret : Type 0 where
  pub ciphertext : Bytes
  pub iv : Bytes
  pub auth_tag : Bytes

-- `createCipheriv` and `createDecipheriv` with the encodings of a text: `seal key iv text` is the
-- ciphertext and the tag, and `unseal` is `none` where the tag does not authenticate.
pub record GcmCipher : Type 0 where
  pub seal : Bytes → Bytes → Text → Bytes × Bytes
  pub unseal : Bytes → Bytes → Bytes → Bytes → Option Text

abbrev pub auth_tag_bytes : ℕ
auth_tag_bytes = 16

-- What the platform documents: a full tag, and that decryption undoes encryption.
pub record IsGcm (cipher : GcmCipher) : Type 0 where
  pub full_tag :
      (key iv : Bytes) (text : Text) → length (cipher.seal key iv text).1 ≡ auth_tag_bytes
  pub undoes :
      (key iv : Bytes) (text : Text)
      → cipher.unseal key iv (cipher.seal key iv text).0 (cipher.seal key iv text).1 ≡ some text

-- `iv` is what `randomBytes` gives.
unfoldable pub encrypt_secret : GcmCipher → Bytes → Text → Bytes → EncryptedSecret
encrypt_secret cipher iv plaintext key = record {
  ciphertext = (cipher.seal key iv plaintext).0;
  iv = iv;
  auth_tag = (cipher.seal key iv plaintext).1;
}

-- `none` where it throws.
unfoldable pub decrypt_secret : GcmCipher → EncryptedSecret → Bytes → Option Text
decrypt_secret cipher secret key =
    if not (length secret.auth_tag == auth_tag_bytes)
    then none
    else cipher.unseal key secret.iv secret.ciphertext secret.auth_tag

pub decrypt_secret-encrypt_secret :
    (cipher : GcmCipher) (iv : Bytes) (plaintext : Text) (key : Bytes)
    → IsGcm cipher
    → decrypt_secret cipher (encrypt_secret cipher iv plaintext key) key ≡ some plaintext
unfolding decrypt_secret encrypt_secret
decrypt_secret-encrypt_secret cipher iv plaintext key h =
    rw (h.full_tag key iv plaintext) (h.undoes key iv plaintext)
