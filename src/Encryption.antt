-- ===== src/Encryption.antt =====
-- internal/infrastructure/encryption/chacha_encryptor.go. The cipher of golang.org/x/crypto and the
-- package encoding/base64 are the parameters `Aead` and `Base64`; the random nonce of a run is an
-- argument. The map of keys is a list of pairs in which the first entry of a key ID counts; metrics
-- are left out. An error text into which Go formats a value ends before the value.
pub mod RoundTrip
pub mod Keys
pub mod Setup
use nis.Prelude.{
  ℕ, String, Bool, true, false, not, ◌==◌, leb, ltb, Option, none, some, List, [], ◌∷◌, ◌++◌,
  length, take, drop, str_eq, join, if◌then◌else◌,
}
use Prim.Native.Char.{code}
use nis.Exec.{message, Result, ok, err, ◌>>=◌, ◌>>◌, wrapped, fail_if}
use nis.Text.{Bytes}
use nis.Jwt.{Encryptor}

-- `chacha20poly1305.New` with its `Seal` and `Open`.
pub record Aead (Cipher : Type 0) : Type 0 where
  pub new : Bytes → Result Cipher
  pub nonce_size : ℕ
  pub seal : Cipher → Bytes → Bytes → Bytes
  pub open_with : Cipher → Bytes → Bytes → Result Bytes

-- `base64.StdEncoding`
pub record Base64 : Type 0 where
  pub encode_to_string : Bytes → String
  pub decode_string : String → Result Bytes

pub record ChaChaEncryptor : Type 0 where
  pub keys : List (String × Bytes)
  pub current_key_id : String

unfoldable pub lookup : String → List (String × Bytes) → Option Bytes
lookup id [] = none
lookup id ((id', key) ∷ keys) = if str_eq id' id then some key else lookup id keys

-- The text before the first colon and the text behind it.
unfoldable pub cut_colon : String → Option (String × String)
cut_colon String.[] = none
cut_colon (String.◌∷◌ c s) =
    let rest = cut_colon s in
    if code c == b':'
    then some ("", s)
    else elim rest [ none ↦ none | some (before, after) ↦ some (String.◌∷◌ c before, after) ]

-- `strings.SplitN(s, ":", 3)`, where it returns three parts
unfoldable pub split_ref : String → Option (String × String × String)
split_ref s = elim (cut_colon s) [
  | none ↦ none
  | some (kind, rest) ↦ elim (cut_colon rest) [
    | none ↦ none
    | some (key_id, data_text) ↦ some (kind, key_id, data_text)
  ]
]

module _ (base64 : Base64) where
  unfoldable pub decode_key : String × String → Result (String × Bytes)
  decode_key (id, text) = do
    key ← wrapped "failed to decode key " (base64.decode_string text)
    fail_if (not (length key == 32)) (message "key has invalid size")
    ok (id, key)

  unfoldable pub decode_keys : List (String × String) → Result (List (String × Bytes))
  decode_keys [] = ok []
  decode_keys (k ∷ keys) = do key ← decode_key k; rest ← decode_keys keys; ok (key ∷ rest)

  -- The tests of `NewChaChaEncryptor` for arguments that are empty.
  unfoldable pub check_given : List (String × String) → String → Result (Unit {0})
  check_given [] current = err (message "at least one encryption key is required")
  check_given (k ∷ keys) current =
      fail_if (str_eq current "") (message "current key ID is required")

  unfoldable pub new_chacha_encryptor : List (String × String) → String → Result ChaChaEncryptor
  new_chacha_encryptor keys current = do
    check_given keys current
    decoded ← decode_keys keys
    elim (lookup current decoded) [
      | none ↦ err (message "current key ID not found in provided keys")
      | some key ↦ ok (record { keys = decoded; current_key_id = current })
    ]

  module _ {Cipher : Type 0} (aead : Aead Cipher) where
    unfoldable pub key_of : String → ChaChaEncryptor → String → Result Bytes
    key_of text e id = elim (lookup id e.keys) [ none ↦ err (message text) | some key ↦ ok key ]

    -- The storage reference of a ciphertext.
    unfoldable pub storage_ref : String → Bytes → String
    storage_ref id sealed = join "encrypted:" (join id (join ":" (base64.encode_to_string sealed)))

    unfoldable pub encrypt : ChaChaEncryptor → Result Bytes → Bytes → Result String
    encrypt e drawn plaintext = do
      key ← key_of "current key not found" e e.current_key_id
      cipher ← wrapped "failed to create cipher" (aead.new key)
      nonce ← wrapped "failed to generate nonce" drawn
      ok (storage_ref e.current_key_id (nonce ++ aead.seal cipher nonce plaintext))

    -- The nonce in front of the ciphertext, and the ciphertext.
    unfoldable pub open_sealed : Cipher → Bytes → Result Bytes
    open_sealed cipher sealed = do
      fail_if (ltb (length sealed) aead.nonce_size) (message "ciphertext too short")
      wrapped "failed to decrypt"
          (aead.open_with cipher (take aead.nonce_size sealed) (drop aead.nonce_size sealed))

    unfoldable pub decrypt_chacha : ChaChaEncryptor → String → String → Result Bytes
    decrypt_chacha e id text = do
      key ← key_of "encryption key not found" e id
      sealed ← wrapped "failed to decode ciphertext" (base64.decode_string text)
      cipher ← wrapped "failed to create cipher" (aead.new key)
      open_sealed cipher sealed

    unfoldable pub decrypt_kind : ChaChaEncryptor → String → String → String → Result Bytes
    decrypt_kind e kind id text =
        if str_eq kind "encrypted"
        then decrypt_chacha e id text
        else (if str_eq kind "vault"
            then err (message "vault storage not yet implemented")
            else err (message "unsupported storage type: "))

    unfoldable pub decrypt : ChaChaEncryptor → String → Result Bytes
    decrypt e ref = elim (split_ref ref) [
      | none ↦ err (message "invalid storage reference format")
      | some (kind, id, text) ↦ decrypt_kind e kind id text
    ]

    unfoldable pub rotate_key : ChaChaEncryptor → Result Bytes → String → Result String
    rotate_key e drawn old_ref = do
      plaintext ← wrapped "failed to decrypt during rotation" (decrypt e old_ref)
      wrapped "failed to re-encrypt during rotation" (encrypt e drawn plaintext)

    -- The interface that the services use, with one run's nonce.
    unfoldable pub as_encryptor : ChaChaEncryptor → Result Bytes → Encryptor
    as_encryptor e drawn = record { encrypt = encrypt e drawn; decrypt = decrypt e }
