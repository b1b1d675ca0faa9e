-- ===== src/Tests/Sealing.antt =====
-- The encryptor with a toy cipher and a toy encoding.
use nis.Prelude.{ℕ, zero, suc, String, ◌≡◌, refl, ap, ◌==◌, none, [], ◌∷◌, if◌then◌else◌}
use Prim.Native.Char.{code}
use nis.Exec.{message, Result, ok, err}
use nis.Text.{Bytes}
use nis.Clusters.Credentials.{EncryptorLaws}
use nis.Encryption
use nis.Encryption.{
  Aead, Base64, ChaChaEncryptor, lookup, encrypt, decrypt, rotate_key, as_encryptor, cut_colon,
}
use nis.Encryption.RoundTrip.{CipherLaws}
use nis.Encryption.Keys.{HasKeysOf, decrypt-rotate_key, as_encryptor-EncryptorLaws}
use nis.Encryption.Setup.{decrypt-colon}

-- A byte as so many letters and a comma.
abbrev spell : ℕ → String → String
spell zero rest = String.◌∷◌ "," rest
spell (suc n) rest = String.◌∷◌ "x" (spell n rest)

abbrev spelled : Bytes → String
spelled [] = ""
spelled (c ∷ s) = spell c (spelled s)

abbrev count_up : Bytes → Bytes
count_up [] = []
count_up (c ∷ s) = suc c ∷ s

abbrev read : String → Bytes
read String.[] = []
read (String.◌∷◌ c s) = let rest = read s in if code c == b',' then 0 ∷ rest else count_up rest

read-spell : (n : ℕ) (s : String) → read (spell n s) ≡ n ∷ read s
read-spell zero s = refl
read-spell (suc n) s = rw (read-spell n s) refl

read-spelled : (b : Bytes) → read (spelled b) ≡ b
read-spelled [] = refl
read-spelled (c ∷ s) = rw (read-spell c (spelled s), read-spelled s) refl

abbrev base64 : Base64
base64 = record { encode_to_string = spelled; decode_string = λ s. ok (read s) }

-- A cipher is its key, and seals nothing.
abbrev aead : Aead Bytes
aead = record {
  new = λ key. ok key;
  nonce_size = 1;
  seal = λ cipher nonce plain. plain;
  open_with = λ cipher nonce sealed. ok sealed;
}

laws : CipherLaws base64 aead
laws = record {
  decode-encode = λ b. ap (λ x. ok x) (read-spelled b);
  open-seal = λ key nonce plain cipher made sized. refl;
}

abbrev old : ChaChaEncryptor
old = record { keys = ("k1", 1 ∷ []) ∷ []; current_key_id = "k1" }

abbrev new : ChaChaEncryptor
new = record { keys = ("k2", 2 ∷ []) ∷ ("k1", 1 ∷ []) ∷ []; current_key_id = "k2" }

abbrev drawn : Result Bytes
drawn = ok (1 ∷ [])

kept : HasKeysOf old new
unfolding lookup
kept = (refl, tt)

plain_id : cut_colon "k2" ≡ none
unfolding cut_colon
plain_id = refl

reads : decrypt base64 aead old "encrypted:k1:x,xx," ≡ ok (2 ∷ [])
unfolding decrypt Encryption.split_ref cut_colon Encryption.decrypt_kind Encryption.decrypt_chacha
    Encryption.key_of lookup Encryption.open_sealed
reads = refl

rotates : rotate_key base64 aead new drawn "encrypted:k1:x,xx," ≡ ok "encrypted:k2:x,xx,"
unfolding rotate_key decrypt Encryption.split_ref cut_colon Encryption.decrypt_kind
    Encryption.decrypt_chacha Encryption.key_of lookup Encryption.open_sealed encrypt
    Encryption.storage_ref
rotates = refl

decrypt-rotate_key_example : decrypt base64 aead new "encrypted:k2:x,xx," ≡ ok (2 ∷ [])
decrypt-rotate_key_example =
    decrypt-rotate_key base64 aead laws old new drawn "encrypted:k1:x,xx," "encrypted:k2:x,xx,"
      (2 ∷ []) kept plain_id refl reads rotates

as_encryptor-EncryptorLaws_example : EncryptorLaws (as_encryptor base64 aead new drawn)
as_encryptor-EncryptorLaws_example =
    as_encryptor-EncryptorLaws base64 aead laws new drawn plain_id refl

abbrev dated : ChaChaEncryptor
dated = record { keys = ("k:2", 2 ∷ []) ∷ []; current_key_id = "k:2" }

seals : encrypt base64 aead dated drawn (2 ∷ []) ≡ ok "encrypted:k:2:x,xx,"
unfolding encrypt Encryption.key_of lookup Encryption.storage_ref
seals = refl

no_colon : cut_colon "k" ≡ none
unfolding cut_colon
no_colon = refl

no_key : lookup "k" dated.keys ≡ none
unfolding lookup
no_key = refl

decrypt-colon_example :
    decrypt base64 aead dated "encrypted:k:2:x,xx," ≡ err (message "encryption key not found")
decrypt-colon_example =
    decrypt-colon base64 aead dated drawn (2 ∷ []) "encrypted:k:2:x,xx," "k" "2" refl no_colon
      no_key seals
