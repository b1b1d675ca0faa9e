-- ===== src/Encryption/Keys.antt =====
-- Several keys: rotation, the test of a new encryptor, and key IDs with a colon.
use nis.Prelude.{
  String, ◌≡◌, ◌≢◌, Bool-cases, Option-cases, inl, inr, none, some, List, [], ◌∷◌, str_eq, eq_iff,
  arith, All,
}
use nis.Exec.{Result, ok, bind-eq-ok, wrapped-bind-eq-ok, wrapped-eq-ok, ok-injective}
use nis.Text.{Bytes}
use nis.Clusters.Credentials.{EncryptorLaws}
use nis.Encryption.{
  Aead, Base64, ChaChaEncryptor, lookup, cut_colon, split_ref, key_of, storage_ref, encrypt,
  decrypt_chacha, decrypt_kind, decrypt, rotate_key, as_encryptor,
}
use nis.Encryption.RoundTrip.{CipherLaws, IsSized, key_of-found, key_of-eq-ok, decrypt-encrypt}

-- Every key of the first encryptor is a key of the second one, under the same ID.
abbrev pub HasKeysOf : ChaChaEncryptor → ChaChaEncryptor → Type 0
HasKeysOf old new = All (λ k. lookup k.0 new.keys ≡ some k.1) old.keys

lookup-All :
    (P : String × Bytes → Type 0) (id : String) (key : Bytes) (keys : List (String × Bytes))
    → All P keys
    → lookup id keys ≡ some key
    → P (id, key)
unfolding lookup
lookup-All P id key [] all h = cc
lookup-All P id key ((id', key') ∷ keys) all h = elim (Bool-cases (str_eq id' id)) [
  | inl e ↦
      let same : key' ≡ key = ground (arith, rw e at h) in rw (← (eq_iff id' id).0 e, ← same) all.0
  | inr e ↦ lookup-All P id key keys all.1 (rw e at h)
]

module _ {Cipher : Type 0} (base64 : Base64) (aead : Aead Cipher)
    (laws : CipherLaws base64 aead) where
  decrypt_chacha-HasKeysOf :
      (old new : ChaChaEncryptor) (id text : String) (plain : Bytes)
      → HasKeysOf old new
      → decrypt_chacha base64 aead old id text ≡ ok plain
      → decrypt_chacha base64 aead new id text ≡ ok plain
  unfolding decrypt_chacha
  decrypt_chacha-HasKeysOf old new id text plain has h =
      let (key, found, h₁) =
        bind-eq-ok (key_of base64 aead "encryption key not found" old id) _ h in
      let kept =
        lookup-All (λ k. lookup k.0 new.keys ≡ some k.1) id key old.keys has
          (key_of-eq-ok base64 aead laws "encryption key not found" old id key found) in
      rw (key_of-found base64 aead laws "encryption key not found" new id key kept) h₁

  decrypt_kind-HasKeysOf :
      (old new : ChaChaEncryptor) (kind id text : String) (plain : Bytes)
      → HasKeysOf old new
      → decrypt_kind base64 aead old kind id text ≡ ok plain
      → decrypt_kind base64 aead new kind id text ≡ ok plain
  unfolding decrypt_kind
  decrypt_kind-HasKeysOf old new kind id text plain has h =
      elim (Bool-cases (str_eq kind "encrypted")) [
        | inl e ↦ rw e (decrypt_chacha-HasKeysOf old new id text plain has (rw e at h))
        | inr e ↦ rw e (rw e at h)
      ]

  -- What an encryptor decrypts, one that has its keys and perhaps more decrypts to the same
  -- plaintext, whatever its current key is.
  pub decrypt-HasKeysOf :
      (old new : ChaChaEncryptor) (ref : String) (plain : Bytes)
      → HasKeysOf old new
      → decrypt base64 aead old ref ≡ ok plain
      → decrypt base64 aead new ref ≡ ok plain
  unfolding decrypt
  decrypt-HasKeysOf old new ref plain has h = elim (Option-cases (split_ref ref)) [
    | inl n ↦ absurd (cc (rw (decrypt, n) at h))
    | inr ((kind, id, text), q) ↦
        rw (decrypt, q)
          (decrypt_kind-HasKeysOf old new kind id text plain has (rw (decrypt, q) at h))
  ]

  -- A reference that an old encryptor decrypts and that `RotateKey` of a new one has turned into
  -- another reference is decrypted to the same plaintext there, if the new encryptor has the old
  -- one's keys, its current key ID has no colon, the nonce has the cipher's size, and the cipher
  -- and base64 have `CipherLaws`.
  pub decrypt-rotate_key :
      (old new : ChaChaEncryptor) (drawn : Result Bytes) (ref ref' : String) (plain : Bytes)
      → HasKeysOf old new
      → cut_colon new.current_key_id ≡ none
      → IsSized base64 aead laws drawn
      → decrypt base64 aead old ref ≡ ok plain
      → rotate_key base64 aead new drawn ref ≡ ok ref'
      → decrypt base64 aead new ref' ≡ ok plain
  unfolding rotate_key
  decrypt-rotate_key old new drawn ref ref' plain has plain_id sized h rotated =
      let h₁ = rw (decrypt-HasKeysOf old new ref plain has h) at rotated in
      decrypt-encrypt base64 aead laws new drawn plain ref' plain_id sized
        (wrapped-eq-ok "failed to re-encrypt during rotation" _ h₁)

  storage_ref-given : (id : String) (sealed : Bytes) → storage_ref base64 aead id sealed ≢ ""
  unfolding storage_ref
  storage_ref-given id sealed e = cc e

  encrypt-given :
      (e : ChaChaEncryptor) (drawn : Result Bytes) (plain : Bytes) (ref : String)
      → encrypt base64 aead e drawn plain ≡ ok ref
      → ref ≢ ""
  unfolding encrypt
  encrypt-given e drawn plain ref h =
      let (key, found, h₁) =
        bind-eq-ok (key_of base64 aead "current key not found" e e.current_key_id) _ h in
      let (cipher, made, h₂) = wrapped-bind-eq-ok "failed to create cipher" (aead.new key) _ h₁ in
      let (nonce, drew, h₃) = wrapped-bind-eq-ok "failed to generate nonce" drawn _ h₂ in
      rw (← ok-injective h₃) (storage_ref-given e.current_key_id _)

  -- As the encryptor of the services, `ChaChaEncryptor` has `EncryptorLaws`: it decrypts what it
  -- has encrypted and makes no empty reference. This holds where its current key ID has no colon,
  -- the nonces have the cipher's size, and the cipher and base64 have `CipherLaws`.
  pub as_encryptor-EncryptorLaws :
      (e : ChaChaEncryptor) (drawn : Result Bytes)
      → cut_colon e.current_key_id ≡ none
      → IsSized base64 aead laws drawn
      → EncryptorLaws (as_encryptor base64 aead e drawn)
  unfolding as_encryptor
  as_encryptor-EncryptorLaws e drawn plain_id sized = record {
    decrypt-encrypt =
        λ plain ref h. decrypt-encrypt base64 aead laws e drawn plain ref plain_id sized h;
    encrypt-given = λ plain ref h. encrypt-given e drawn plain ref h;
  }
