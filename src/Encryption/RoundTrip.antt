-- ===== src/Encryption/RoundTrip.antt =====
-- What ChaChaEncryptor encrypts it can decrypt, also after a rotation.
use nis.Prelude.{
  String, ◌≡◌, refl, sym, ◌∙◌, ap, false, ltb, Bool-cases, Option-cases, inl, inr, ◌==◌, none, some,
  ◌++◌, [], ◌∷◌, length, take, drop, join, arith,
}
use Prim.Native.Char.{code}
use nis.Exec.{Result, ok, err, bind-eq-ok, wrapped-bind-eq-ok, ok-injective}
use nis.Text.{Bytes}
use nis.Encryption.{
  Aead, Base64, ChaChaEncryptor, lookup, cut_colon, split_ref, key_of, storage_ref, encrypt,
  open_sealed, decrypt_chacha, decrypt_kind, decrypt,
}

-- What was encoded can be decoded; what was sealed with a nonce of the cipher's size can be opened.
pub record CipherLaws {Cipher : Type 0} (base64 : Base64) (aead : Aead Cipher) : Type 0 where
  pub decode-encode : (b : Bytes) → base64.decode_string (base64.encode_to_string b) ≡ ok b
  pub open-seal :
      (key nonce plain : Bytes) (cipher : Cipher)
      → aead.new key ≡ ok cipher
      → length nonce ≡ aead.nonce_size
      → aead.open_with cipher nonce (aead.seal cipher nonce plain) ≡ ok plain

pub cut_colon-join :
    (id t : String) → cut_colon id ≡ none → cut_colon (join id (join ":" t)) ≡ some (id, t)
unfolding cut_colon
cut_colon-join String.[] t h = refl
cut_colon-join (String.◌∷◌ c id) t h = elim (Bool-cases (code c == b':')) [
  | inl e ↦ absurd (cc (rw e at h))
  | inr e ↦ elim (Option-cases (cut_colon id)) [
    | inl n ↦ rw (e, cut_colon-join id t n) refl
    | inr (p, q) ↦ absurd (cc (rw (e, q) at h))
  ]
]

take-nonce : (nonce rest : Bytes) → take (length nonce) (nonce ++ rest) ≡ nonce
take-nonce [] rest = refl
take-nonce (c ∷ nonce) rest = ap (λ y. c ∷ y) (take-nonce nonce rest)

drop-nonce : (nonce rest : Bytes) → drop (length nonce) (nonce ++ rest) ≡ rest
drop-nonce [] rest = refl
drop-nonce (c ∷ nonce) rest = drop-nonce nonce rest

ltb-length : (nonce rest : Bytes) → ltb (length (nonce ++ rest)) (length nonce) ≡ false
ltb-length [] rest = ground arith
ltb-length (c ∷ nonce) rest = let e = ltb-length nonce rest in ground (arith, e)

module _ {Cipher : Type 0} (base64 : Base64) (aead : Aead Cipher)
    (laws : CipherLaws base64 aead) where
  open_sealed-seal :
      (key nonce plain : Bytes) (cipher : Cipher)
      → aead.new key ≡ ok cipher
      → length nonce ≡ aead.nonce_size
      → open_sealed base64 aead cipher (nonce ++ aead.seal cipher nonce plain) ≡ ok plain
  unfolding open_sealed
  open_sealed-seal key nonce plain cipher made sized =
      let sealed = aead.seal cipher nonce plain in
      rw
        (
          ← sized,
          ltb-length nonce sealed,
          take-nonce nonce sealed,
          drop-nonce nonce sealed,
          laws.open-seal key nonce plain cipher made sized,
        )
        refl

  -- A run's nonce has the size of the cipher's nonces.
  abbrev pub IsSized : Result Bytes → Type 0
  IsSized (ok nonce) = length nonce ≡ aead.nonce_size
  IsSized (err e) = Unit

  IsSized-ok :
      (drawn : Result Bytes) (nonce : Bytes)
      → IsSized drawn
      → drawn ≡ ok nonce
      → length nonce ≡ aead.nonce_size
  IsSized-ok (ok x) nonce sized e = ap (λ y. length y) (sym (ok-injective e)) ∙ sized
  IsSized-ok (err x) nonce sized e = cc

  split_ref-storage_ref :
      (id : String) (sealed : Bytes)
      → cut_colon id ≡ none
      → split_ref (storage_ref base64 aead id sealed)
        ≡ some ("encrypted", id, base64.encode_to_string sealed)
  unfolding split_ref storage_ref cut_colon
  split_ref-storage_ref id sealed plain_id =
      rw (split_ref, cut_colon-join id (base64.encode_to_string sealed) plain_id) refl

  pub key_of-found :
      (text : String) (e : ChaChaEncryptor) (id : String) (key : Bytes)
      → lookup id e.keys ≡ some key
      → key_of base64 aead text e id ≡ ok key
  unfolding key_of
  key_of-found text e id key found = rw (key_of, found) refl

  decrypt-storage_ref :
      (e : ChaChaEncryptor) (id : String) (key sealed : Bytes) (cipher : Cipher)
      → cut_colon id ≡ none
      → lookup id e.keys ≡ some key
      → aead.new key ≡ ok cipher
      → decrypt base64 aead e (storage_ref base64 aead id sealed)
        ≡ open_sealed base64 aead cipher sealed
  unfolding decrypt decrypt_kind decrypt_chacha
  decrypt-storage_ref e id key sealed cipher plain_id found made =
      rw
        (
          decrypt,
          split_ref-storage_ref id sealed plain_id,
          key_of-found "encryption key not found" e id key found,
          laws.decode-encode sealed,
          made,
        )
        refl

  pub key_of-eq-ok :
      (text : String) (e : ChaChaEncryptor) (id : String) (key : Bytes)
      → key_of base64 aead text e id ≡ ok key
      → lookup id e.keys ≡ some key
  unfolding key_of
  key_of-eq-ok text e id key h = elim (Option-cases (lookup id e.keys)) [
    | inl n ↦ absurd (cc (rw (key_of, n) at h))
    | inr (k, q) ↦ q ∙ ap (λ x. some x) (ok-injective (rw (key_of, q) at h))
  ]

  -- A key ID without a colon can be told from what follows it in a reference. What an encryptor with
  -- such a current key ID encrypts, with a nonce of the cipher's size, it decrypts to the same
  -- plaintext, if the cipher and base64 have `CipherLaws`.
  pub decrypt-encrypt :
      (e : ChaChaEncryptor) (drawn : Result Bytes) (plain : Bytes) (ref : String)
      → cut_colon e.current_key_id ≡ none
      → IsSized drawn
      → encrypt base64 aead e drawn plain ≡ ok ref
      → decrypt base64 aead e ref ≡ ok plain
  unfolding encrypt
  decrypt-encrypt e drawn plain ref plain_id sized h =
      let (key, found, h₁) =
        bind-eq-ok (key_of base64 aead "current key not found" e e.current_key_id) _ h in
      let (cipher, made, h₂) = wrapped-bind-eq-ok "failed to create cipher" (aead.new key) _ h₁ in
      let (nonce, drew, h₃) = wrapped-bind-eq-ok "failed to generate nonce" drawn _ h₂ in
      let sealed = nonce ++ aead.seal cipher nonce plain in
      rw (← ok-injective h₃) (
        decrypt-storage_ref e e.current_key_id key sealed cipher plain_id
          (key_of-eq-ok "current key not found" e e.current_key_id key found) made
        ∙ open_sealed-seal key nonce plain cipher made (IsSized-ok drawn nonce sized drew))
