-- ===== src/Encryption/Setup.antt =====
-- What NewChaChaEncryptor accepts.
use nis.Prelude.{
  String, ◌≡◌, refl, ◌≢◌, ◌∙◌, ap, not, Option-cases, inl, inr, ◌==◌, ◌++◌, ==_iff, none, some,
  List, [], ◌∷◌, length, join, str_eq, eq_iff, arith, All,
}
use nis.Exec.{
  Result, ok, err, message, bind-eq-ok, wrapped-bind-eq-ok, ok-injective, fail_if, fail_if-eq-ok,
}
use nis.Text.{Bytes}
use nis.Encryption.{
  Aead, Base64, ChaChaEncryptor, lookup, cut_colon, split_ref, decode_key, decode_keys, check_given,
  new_chacha_encryptor, key_of, storage_ref, encrypt, decrypt_chacha, decrypt_kind, decrypt,
}
use nis.Encryption.RoundTrip.{cut_colon-join}

-- The current key is there, under an ID that is not empty, and every key has the cipher's size.
pub record IsValid (current : String) (e : ChaChaEncryptor) : Type 0 where
  pub id : e.current_key_id ≡ current
  pub named : current ≢ ""
  pub current_key : (key : Bytes) × (lookup current e.keys ≡ some key)
  pub sizes : All (λ (k : String × Bytes). length k.1 ≡ 32) e.keys

module _ (base64 : Base64) where
  decode_key-size :
      (k : String × String) (key : String × Bytes)
      → decode_key base64 k ≡ ok key
      → length key.1 ≡ 32
  unfolding decode_key
  decode_key-size (id, text) key h =
      let (b, decoded, h₁) =
        wrapped-bind-eq-ok "failed to decode key " (base64.decode_string text) _ h in
      let why = message "key has invalid size" in
      let (_, sized, h₂) = bind-eq-ok (fail_if (not (length b == 32)) why) _ h₁ in
      let e = fail_if-eq-ok (not (length b == 32)) why sized in
      rw (← ok-injective h₂) ((==_iff (length b) 32).0 (ground (arith, e)))

  decode_keys-sizes :
      (keys : List (String × String)) (decoded : List (String × Bytes))
      → decode_keys base64 keys ≡ ok decoded
      → All (λ (k : String × Bytes). length k.1 ≡ 32) decoded
  unfolding decode_keys
  decode_keys-sizes [] decoded h = rw (← ok-injective h) tt
  decode_keys-sizes (k ∷ keys) decoded h =
      let (key, first, h₁) = bind-eq-ok (decode_key base64 k) _ h in
      let (rest, others, h₂) = bind-eq-ok (decode_keys base64 keys) _ h₁ in
      rw (← ok-injective h₂) (decode_key-size k key first, decode_keys-sizes keys rest others)

  check_given-named :
      (keys : List (String × String)) (current : String)
      → check_given base64 keys current ≡ ok tt
      → current ≢ ""
  unfolding check_given
  check_given-named [] current h = cc
  check_given-named (k ∷ keys) current h =
      let why = message "current key ID is required" in
      λ e. ground (arith, fail_if-eq-ok (str_eq current "") why h, eq_iff current "")

  -- An encryptor that `NewChaChaEncryptor` returns has the requested current key ID, which is not
  -- empty, a key under it, and only keys of 32 bytes.
  pub new_chacha_encryptor-IsValid :
      (keys : List (String × String)) (current : String) (e : ChaChaEncryptor)
      → new_chacha_encryptor base64 keys current ≡ ok e
      → IsValid current e
  unfolding new_chacha_encryptor
  new_chacha_encryptor-IsValid keys current e h =
      let (_, given, h₁) = bind-eq-ok (check_given base64 keys current) _ h in
      let (decoded, all, h₂) = bind-eq-ok (decode_keys base64 keys) _ h₁ in
      elim (Option-cases (lookup current decoded)) [
        | inl n ↦ absurd (cc (rw n at h₂))
        | inr (key, q) ↦
            let same : record { keys = decoded; current_key_id = current } ≡ e =
              ok-injective (rw q at h₂) in
            rw (← same) (record {
              id = refl;
              named = check_given-named keys current given;
              current_key = (key, q);
              sizes = decode_keys-sizes keys decoded all;
            })
      ]

join_assoc : (s t u : String) → join (join s t) u ≡ join s (join t u)
join_assoc String.[] t u = refl
join_assoc (String.◌∷◌ c s) t u = ap (λ x. String.◌∷◌ c x) (join_assoc s t u)

module _ {Cipher : Type 0} (base64 : Base64) (aead : Aead Cipher) where
  split_ref-encrypted :
      (id t : String)
      → cut_colon id ≡ none
      → split_ref (join "encrypted:" (join id (join ":" t))) ≡ some ("encrypted", id, t)
  unfolding split_ref cut_colon
  split_ref-encrypted id t plain_id = rw (split_ref, cut_colon-join id t plain_id) refl

  key_of-missing :
      (text : String) (e : ChaChaEncryptor) (id : String)
      → lookup id e.keys ≡ none
      → key_of base64 aead text e id ≡ err (message text)
  unfolding key_of
  key_of-missing text e id missing = rw (key_of, missing) refl

  -- What is encrypted under a current key ID with a colon cannot be decrypted by the same
  -- encryptor, if the part of the ID before its first colon is not itself a key's ID.
  pub decrypt-colon :
      (e : ChaChaEncryptor) (drawn : Result Bytes) (plain : Bytes) (ref before after : String)
      → e.current_key_id ≡ join before (join ":" after)
      → cut_colon before ≡ none
      → lookup before e.keys ≡ none
      → encrypt base64 aead e drawn plain ≡ ok ref
      → decrypt base64 aead e ref ≡ err (message "encryption key not found")
  unfolding encrypt storage_ref decrypt decrypt_kind decrypt_chacha
  decrypt-colon e drawn plain ref before after colon first missing h =
      let (key, found, h₁) =
        bind-eq-ok (key_of base64 aead "current key not found" e e.current_key_id) _ h in
      let (cipher, made, h₂) = wrapped-bind-eq-ok "failed to create cipher" (aead.new key) _ h₁ in
      let (nonce, drew, h₃) = wrapped-bind-eq-ok "failed to generate nonce" drawn _ h₂ in
      let text = base64.encode_to_string (nonce ++ aead.seal cipher nonce plain) in
      let spelled : join e.current_key_id (join ":" text)
          ≡ join before (join ":" (join after (join ":" text))) =
        ap (λ x. join x (join ":" text)) colon
        ∙ join_assoc before (join ":" after) (join ":" text) in
      let split =
        ap (λ x. split_ref (join "encrypted:" x)) spelled
        ∙ split_ref-encrypted before (join after (join ":" text)) first in
      rw (← ok-injective h₃)
        (rw (decrypt, split, key_of-missing "encryption key not found" e before missing) refl)
