-- ===== src/Jwt.antt =====
-- internal/application/services/jwt_service.go: the claims that NIS puts into NATS JWTs, and who
-- signs them. The libraries github.com/nats-io/jwt and nkeys are the parameter `Nkeys`: a key pair
-- is read from a seed, and a claim is encoded at a time, since the library stamps it. The claim
-- records hold the fields that the service sets; the others keep the library's defaults.
pub mod Claims
use nis.Prelude.{
  zero, suc, String, Bool, true, false, Option, none, some, List, [], ◌∷◌, str_eq, map, ◌||◌, ◌++◌,
  codes, if◌then◌else◌,
}
use nis.Exec.{Result, ok, ◌>>=◌, wrapped}
use nis.Entities.{ℤ, pos, negsuc, Time, Operator, Account, ScopedSigningKey, User}
use nis.Text.{Bytes}

-- internal/infrastructure/encryption/encryptor.go: the two operations that the services call.
-- `encrypt` stands for one run, with the nonces that the run draws.
pub record Encryptor : Type 0 where
  pub encrypt : Bytes → Result String
  pub decrypt : String → Result Bytes

-- The zero value stands for "no system account".
pub record OperatorClaims : Type 0 where
  pub subject : String
  pub name : String
  pub system_account : String

pub record JetStreamLimits : Type 0 where
  pub memory_storage : ℤ
  pub disk_storage : ℤ
  pub streams : ℤ
  pub consumer : ℤ
  pub memory_max_stream_bytes : ℤ
  pub disk_max_stream_bytes : ℤ

pub record ResponsePermission : Type 0 where
  pub max_msgs : ℤ
  pub expires : ℤ

pub record UserScope : Type 0 where
  pub key : String
  pub role : String
  pub description : String
  pub pub_allow : List String
  pub pub_deny : List String
  pub sub_allow : List String
  pub sub_deny : List String
  pub resp : Option ResponsePermission

-- `jet_stream` is `none` where the library's limits stay; `signing_keys` is the map from keys to
-- scopes, of which each holds its key.
pub record AccountClaims : Type 0 where
  pub subject : String
  pub name : String
  pub jet_stream : Option JetStreamLimits
  pub signing_keys : List UserScope

-- `scoped` is the argument of `SetScoped`, which empties the user's own permissions.
pub record UserClaims : Type 0 where
  pub subject : String
  pub name : String
  pub issuer_account : String
  pub scoped : Bool

pub record GenericClaims : Type 0 where
  pub subject : String
  pub accounts : List Bytes

pub record Nkeys (KeyPair : Type 0) : Type 0 where
  pub from_seed : Bytes → Result KeyPair
  pub public_key : KeyPair → Result String
  pub encode_operator : Time → OperatorClaims → KeyPair → Result String
  pub encode_account : Time → AccountClaims → KeyPair → Result String
  pub encode_user : Time → UserClaims → KeyPair → Result String
  pub encode_generic : Time → GenericClaims → KeyPair → Result String

is_positive : ℤ → Bool
is_positive (pos zero) = false
is_positive (pos (suc n)) = true
is_positive (negsuc n) = false

unfoldable pub scope_of : ScopedSigningKey → UserScope
unfolding is_positive
scope_of sk = record {
  key = sk.public_key;
  role = sk.name;
  description = sk.description;
  pub_allow = sk.pub_allow;
  pub_deny = sk.pub_deny;
  sub_allow = sk.sub_allow;
  sub_deny = sk.sub_deny;
  resp =
      if is_positive sk.response_max_msgs || is_positive sk.response_ttl
      then some (record { max_msgs = sk.response_max_msgs; expires = sk.response_ttl })
      else none;
}

unfoldable pub jet_stream_of : Account → Option JetStreamLimits
jet_stream_of account =
    if account.jet_stream_enabled
    then some (record {
      memory_storage = account.jet_stream_max_memory;
      disk_storage = account.jet_stream_max_storage;
      streams = account.jet_stream_max_streams;
      consumer = account.jet_stream_max_consumers;
      memory_max_stream_bytes = negsuc 0;
      disk_max_stream_bytes = negsuc 0;
    })
    else none

unfoldable pub operator_claims : Operator → OperatorClaims
operator_claims operator = record {
  subject = operator.public_key;
  name = operator.name;
  system_account = operator.system_account_pub_key;
}

-- `AddScopedSigner`: the scope is the entry of its key, whatever was there.
unfoldable pub add_scoped_signer : UserScope → List UserScope → List UserScope
add_scoped_signer scope [] = scope ∷ []
add_scoped_signer scope (x ∷ xs) =
    if str_eq x.key scope.key then scope ∷ xs else x ∷ add_scoped_signer scope xs

-- The loop over the scoped keys; a nil key is skipped.
unfoldable pub add_scoped_keys : List (Option ScopedSigningKey) → List UserScope → List UserScope
unfolding scope_of
add_scoped_keys [] scopes = scopes
add_scoped_keys (none ∷ keys) scopes = add_scoped_keys keys scopes
add_scoped_keys (some sk ∷ keys) scopes =
    add_scoped_keys keys (add_scoped_signer (scope_of sk) scopes)

unfoldable pub account_claims : Account → List (Option ScopedSigningKey) → AccountClaims
unfolding jet_stream_of
account_claims account scoped_keys = record {
  subject = account.public_key;
  name = account.name;
  jet_stream = jet_stream_of account;
  signing_keys = add_scoped_keys scoped_keys [];
}

-- A user signed by a scoped key names the account as issuer and is emptied of permissions.
unfoldable pub user_claims : User → Account → Option ScopedSigningKey → UserClaims
user_claims user account none = record {
  subject = user.public_key;
  name = user.name;
  issuer_account = "";
  scoped = false;
}
user_claims user account (some scoped_key) = record {
  subject = user.public_key;
  name = user.name;
  issuer_account = account.public_key;
  scoped = true;
}

unfoldable pub validate_nkey_seed : {KeyPair : Type 0} → Nkeys KeyPair → Bytes → Result String
validate_nkey_seed nkeys seed = do
  kp ← wrapped "invalid seed" (nkeys.from_seed seed)
  wrapped "failed to get public key" (nkeys.public_key kp)

module _ {KeyPair : Type 0} (encryptor : Encryptor) (nkeys : Nkeys KeyPair) where
  -- The key pair behind a stored seed, with the texts of the two errors.
  unfoldable pub key_pair_of : String → String → String → Result KeyPair
  key_pair_of decrypting parsing encrypted_seed = do
    seed ← wrapped decrypting (encryptor.decrypt encrypted_seed)
    wrapped parsing (nkeys.from_seed seed)

  abbrev operator_key_pair : Operator → Result KeyPair
  operator_key_pair operator =
      key_pair_of "failed to decrypt operator seed" "failed to parse operator seed"
        operator.encrypted_seed

  unfoldable pub generate_operator_jwt : Time → Operator → Result String
  generate_operator_jwt now operator = do
    kp ← operator_key_pair operator
    wrapped "failed to encode operator JWT"
        (nkeys.encode_operator now (operator_claims operator) kp)

  -- The services pass the keys that a repository has listed, none of which is nil.
  unfoldable pub generate_account_jwt :
      Time → Account → Operator → List ScopedSigningKey → Result String
  generate_account_jwt now account operator scoped_keys = do
    kp ← operator_key_pair operator
    wrapped "failed to encode account JWT"
        (nkeys.encode_account now (account_claims account (map some scoped_keys)) kp)

  -- A user is signed by the scoped key, if there is one, or else by the account.
  abbrev user_signer : Account → Option ScopedSigningKey → Result KeyPair
  user_signer account none =
      key_pair_of "failed to decrypt account seed" "failed to parse account seed"
        account.encrypted_seed
  user_signer account (some scoped_key) =
      key_pair_of "failed to decrypt scoped key seed" "failed to parse scoped key seed"
        scoped_key.encrypted_seed

  unfoldable pub generate_user_jwt : Time → User → Account → Option ScopedSigningKey → Result String
  generate_user_jwt now user account scoped_key = do
    kp ← user_signer account scoped_key
    wrapped "failed to encode user JWT"
        (nkeys.encode_user now (user_claims user account scoped_key) kp)

  unfoldable pub generate_delete_claim_jwt : Time → Operator → List Bytes → Result String
  generate_delete_claim_jwt now operator account_public_keys = do
    kp ← operator_key_pair operator
    wrapped "failed to encode delete claim JWT" (
        nkeys.encode_generic now
          (record { subject = operator.public_key; accounts = account_public_keys }) kp)

-- `GenerateCredsFile` of internal/domain/entities/user.go, as bytes.
unfoldable pub generate_creds_file : User → Bytes → Bytes
generate_creds_file user seed =
    codes "-----BEGIN NATS USER JWT-----\n"
    ++ (codes user.jwt
        ++ (codes
              "\n------END NATS USER JWT------\n\n************************* IMPORTANT *************************\nNKEY Seed printed below can be used to sign and prove identity.\nNKEYs are sensitive and should be treated as secrets.\n\n-----BEGIN USER NKEY SEED-----\n"
            ++ (seed
                ++ codes
                    "\n------END USER NKEY SEED------\n\n*************************************************************\n")))

unfoldable pub get_user_credentials : Encryptor → User → Result Bytes
get_user_credentials encryptor user = do
  seed ← wrapped "failed to decrypt user seed" (encryptor.decrypt user.encrypted_seed)
  ok (generate_creds_file user seed)
