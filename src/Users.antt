-- ===== src/Users.antt =====
-- internal/application/services/user_service.go: the NATS users of an account. The methods that only
-- pass a lookup on to the repository are the repository's; logging is left out.
pub mod Credentials
pub mod Issued
pub mod Update
use nis.Prelude.{String, Bool, not, ◌&&◌, ◌||◌, ◌==◌, Option, none, some, str_eq, if◌then◌else◌}
use nis.Exec.{
  Error, message, Result, ok, err, ◌>>=◌, ◌>>◌, wrapped, fail_if, Exec, on_ok, then_do,
  wrapped_call,
}
use nis.Entities.{Uuid, Time, Account, ScopedSigningKey, User}
use nis.Jwt
use nis.Jwt.{generate_user_jwt}
use nis.Text.{Bytes}
use nis.Services.{Deps, Draw, name_is_free, name_is_free_for, changes_text, or_old}

pub record CreateRequest : Type 0 where
  pub account_id : Uuid
  pub name : String
  pub description : String
  pub scoped_signing_key_id : Option Uuid

pub record UpdateRequest : Type 0 where
  pub name : Option String
  pub description : Option String

-- The flag `updated` of `UpdateUser`.
unfoldable pub is_changed : UpdateRequest → User → Bool
is_changed req user =
    changes_text req.name user.name || changes_text req.description user.description

unfoldable pub apply_update : UpdateRequest → Time → User → User
apply_update req now user = record user {
  name = or_old req.name user.name;
  description = or_old req.description user.description;
  updated_at = now;
}

module _ {S KeyPair : Type 0} (d : Deps S KeyPair) (now : Time) where
  -- The scoped key that signs a user, if there is one.
  unfoldable pub signing_key : Option Uuid → S → Result (Option ScopedSigningKey)
  signing_key none s = ok none
  signing_key (some id) s = do
    key ← wrapped "failed to get scoped signing key" (d.scoped_keys.get_by_id id s)
    ok (some key)

  -- On a creation the key must belong to the account.
  unfoldable pub own_signing_key : Uuid → Option Uuid → S → Result (Option ScopedSigningKey)
  own_signing_key account_id none s = ok none
  own_signing_key account_id (some id) s = do
    key ← wrapped "failed to get scoped signing key" (d.scoped_keys.get_by_id id s)
    fail_if (not (key.account_id == account_id))
        (message "scoped signing key does not belong to the specified account")
    ok (some key)

  -- The checks of `CreateUser`, which find the account and the scoped key.
  unfoldable pub check_create : CreateRequest → S → Result (Account × Option ScopedSigningKey)
  check_create req s = do
    fail_if (str_eq req.name "") (message "user name is required")
    account ← wrapped "failed to get account" (d.accounts.get_by_id req.account_id s)
    name_is_free "failed to check existing user" (d.users.get_by_name req.account_id req.name s)
    scoped_key ← own_signing_key req.account_id req.scoped_signing_key_id s
    ok (account, scoped_key)

  -- The user entity before it is signed.
  unfoldable pub draft_user : CreateRequest → Uuid → String → String → User
  draft_user req id encrypted_seed public_key = record {
    id = id;
    account_id = req.account_id;
    name = req.name;
    description = req.description;
    encrypted_seed = encrypted_seed;
    public_key = public_key;
    jwt = "";
    scoped_signing_key_id = req.scoped_signing_key_id;
    created_at = now;
    updated_at = now;
  }

  unfoldable pub sign_new_user :
      Draw → CreateRequest → Account → Option ScopedSigningKey → Result User
  sign_new_user draw req account scoped_key = do
    pair ← wrapped "failed to generate user keys" draw.nkey
    encrypted_seed ← wrapped "failed to encrypt user seed" (d.encryptor.encrypt pair.0)
    let user = draft_user req draw.id encrypted_seed pair.1
    jwt ←
        wrapped "failed to generate user JWT"
          (generate_user_jwt d.encryptor d.nkeys now user account scoped_key)
    ok (record user { jwt = jwt })

  unfoldable pub new_user : Draw → CreateRequest → S → Result User
  new_user draw req s = check_create req s >>= λ found. sign_new_user draw req found.0 found.1

  unfoldable pub create_user : Draw → CreateRequest → Exec S User
  create_user draw req s =
      on_ok (new_user draw req s)
        (λ user.
          then_do (wrapped_call "failed to create user" (d.users.create user))
            (λ _ s'. (ok user, s')))
        s

  unfoldable pub check_new_name : Uuid → UpdateRequest → User → S → Result (Unit {0})
  check_new_name id req user s =
      if changes_text req.name user.name
      then name_is_free_for (λ existing. existing.id == id) "failed to check existing user"
          (d.users.get_by_name user.account_id (or_old req.name user.name) s)
      else ok tt

  unfoldable pub user_to_update : Uuid → UpdateRequest → S → Result User
  user_to_update id req s = do user ← d.users.get_by_id id s; check_new_name id req user s; ok user

  -- The user with its JWT signed again.
  unfoldable pub signed_again : User → S → Result User
  signed_again user s = do
    account ← wrapped "failed to get account" (d.accounts.get_by_id user.account_id s)
    scoped_key ← signing_key user.scoped_signing_key_id s
    jwt ←
        wrapped "failed to regenerate user JWT"
          (generate_user_jwt d.encryptor d.nkeys now user account scoped_key)
    ok (record user { jwt = jwt })

  unfoldable pub save_signed : User → Exec S User
  save_signed user s =
      on_ok (signed_again user s)
        (λ signed.
          then_do (wrapped_call "failed to update user" (d.users.update signed))
            (λ _ s'. (ok signed, s')))
        s

  unfoldable pub update_user : Uuid → UpdateRequest → Exec S User
  update_user id req s =
      on_ok (user_to_update id req s)
        (λ user.
          if is_changed req user
          then save_signed (apply_update req now user)
          else (λ s'. (ok user, s')))
        s

  -- The checks of `DeleteUser`.
  unfoldable pub may_delete : Uuid → S → Result (Unit {0})
  may_delete id s = do
    user ← d.users.get_by_id id s
    account ← wrapped "failed to get account" (d.accounts.get_by_id user.account_id s)
    fail_if (str_eq account.name "$SYS" && str_eq user.name "system")
        (message "cannot delete system user: this user is the system user in the $SYS account")

  unfoldable pub delete_user : Uuid → Exec S (Unit {0})
  delete_user id s = on_ok (may_delete id s) (λ _. d.users.delete id) s

  unfoldable pub get_user_credentials : Uuid → S → Result Bytes
  get_user_credentials id s = do
    user ← d.users.get_by_id id s
    Jwt.get_user_credentials d.encryptor user
