-- ===== src/Auth.antt =====
-- internal/application/services/auth_service.go: logins, tokens and API users. The libraries bcrypt,
-- golang-jwt and uuid are the parameter `AuthLib`. An error text into which Go formats a value ends
-- before the value.
pub mod Scope
pub mod Scoped
pub mod Login
use nis.Prelude.{
  ℕ, ◌+◌, String, Bool, true, false, not, ◌||◌, ◌==◌, Option, none, some, List, str_eq,
  if◌then◌else◌,
}
use nis.Exec.{
  Error, message, already_exists, is_not_found, Result, ok, err, ◌>>=◌, ◌>>◌, wrapped, fail_if,
  Exec, on_ok, then_do, wrapped_call,
}
use nis.Entities.{
  Uuid, Time, ApiUser, Role, admin, operator_admin, account_admin, other, role_eq, role_name,
  role_is_valid,
}
use nis.Repositories.{ApiUserRepository, ListOptions}
use nis.Services.{is_given}

-- The claims of a session token; `subject` is a copy of the user's identifier.
pub record AuthClaims : Type 0 where
  pub user_id : String
  pub username : String
  pub role : String
  pub expires_at : Time
  pub issued_at : Time
  pub not_before : Time
  pub issuer : String
  pub subject : String

-- `hash` is one run of bcrypt.GenerateFromPassword; `sign` is SignedString with the service's secret
-- under HS256; `parse` is ParseWithClaims at a time, with the key function that accepts only HMAC.
pub record AuthLib : Type 0 where
  pub hash : String → Result String
  pub compare_hash_and_password : String → String → Result (Unit {0})
  pub sign : AuthClaims → Result String
  pub parse : Time → String → Result AuthClaims
  pub uuid_text : Uuid → String
  pub parse_uuid : String → Result Uuid

-- The default of 24 hours of `NewAuthService`, in nanoseconds.
unfoldable pub token_ttl : ℕ → ℕ
token_ttl configured = if configured == 0 then 86_400_000_000_000 else configured

pub record LoginRequest : Type 0 where
  pub username : String
  pub password : String

pub record LoginResponse : Type 0 where
  pub token : String
  pub user : ApiUser

pub record CreateRequest : Type 0 where
  pub username : String
  pub password : String
  pub role : Role
  pub operator_id : Option Uuid
  pub account_id : Option Uuid

pub record RoleRequest : Type 0 where
  pub role : Role
  pub operator_id : Option Uuid
  pub account_id : Option Uuid

-- The switch on the role in `CreateAPIUser` and in `UpdateAPIUserRole`.
unfoldable pub validate_scope : Role → Option Uuid → Option Uuid → Result (Unit {0})
validate_scope operator_admin operator_id account_id =
    fail_if (not (is_given operator_id)) (message "operator_id is required for operator-admin role")
    >> fail_if (is_given account_id) (message "account_id must not be set for operator-admin role")
validate_scope account_admin operator_id account_id =
    fail_if (not (is_given account_id)) (message "account_id is required for account-admin role")
    >> fail_if (is_given operator_id) (message "operator_id must not be set for account-admin role")
validate_scope admin operator_id account_id =
    fail_if (is_given operator_id || is_given account_id)
      (message "operator_id and account_id must not be set for admin role")
validate_scope (other _) operator_id account_id = ok tt

-- `errors.Is(err, ErrNotFound)` becomes the given text; any other error is wrapped.
abbrev pub hide_not_found {ℓ} : {A : Type ℓ} → String → Result A → Result A
hide_not_found text (ok a) = ok a
hide_not_found text (err e) =
    if is_not_found e then err (message text) else wrapped "failed to get user" (err e)

-- Any error of the comparison reads like an unknown user.
abbrev pub password_matches : Result (Unit {0}) → Result (Unit {0})
password_matches (ok _) = ok tt
password_matches (err e) = err (message "invalid username or password")

-- `err == nil && existing != nil` is a conflict; an error of the lookup is passed over.
abbrev pub username_is_free : Result ApiUser → Result (Unit {0})
username_is_free (ok existing) = err already_exists
username_is_free (err e) = ok tt

module _ {S : Type 0} (repo : ApiUserRepository S) (lib : AuthLib) (ttl : ℕ) (now : Time) where
  unfoldable pub claims_of : ApiUser → AuthClaims
  claims_of user = record {
    user_id = lib.uuid_text user.id;
    username = user.username;
    role = role_name user.role;
    expires_at = now + ttl;
    issued_at = now;
    not_before = now;
    issuer = "nis";
    subject = lib.uuid_text user.id;
  }

  unfoldable pub login : LoginRequest → S → Result LoginResponse
  unfolding claims_of
  login req s = do
    fail_if (str_eq req.username "") (message "username is required")
    fail_if (str_eq req.password "") (message "password is required")
    user ← hide_not_found "invalid username or password" (repo.get_by_username req.username s)
    password_matches (lib.compare_hash_and_password user.password_hash req.password)
    token ← wrapped "failed to generate token" (lib.sign (claims_of user))
    ok (record { token = token; user = user })

  unfoldable pub validate_token : String → S → Result ApiUser
  validate_token token s = do
    fail_if (str_eq token "") (message "token is required")
    claims ← wrapped "invalid token" (lib.parse now token)
    user_id ← wrapped "invalid user ID in token" (lib.parse_uuid claims.user_id)
    hide_not_found "user not found" (repo.get_by_id user_id s)

  -- Every method on API users begins with this test of the requesting user.
  unfoldable pub admins_only : String → ApiUser → Result (Unit {0})
  unfolding role_eq
  admins_only denial requesting = fail_if (not (role_eq requesting.role admin)) (message denial)

  unfoldable pub new_api_user : Uuid → CreateRequest → ApiUser → S → Result ApiUser
  unfolding role_is_valid
  new_api_user id req requesting s = do
    admins_only "permission denied: only admins can create API users" requesting
    fail_if (str_eq req.username "") (message "username is required")
    fail_if (str_eq req.password "") (message "password is required")
    fail_if (not (role_is_valid req.role)) (message "invalid role")
    validate_scope req.role req.operator_id req.account_id
    username_is_free (repo.get_by_username req.username s)
    password_hash ← wrapped "failed to hash password" (lib.hash req.password)
    ok (record {
      id = id;
      username = req.username;
      password_hash = password_hash;
      role = req.role;
      operator_id = req.operator_id;
      account_id = req.account_id;
      created_at = now;
      updated_at = now;
    })

  -- `id` is the draw of `uuid.New()`.
  unfoldable pub create_api_user : Uuid → CreateRequest → ApiUser → Exec S ApiUser
  create_api_user id req requesting s =
      on_ok (new_api_user id req requesting s)
        (λ user.
          then_do (wrapped_call "failed to create user" (repo.create user)) (λ _ s'. (ok user, s')))
        s

  unfoldable pub get_api_user : Uuid → ApiUser → S → Result ApiUser
  get_api_user id requesting s =
      admins_only "permission denied: only admins can view API users" requesting
      >> repo.get_by_id id s

  unfoldable pub get_api_user_by_username : String → ApiUser → S → Result ApiUser
  get_api_user_by_username username requesting s =
      admins_only "permission denied: only admins can view API users" requesting
      >> repo.get_by_username username s

  unfoldable pub list_api_users : ApiUser → S → Result (List ApiUser)
  list_api_users requesting s =
      admins_only "permission denied: only admins can view API users" requesting
      >> repo.list_all (record { limit = 0; offset = 0 }) s

  unfoldable pub with_password : Uuid → String → ApiUser → S → Result ApiUser
  with_password id password requesting s = do
    admins_only "permission denied: only admins can update API user passwords" requesting
    fail_if (str_eq password "") (message "password is required")
    user ← repo.get_by_id id s
    password_hash ← wrapped "failed to hash password" (lib.hash password)
    ok (record user { password_hash = password_hash; updated_at = now })

  -- The write that ends both updates of an API user.
  unfoldable pub save_user : ApiUser → Exec S ApiUser
  save_user user =
      then_do (wrapped_call "failed to update user" (repo.update user)) (λ _ s. (ok user, s))

  unfoldable pub update_api_user_password : Uuid → String → ApiUser → Exec S ApiUser
  update_api_user_password id password requesting s =
      on_ok (with_password id password requesting s) save_user s

  unfoldable pub with_role : Uuid → RoleRequest → ApiUser → S → Result ApiUser
  unfolding role_is_valid
  with_role id req requesting s = do
    admins_only "permission denied: only admins can update API user roles" requesting
    fail_if (not (role_is_valid req.role)) (message "invalid role")
    validate_scope req.role req.operator_id req.account_id
    user ← repo.get_by_id id s
    ok (record user {
      role = req.role;
      operator_id = req.operator_id;
      account_id = req.account_id;
      updated_at = now;
    })

  unfoldable pub update_api_user_role : Uuid → RoleRequest → ApiUser → Exec S ApiUser
  update_api_user_role id req requesting s = on_ok (with_role id req requesting s) save_user s

  unfoldable pub delete_api_user : Uuid → ApiUser → Exec S (Unit {0})
  delete_api_user id requesting s =
      on_ok (admins_only "permission denied: only admins can delete API users" requesting)
        (λ _. repo.delete id) s
