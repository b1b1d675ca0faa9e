-- ===== src/Tests/Logins.antt =====
-- The API users and their tokens on a small database, with stand-ins for the libraries that have the
-- laws which the theorems ask for.
use nis.Prelude.{
  ℕ, zero, suc, ◌+◌, ◌*◌, ◌/◌, String, ◌≡◌, ◌≢◌, ◌↔◌, inl, inr, refl, true, Option, none, some,
  List, [], ◌∷◌, ◌==◌, ltb, str_eq, if◌then◌else◌, ap, arith, ◌∙◌, Bool-cases,
}
use nis.Exec.{Error, message, Result, ok, err, ok-injective}
use nis.Entities.{Uuid, Time, ApiUser, admin, operator_admin, account_admin, role_is_valid}
use nis.Repositories.{ApiUserRepository}
use nis.Auth.{
  AuthClaims, AuthLib, LoginRequest, LoginResponse, CreateRequest, RoleRequest, validate_scope,
  claims_of, login, validate_token, update_api_user_role, with_role, admins_only, create_api_user,
  new_api_user, save_user,
}
use nis.Auth.Scope.{IsWellScoped, validate_scope_iff}
use nis.Auth.Scoped.{
  ApiUserLaws, Call, after, after_all, AllWellScoped, after-not_admin, after_all-IsWellScoped,
}
use nis.Auth.Login.{TokenLaws, login_iff, validate_token-login, validate_token-expired}
use nis.Tests.Table.{
  first, find, insert_row, update_row, delete_row, find-inserted, find-updated, find-deleted,
}
use Prim.Native.Char.{code}

abbrev api_users : ApiUserRepository (List ApiUser)
api_users = record {
  create = insert_row (λ u. u.id);
  get_by_id = find (λ u. u.id);
  get_by_username = λ name. first (λ u. str_eq u.username name);
  list_all = λ options s. ok s;
  update = update_row (λ u. u.id);
  delete = delete_row (λ u. u.id);
}

as_written :
    (u x : ApiUser)
    → x ≡ u
    → (c : Time) × (t : Time) × (x ≡ record u { created_at = c; updated_at = t })
as_written u x e = (u.created_at, u.updated_at, e)

api_users_laws : ApiUserLaws api_users
api_users_laws = record {
  get-create = λ u s id x h. elim (find-inserted (λ u. u.id) u id x s h) [
    | inl e ↦ inl e
    | inr e ↦ inr (as_written u x e)
  ];
  get-update = λ u s id x h. elim (find-updated (λ u. u.id) u id x s h) [
    | inl e ↦ inl e
    | inr e ↦ inr (as_written u x e)
  ];
  get-delete = λ j s id x h. find-deleted (λ u. u.id) j id x s h;
}

-- A number in strokes and a dot, before a text.
abbrev strokes : ℕ → String → String
strokes zero s = String.◌∷◌ "." s
strokes (suc n) s = String.◌∷◌ "x" (strokes n s)

abbrev read_strokes : ℕ → String → Option (ℕ × String)
read_strokes n String.[] = none
read_strokes n (String.◌∷◌ c s) = if code c == b'.' then some (n, s) else read_strokes (suc n) s

read_strokes-strokes : (m n : ℕ) (s : String) → read_strokes n (strokes m s) ≡ some (n + m, s)
read_strokes-strokes zero n s = ground arith
read_strokes-strokes (suc m) n s = ground (arith, read_strokes-strokes m (suc n) s)

abbrev claims_on : String → AuthClaims
claims_on id = record {
  user_id = id;
  username = "";
  role = "";
  expires_at = 0;
  issued_at = 0;
  not_before = 0;
  issuer = "nis";
  subject = id;
}

-- A token is the second of its end and the user's identifier; a hash is the password after a mark.
abbrev parse_token : Time → Option (ℕ × String) → Result AuthClaims
parse_token t none = err (message "token is malformed")
parse_token t (some (second, id)) =
    if ltb t (second * 1_000_000_000) then ok (claims_on id) else err (message "token is expired")

abbrev parse_id : Option (ℕ × String) → Result Uuid
parse_id none = err (message "invalid UUID")
parse_id (some (id, rest)) = ok id

abbrev lib : AuthLib
lib = record {
  hash = λ password. ok (String.◌∷◌ "h" password);
  compare_hash_and_password = λ hash password.
      if str_eq hash (String.◌∷◌ "h" password) then ok tt else err (message "mismatch");
  sign = λ claims. ok (strokes (claims.expires_at / 1_000_000_000) claims.user_id);
  parse = λ t token. parse_token t (read_strokes 0 token);
  uuid_text = λ id. strokes id "";
  parse_uuid = λ text. parse_id (read_strokes 0 text);
}

read_from_start : (m : ℕ) (s : String) → read_strokes 0 (strokes m s) ≡ some (m, s)
read_from_start m s = ground (arith, read_strokes-strokes m 0 s)

parse-signed :
    (claims : AuthClaims) (token : String) (t : Time)
    → lib.sign claims ≡ ok token
    → lib.parse t token ≡ parse_token t (some (claims.expires_at / 1_000_000_000, claims.user_id))
parse-signed claims token t signed = rw (← ok-injective signed, read_from_start) refl

lib_laws : TokenLaws lib
lib_laws = record {
  parse-sign = λ claims token t signed from until.
      (claims_on claims.user_id, parse-signed claims token t signed ∙ ground (arith, until), refl);
  parse-expired = λ claims token t signed late.
      (message "token is expired", parse-signed claims token t signed ∙ ground (arith, late));
  sign-ne-empty = λ claims token signed e.
      let read = read_from_start (claims.expires_at / 1_000_000_000) claims.user_id in
      cc (rw (ok-injective signed, e) at read);
  parse_uuid-uuid_text = λ id. ap parse_id (read_from_start id "");
}

abbrev request : LoginRequest
request = record { username = "ann"; password = "secret" }

abbrev ann : ApiUser
ann = record {
  id = 3;
  username = "ann";
  password_hash = "hsecret";
  role = operator_admin;
  operator_id = some 1;
  account_id = none;
  created_at = 0;
  updated_at = 0;
}

abbrev root : ApiUser
root = record {
  id = 1;
  username = "root";
  password_hash = "hroot";
  role = admin;
  operator_id = none;
  account_id = none;
  created_at = 0;
  updated_at = 0;
}

abbrev stored : List ApiUser
stored = root ∷ ann ∷ []

-- Five seconds.
abbrev ttl : ℕ
ttl = 5_000_000_000

abbrev response : LoginResponse
response = record { token = "xxxxx.xxx."; user = ann }

logs_in : login api_users lib ttl 0 request stored ≡ ok response
unfolding login claims_of
logs_in = refl

login_iff_example : (login api_users lib ttl 0 request stored ≡ ok response) ↔ (
    (request.username ≢ "")
    × (request.password ≢ "")
    × (api_users.get_by_username "ann" stored ≡ ok ann)
    × (lib.compare_hash_and_password "hsecret" "secret" ≡ ok tt)
    × (lib.sign (claims_of api_users lib ttl 0 ann) ≡ ok "xxxxx.xxx."))
login_iff_example = login_iff api_users lib ttl 0 request stored response

-- Later, Ann's row has another role.
abbrev promoted : ApiUser
promoted = record ann { role = admin; operator_id = none }

validate_token-login_example :
    validate_token api_users lib ttl 4_000_000_000 "xxxxx.xxx." (root ∷ promoted ∷ []) ≡ ok promoted
validate_token-login_example =
    validate_token-login api_users lib ttl lib_laws 0 4_000_000_000 request stored
      (root ∷ promoted ∷ []) response logs_in (omega arith) (omega arith)

validate_token-expired_example :
    (e : Error) × (validate_token api_users lib ttl 5_000_000_000 "xxxxx.xxx." stored ≡ err e)
validate_token-expired_example =
    validate_token-expired api_users lib ttl lib_laws 0 5_000_000_000 request stored stored response
      logs_in (omega arith)

validate_scope_iff_example :
    ((role_is_valid account_admin ≡ true) × (validate_scope account_admin none (some 10) ≡ ok tt))
    ↔ IsWellScoped account_admin none (some 10)
validate_scope_iff_example = validate_scope_iff account_admin none (some 10)

abbrev new_user : CreateRequest
new_user = record {
  username = "cat";
  password = "meow";
  role = account_admin;
  operator_id = none;
  account_id = some 10;
}

abbrev demotion : RoleRequest
demotion = record { role = account_admin; operator_id = none; account_id = some 10 }

-- Ann may not create a user; root creates one, and gives Ann another role.
abbrev calls : List (ApiUser × Call)
calls =
    (ann, Call.create 1 4 new_user)
    ∷ (root, Call.create 1 5 new_user)
    ∷ (root, Call.set_role 2 3 demotion)
    ∷ []

after-not_admin_example : after api_users lib ttl ann (Call.create 1 4 new_user) stored ≡ stored
after-not_admin_example =
    after-not_admin api_users lib ttl ann (Call.create 1 4 new_user) stored (λ e. cc)

stored_well_scoped : AllWellScoped api_users lib ttl stored
stored_well_scoped id x found = elim (Bool-cases (1 == id)) [
  | inl e ↦ rw (← ok-injective (rw e at found)) IsWellScoped.unscoped
  | inr e ↦ elim (Bool-cases (3 == id)) [
    | inl q ↦ rw (← ok-injective (rw (e, q) at found)) (IsWellScoped.one_operator 1)
    | inr q ↦ absurd (ground (arith, rw (e, q) at found))
  ]
]

demoted :
    api_users.get_by_id 3 (after_all api_users lib ttl calls stored)
    ≡ ok (record ann {
      role = account_admin;
      operator_id = none;
      account_id = some 10;
      updated_at = 2;
    })
unfolding update_api_user_role with_role admins_only validate_scope create_api_user new_api_user
    save_user
demoted = refl

after_all-IsWellScoped_example : IsWellScoped account_admin none (some 10)
after_all-IsWellScoped_example =
    after_all-IsWellScoped api_users lib ttl api_users_laws calls stored 3
      (record ann {
        role = account_admin;
        operator_id = none;
        account_id = some 10;
        updated_at = 2;
      })
      stored_well_scoped demoted
