-- ===== src/Operators.antt =====
-- internal/application/services/operator_service.go. The methods that only pass a lookup on to the
-- repository are the repository's. An error text into which Go formats a value ends before the value.
pub mod Created
pub mod Cascade
pub mod Signed
use nis.Prelude.{
  String, Bool, true, false, not, ◌&&◌, ◌||◌, ◌==◌, Option, none, some, List, [], ◌∷◌, ◌++◌, codes,
  str_eq, if◌then◌else◌,
}
use nis.Exec.{
  Error, message, not_found, Result, ok, err, ◌>>=◌, ◌>>◌, wrapped, fail_if, Exec, on_ok, then_do,
  wrapped_call,
}
use nis.Entities.{pos, Uuid, Time, Operator, Account, User}
use nis.Repositories.{ListOptions}
use nis.Text.{Bytes}
use nis.Jwt.{OperatorClaims, generate_operator_jwt, generate_user_jwt}
use nis.Services.{Deps, Draw, up_to_1000, name_is_free, name_is_free_for, changes_text, or_old}
use nis.Accounts
use nis.Accounts.{CreateDraws}

pub record CreateRequest : Type 0 where
  pub name : String
  pub description : String

pub record UpdateRequest : Type 0 where
  pub name : Option String
  pub description : Option String

-- The draws of `CreateOperator`: for the operator, for its system account and for the system user.
pub record Draws : Type 0 where
  pub operator : Draw
  pub account : CreateDraws
  pub user : Draw

-- The flag `updated` of `UpdateOperator`.
unfoldable pub is_changed : UpdateRequest → Operator → Bool
is_changed req operator =
    changes_text req.name operator.name || changes_text req.description operator.description

unfoldable pub apply_update : UpdateRequest → Time → Operator → Operator
apply_update req now operator = record operator {
  name = or_old req.name operator.name;
  description = or_old req.description operator.description;
  updated_at = now;
}

abbrev pub up_to_10000 : ListOptions
up_to_10000 = record { limit = 10000; offset = 0 }

-- The request for the system account; Go leaves the other fields at their zero values.
unfoldable pub system_account_request : Uuid → Accounts.CreateRequest
system_account_request operator_id = record {
  operator_id = operator_id;
  name = "$SYS";
  description = "System account for operator management and syncing";
  jet_stream_enabled = false;
  jet_stream_max_memory = pos 0;
  jet_stream_max_storage = pos 0;
  jet_stream_max_streams = pos 0;
  jet_stream_max_consumers = pos 0;
}

-- `key != "" && key[0] != 'A'`
unfoldable pub is_bad_account_key : Bytes → Bool
is_bad_account_key [] = false
is_bad_account_key (c ∷ key) = not (c == b'A')

-- The first account with the public key.
unfoldable pub find_by_key : String → List Account → Option Account
find_by_key key [] = none
find_by_key key (a ∷ accounts) =
    if str_eq a.public_key key then some a else find_by_key key accounts

module _ {S KeyPair : Type 0} (d : Deps S KeyPair) (now : Time) where
  -- The operator entity before it is signed.
  unfoldable pub draft_operator : CreateRequest → Uuid → String → String → Operator
  draft_operator req id encrypted_seed public_key = record {
    id = id;
    name = req.name;
    description = req.description;
    encrypted_seed = encrypted_seed;
    public_key = public_key;
    jwt = "";
    system_account_pub_key = "";
    created_at = now;
    updated_at = now;
  }

  -- The checks of `CreateOperator`, and the operator that it saves first.
  unfoldable pub new_operator : Draw → CreateRequest → S → Result Operator
  new_operator draw req s = do
    fail_if (str_eq req.name "") (message "operator name is required")
    name_is_free "failed to check existing operator" (d.operators.get_by_name req.name s)
    pair ← wrapped "failed to generate operator keys" draw.nkey
    encrypted_seed ← wrapped "failed to encrypt operator seed" (d.encryptor.encrypt pair.0)
    let operator = draft_operator req draw.id encrypted_seed pair.1
    jwt ←
        wrapped "failed to generate operator JWT"
          (generate_operator_jwt d.encryptor d.nkeys now operator)
    ok (record operator { jwt = jwt })

  unfoldable pub draft_system_user : Uuid → Uuid → String → String → User
  draft_system_user id account_id encrypted_seed public_key = record {
    id = id;
    account_id = account_id;
    name = "system";
    description = "System user for operator management";
    encrypted_seed = encrypted_seed;
    public_key = public_key;
    jwt = "";
    scoped_signing_key_id = none;
    created_at = now;
    updated_at = now;
  }

  -- The system user, signed by the system account.
  unfoldable pub new_system_user : Draw → Account → Result User
  new_system_user draw account = do
    pair ← wrapped "failed to generate system user keys" draw.nkey
    encrypted_seed ← wrapped "failed to encrypt system user seed" (d.encryptor.encrypt pair.0)
    let user = draft_system_user draw.id account.id encrypted_seed pair.1
    jwt ←
        wrapped "failed to generate system user JWT"
          (generate_user_jwt d.encryptor d.nkeys now user account none)
    ok (record user { jwt = jwt })

  -- The operator with its system account, signed again.
  unfoldable pub with_system_account : Operator → Account → Result Operator
  with_system_account operator account = do
    let operator' : Operator = record operator {
      system_account_pub_key = account.public_key;
      updated_at = now;
    }
    jwt ←
        wrapped "failed to regenerate operator JWT with system account"
          (generate_operator_jwt d.encryptor d.nkeys now operator')
    ok (record operator' { jwt = jwt })

  -- The end of `CreateOperator`, once its system user is saved.
  unfoldable pub link_system_account : Operator → Account → Exec S Operator
  link_system_account operator account s =
      on_ok (with_system_account operator account)
        (λ linked.
          then_do
            (wrapped_call "failed to update operator with system account"
              (d.operators.update linked))
            (λ _ s'. (ok linked, s')))
        s

  -- What follows the creation of the system account.
  unfoldable pub add_system_user : Draw → Operator → Account → Exec S Operator
  add_system_user draw operator account s =
      on_ok (new_system_user draw account)
        (λ user.
          then_do (wrapped_call "failed to create system user" (d.users.create user))
            (λ _. link_system_account operator account))
        s

  -- What follows the insertion of the operator. Nothing is rolled back on an error.
  unfoldable pub add_system_account : Draws → Operator → Exec S Operator
  add_system_account draws operator =
      then_do
        (wrapped_call "failed to create $SYS account"
          (Accounts.create_account d now draws.account (system_account_request operator.id)))
        (add_system_user draws.user operator)

  unfoldable pub create_operator : Draws → CreateRequest → Exec S Operator
  create_operator draws req s =
      on_ok (new_operator draws.operator req s)
        (λ operator.
          then_do (wrapped_call "failed to create operator" (d.operators.create operator))
            (λ _. add_system_account draws operator))
        s

  unfoldable pub check_new_name : Uuid → UpdateRequest → Operator → S → Result (Unit {0})
  check_new_name id req operator s =
      if changes_text req.name operator.name
      then name_is_free_for (λ existing. existing.id == id) "failed to check existing operator"
          (d.operators.get_by_name (or_old req.name operator.name) s)
      else ok tt

  unfoldable pub operator_to_update : Uuid → UpdateRequest → S → Result Operator
  operator_to_update id req s = do
    operator ← d.operators.get_by_id id s
    check_new_name id req operator s
    ok operator

  unfoldable pub signed_again : Operator → Result Operator
  signed_again operator = do
    jwt ←
        wrapped "failed to regenerate operator JWT"
          (generate_operator_jwt d.encryptor d.nkeys now operator)
    ok (record operator { jwt = jwt })

  unfoldable pub save_operator : Operator → Exec S Operator
  save_operator operator =
      then_do (wrapped_call "failed to update operator" (d.operators.update operator))
        (λ _ s. (ok operator, s))

  unfoldable pub update_operator : Uuid → UpdateRequest → Exec S Operator
  update_operator id req s =
      on_ok (operator_to_update id req s)
        (λ operator.
          if is_changed req operator
          then on_ok (signed_again (apply_update req now operator)) save_operator
          else (λ s'. (ok operator, s')))
        s

  -- Whether the stored token already names the account; `decode` is `jwt.DecodeOperatorClaims`.
  unfoldable pub names_account : Result OperatorClaims → String → Bool
  names_account (ok claims) key = str_eq claims.system_account key
  names_account (err e) key = false

  -- The operator that `SetSystemAccount` saves. A token that already names the account is kept.
  unfoldable pub with_system_key :
      (String → Result OperatorClaims) → Uuid → String → S → Result Operator
  with_system_key decode id key s = do
    operator ← d.operators.get_by_id id s
    fail_if (is_bad_account_key (codes key))
        (message "invalid system account public key: must start with 'A'")
    let operator' : Operator = record operator { system_account_pub_key = key; updated_at = now }
    if names_account (decode operator.jwt) key then ok operator' else signed_again operator'

  unfoldable pub set_system_account :
      (String → Result OperatorClaims) → Uuid → String → Exec S Operator
  set_system_account decode id key s = on_ok (with_system_key decode id key s) save_operator s

  unfoldable pub delete_users : List User → Exec S (Unit {0})
  delete_users [] s = (ok tt, s)
  delete_users (u ∷ users) s =
      then_do (wrapped_call "failed to delete user" (d.users.delete u.id)) (λ _. delete_users users)
        s

  -- One turn of the loop over the accounts.
  unfoldable pub delete_with_users : Account → Exec S (Unit {0})
  delete_with_users a s =
      on_ok
        (wrapped "failed to list users for account" (d.users.list_by_account a.id up_to_10000 s))
        (λ users.
          then_do (delete_users users)
            (λ _. wrapped_call "failed to delete account" (d.accounts.delete a.id)))
        s

  unfoldable pub delete_accounts : List Account → Exec S (Unit {0})
  delete_accounts [] s = (ok tt, s)
  delete_accounts (a ∷ accounts) s = then_do (delete_with_users a) (λ _. delete_accounts accounts) s

  -- The accounts that `DeleteOperator` is about to delete.
  unfoldable pub accounts_to_delete : Uuid → S → Result (List Account)
  accounts_to_delete id s = do
    d.operators.get_by_id id s
    wrapped "failed to list accounts for deletion" (d.accounts.list_by_operator id up_to_10000 s)

  unfoldable pub delete_operator : Uuid → Exec S (Unit {0})
  delete_operator id s =
      on_ok (accounts_to_delete id s)
        (λ accounts. then_do (delete_accounts accounts) (λ _. d.operators.delete id)) s

  -- The configuration for a server. Texts are lists of bytes here.
  unfoldable pub include_text : Operator → Account → Bytes
  include_text operator account =
      codes "# NATS Server Configuration with JWT Authentication\n# Generated by NIS for operator: "
      ++ (codes operator.name
          ++ (codes "\n\n# Operator JWT\noperator: "
              ++ (codes operator.jwt
                  ++ (codes
                        "\n\n# File resolver - supports dynamic updates via $SYS.REQ.CLAIMS.UPDATE\nresolver: {\n    type: full\n    dir: '/resolver'\n    allow_delete: true\n    interval: \"2m\"\n}\n\n# Preload system account ("
                      ++ (codes account.name
                          ++ (codes ")\nresolver_preload: {\n    "
                              ++ (codes operator.system_account_pub_key
                                  ++ (codes ": "
                                      ++ (codes account.jwt
                                          ++ codes
                                              "\n}\n\n# JetStream configuration\njetstream: {\n    store_dir: /data/jetstream\n}\n")))))))))

  unfoldable pub system_account_of : Operator → S → Result Account
  system_account_of operator s = do
    accounts ←
        wrapped "failed to list accounts" (d.accounts.list_by_operator operator.id up_to_1000 s)
    elim (find_by_key operator.system_account_pub_key accounts) [
      | none ↦ err (message "system account not found with public key: ")
      | some account ↦ ok account
    ]

  unfoldable pub generate_include : Uuid → S → Result Bytes
  generate_include id s = do
    operator ← d.operators.get_by_id id s
    fail_if (str_eq operator.system_account_pub_key "")
        (message "operator does not have a system account configured")
    account ← system_account_of operator s
    ok (include_text operator account)
