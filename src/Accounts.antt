-- ===== src/Accounts.antt =====
-- internal/application/services/account_service.go. Error texts are shortened where Go formats
-- names into them; logging is left out.
pub mod Fresh
pub mod Create
use nis.Prelude.{
  String, Bool, true, false, ◌||◌, ◌==◌, Option, none, some, List, [], ◌∷◌, str_eq, if◌then◌else◌,
}
use nis.Exec.{
  Error, message, Result, ok, err, ◌>>=◌, ◌>>◌, wrapped, fail_if, Exec, on_ok, then_do,
  wrapped_call,
}
use nis.Entities.{ℤ, pos, Uuid, Time, Operator, Account, ScopedSigningKey}
use nis.Repositories.{ListOptions}
use nis.Jwt.{generate_account_jwt}
use nis.Services.{Deps, Draw, up_to_1000, name_is_free, name_is_free_for, changes_text, or_old}

pub record CreateRequest : Type 0 where
  pub operator_id : Uuid
  pub name : String
  pub description : String
  pub jet_stream_enabled : Bool
  pub jet_stream_max_memory : ℤ
  pub jet_stream_max_storage : ℤ
  pub jet_stream_max_streams : ℤ
  pub jet_stream_max_consumers : ℤ

pub record UpdateRequest : Type 0 where
  pub name : Option String
  pub description : Option String

pub record LimitsRequest : Type 0 where
  pub enabled : Bool
  pub max_memory : ℤ
  pub max_storage : ℤ
  pub max_streams : ℤ
  pub max_consumers : ℤ

-- The flag `updated` of `UpdateAccount`.
unfoldable pub is_changed : UpdateRequest → Account → Bool
is_changed req account =
    changes_text req.name account.name || changes_text req.description account.description

unfoldable pub apply_update : UpdateRequest → Account → Account
apply_update req account = record account {
  name = or_old req.name account.name;
  description = or_old req.description account.description;
}

unfoldable pub apply_limits : LimitsRequest → Account → Account
apply_limits req account = record account {
  jet_stream_enabled = req.enabled;
  jet_stream_max_memory = req.max_memory;
  jet_stream_max_storage = req.max_storage;
  jet_stream_max_streams = req.max_streams;
  jet_stream_max_consumers = req.max_consumers;
}

-- The draws of `CreateAccount`: for the account, and for its default scoped signing key.
pub record CreateDraws : Type 0 where
  pub account : Draw
  pub default_key : Draw

module _ {S KeyPair : Type 0} (d : Deps S KeyPair) (now : Time) where
  unfoldable pub build_default_scoped_signing_key : Draw → Uuid → Result ScopedSigningKey
  build_default_scoped_signing_key draw account_id = do
    pair ← wrapped "failed to generate scoped signing key" draw.nkey
    encrypted_seed ←
        wrapped "failed to encrypt scoped signing key seed" (d.encryptor.encrypt pair.0)
    ok (record {
      id = draw.id;
      account_id = account_id;
      name = "default";
      description = "Default scoped signing key with unlimited account permissions";
      encrypted_seed = encrypted_seed;
      public_key = pair.1;
      pub_allow = [];
      pub_deny = [];
      sub_allow = [];
      sub_deny = [];
      response_max_msgs = pos 0;
      response_ttl = pos 0;
      created_at = now;
      updated_at = now;
    })

  -- The account entity before it is signed.
  unfoldable pub draft_account : CreateRequest → Uuid → String → String → Account
  draft_account req id encrypted_seed public_key = record {
    id = id;
    operator_id = req.operator_id;
    name = req.name;
    description = req.description;
    encrypted_seed = encrypted_seed;
    public_key = public_key;
    jwt = "";
    jet_stream_enabled = req.jet_stream_enabled;
    jet_stream_max_memory = req.jet_stream_max_memory;
    jet_stream_max_storage = req.jet_stream_max_storage;
    jet_stream_max_streams = req.jet_stream_max_streams;
    jet_stream_max_consumers = req.jet_stream_max_consumers;
    created_at = now;
    updated_at = now;
  }

  -- The checks of `CreateAccount`, which find the operator.
  unfoldable pub check_create : CreateRequest → S → Result Operator
  check_create req s = do
    fail_if (str_eq req.name "") (message "account name is required")
    operator ← wrapped "failed to get operator" (d.operators.get_by_id req.operator_id s)
    name_is_free "failed to check existing account"
        (d.accounts.get_by_name req.operator_id req.name s)
    ok operator

  -- The account and the default key that it is about to save, the account signed.
  unfoldable pub sign_new_account :
      CreateDraws → CreateRequest → Operator → Result (Account × ScopedSigningKey)
  sign_new_account draws req operator = do
    pair ← wrapped "failed to generate account keys" draws.account.nkey
    encrypted_seed ← wrapped "failed to encrypt account seed" (d.encryptor.encrypt pair.0)
    default_key ← build_default_scoped_signing_key draws.default_key draws.account.id
    let account = draft_account req draws.account.id encrypted_seed pair.1
    jwt ←
        wrapped "failed to generate account JWT"
          (generate_account_jwt d.encryptor d.nkeys now account operator (default_key ∷ []))
    ok (record account { jwt = jwt }, default_key)

  unfoldable pub new_account : CreateDraws → CreateRequest → S → Result (Account × ScopedSigningKey)
  new_account draws req s = check_create req s >>= sign_new_account draws req

  -- After the default key's insertion: on an error the account is deleted again, and an error of
  -- that deletion is only logged.
  unfoldable pub after_key : Account → Result (Unit {0}) → Exec S Account
  after_key account (ok _) s = (ok account, s)
  after_key account (err e) s = (err e, (d.accounts.delete account.id s).1)

  -- The account goes first, for the key's foreign key.
  unfoldable pub save_account : Account → ScopedSigningKey → Exec S Account
  save_account account default_key =
      then_do (wrapped_call "failed to create account" (d.accounts.create account)) λ _ s.
        let (r, s') =
          wrapped_call "failed to create default scoped signing key for account"
            (d.scoped_keys.create default_key) s in
        after_key account r s'

  unfoldable pub create_account : CreateDraws → CreateRequest → Exec S Account
  create_account draws req s = on_ok (new_account draws req s) (λ new. save_account new.0 new.1) s

  -- The account with its JWT signed over the stored scoped keys, as both updates end.
  unfoldable pub signed_again : Account → S → Result Account
  signed_again account s = do
    operator ← wrapped "failed to get operator" (d.operators.get_by_id account.operator_id s)
    scoped_keys ←
        wrapped "failed to list scoped signing keys"
          (d.scoped_keys.list_by_account account.id up_to_1000 s)
    jwt ←
        wrapped "failed to regenerate account JWT"
          (generate_account_jwt d.encryptor d.nkeys now account operator scoped_keys)
    ok (record account { jwt = jwt; updated_at = now })

  unfoldable pub save_signed : Account → Exec S Account
  save_signed account s =
      on_ok (signed_again account s)
        (λ signed.
          then_do (wrapped_call "failed to update account" (d.accounts.update signed))
            (λ _ s'. (ok signed, s')))
        s

  unfoldable pub check_new_name : Uuid → UpdateRequest → Account → S → Result (Unit {0})
  check_new_name id req account s =
      if changes_text req.name account.name
      then name_is_free_for (λ existing. existing.id == id) "failed to check existing account"
          (d.accounts.get_by_name account.operator_id (or_old req.name account.name) s)
      else ok tt

  unfoldable pub account_to_update : Uuid → UpdateRequest → S → Result Account
  account_to_update id req s = do
    account ← d.accounts.get_by_id id s
    check_new_name id req account s
    ok account

  unfoldable pub update_account : Uuid → UpdateRequest → Exec S Account
  update_account id req s =
      on_ok (account_to_update id req s)
        (λ account.
          if is_changed req account
          then save_signed (apply_update req account)
          else (λ s'. (ok account, s')))
        s

  unfoldable pub update_jet_stream_limits : Uuid → LimitsRequest → Exec S Account
  update_jet_stream_limits id req s =
      on_ok (d.accounts.get_by_id id s) (λ account. save_signed (apply_limits req account)) s

  -- The checks of `DeleteAccount`.
  unfoldable pub may_delete : Uuid → S → Result (Unit {0})
  may_delete id s = do
    account ← d.accounts.get_by_id id s
    operator ← wrapped "failed to get operator" (d.operators.get_by_id account.operator_id s)
    fail_if (str_eq operator.system_account_pub_key account.public_key)
        (message "cannot delete system account")

  unfoldable pub delete_account : Uuid → Exec S (Unit {0})
  delete_account id s = on_ok (may_delete id s) (λ _. d.accounts.delete id) s
