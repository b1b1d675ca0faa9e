-- ===== src/ScopedKeys.antt =====
-- internal/application/services/scoped_signing_key_service.go. Every method that changes a scoped
-- key signs the account's JWT again. Error texts are those of the source; logging is left out.
pub mod Fresh
pub mod Updates
use nis.Prelude.{
  ℕ, String, Bool, true, false, not, ◌||◌, ◌==◌, Option, none, some, List, str_eq, if◌then◌else◌,
}
use nis.Exec.{
  Error, message, wrap, Result, ok, err, ◌>>=◌, ◌>>◌, wrapped, fail_if, Exec, on_ok, then_do,
  wrapped_call,
}
use nis.Entities.{ℤ, Uuid, Time, Operator, Account, ScopedSigningKey}
use nis.Repositories.{ListOptions}
use nis.Jwt.{generate_account_jwt}
use nis.Services.{
  Deps, Draw, up_to_1000, name_is_free, name_is_free_for, changes_text, or_old, is_given,
}

pub record CreateRequest : Type 0 where
  pub account_id : Uuid
  pub name : String
  pub description : String
  pub pub_allow : List String
  pub pub_deny : List String
  pub sub_allow : List String
  pub sub_deny : List String
  pub response_max_msgs : ℤ
  pub response_ttl : ℤ

pub record UpdateRequest : Type 0 where
  pub name : Option String
  pub description : Option String
  pub pub_allow : Option (List String)
  pub pub_deny : Option (List String)
  pub sub_allow : Option (List String)
  pub sub_deny : Option (List String)
  pub response_max_msgs : Option ℤ
  pub response_ttl : Option ℤ

ℤ_eq : ℤ → ℤ → Bool
ℤ_eq (ℤ.pos a) (ℤ.pos b) = a == b
ℤ_eq (ℤ.negsuc a) (ℤ.negsuc b) = a == b
ℤ_eq _ _ = false

changes_int : Option ℤ → ℤ → Bool
unfolding ℤ_eq
changes_int none old = false
changes_int (some new) old = not (ℤ_eq new old)

-- The flag `updated` after all fields of the request.
unfoldable pub is_changed : UpdateRequest → ScopedSigningKey → Bool
unfolding changes_int
is_changed req key =
    changes_text req.name key.name
    || (changes_text req.description key.description
        || (is_given req.pub_allow
            || (is_given req.pub_deny
                || (is_given req.sub_allow
                    || (is_given req.sub_deny
                        || (changes_int req.response_max_msgs key.response_max_msgs
                            || changes_int req.response_ttl key.response_ttl))))))

unfoldable pub apply_update : UpdateRequest → Time → ScopedSigningKey → ScopedSigningKey
apply_update req now key = record key {
  name = or_old req.name key.name;
  description = or_old req.description key.description;
  pub_allow = or_old req.pub_allow key.pub_allow;
  pub_deny = or_old req.pub_deny key.pub_deny;
  sub_allow = or_old req.sub_allow key.sub_allow;
  sub_deny = or_old req.sub_deny key.sub_deny;
  response_max_msgs = or_old req.response_max_msgs key.response_max_msgs;
  response_ttl = or_old req.response_ttl key.response_ttl;
  updated_at = now;
}

module _ {S KeyPair : Type 0} (d : Deps S KeyPair) (now : Time) where
  -- The account as `regenerateAccountJWT` is about to write it.
  unfoldable pub resigned_account : Uuid → S → Result Account
  resigned_account account_id s = do
    account ← wrapped "failed to get account" (d.accounts.get_by_id account_id s)
    operator ← wrapped "failed to get operator" (d.operators.get_by_id account.operator_id s)
    scoped_keys ←
        wrapped "failed to list scoped signing keys"
          (d.scoped_keys.list_by_account account_id up_to_1000 s)
    jwt ←
        wrapped "failed to regenerate account JWT"
          (generate_account_jwt d.encryptor d.nkeys now account operator scoped_keys)
    ok (record account { jwt = jwt; updated_at = now })

  unfoldable pub regenerate_account_jwt : Uuid → Exec S (Unit {0})
  regenerate_account_jwt account_id s =
      on_ok (resigned_account account_id s)
        (λ account.
          wrapped_call "failed to persist regenerated account JWT" (d.accounts.update account))
        s

  -- The checks of `CreateScopedSigningKey`, and the key that it is about to save.
  unfoldable pub new_key : Draw → CreateRequest → S → Result ScopedSigningKey
  new_key draw req s = do
    fail_if (str_eq req.name "") (message "scoped signing key name is required")
    wrapped "failed to get account" (d.accounts.get_by_id req.account_id s)
    name_is_free "failed to check existing scoped signing key"
        (d.scoped_keys.get_by_name req.account_id req.name s)
    pair ← wrapped "failed to generate scoped signing key" draw.nkey
    encrypted_seed ←
        wrapped "failed to encrypt scoped signing key seed" (d.encryptor.encrypt pair.0)
    ok (record {
      id = draw.id;
      account_id = req.account_id;
      name = req.name;
      description = req.description;
      encrypted_seed = encrypted_seed;
      public_key = pair.1;
      pub_allow = req.pub_allow;
      pub_deny = req.pub_deny;
      sub_allow = req.sub_allow;
      sub_deny = req.sub_deny;
      response_max_msgs = req.response_max_msgs;
      response_ttl = req.response_ttl;
      created_at = now;
      updated_at = now;
    })

  -- On an error of the signing the key that was just created is deleted; an error of that deletion
  -- is only logged.
  unfoldable pub after_signing : ScopedSigningKey → Result (Unit {0}) → Exec S ScopedSigningKey
  after_signing key (ok _) s = (ok key, s)
  after_signing key (err e) s = (err e, (d.scoped_keys.delete key.id s).1)

  unfoldable pub sign_or_roll_back : ScopedSigningKey → Exec S ScopedSigningKey
  sign_or_roll_back key s =
      let (r, s') = regenerate_account_jwt key.account_id s in after_signing key r s'

  unfoldable pub create_scoped_signing_key : Draw → CreateRequest → Exec S ScopedSigningKey
  create_scoped_signing_key draw req s =
      on_ok (new_key draw req s)
        (λ key.
          then_do (wrapped_call "failed to create scoped signing key" (d.scoped_keys.create key))
            (λ _. sign_or_roll_back key))
        s

  -- The name check of `UpdateScopedSigningKey`.
  unfoldable pub check_new_name : Uuid → UpdateRequest → ScopedSigningKey → S → Result (Unit {0})
  check_new_name id req key s =
      if changes_text req.name key.name
      then name_is_free_for (λ existing. existing.id == id)
          "failed to check existing scoped signing key"
          (d.scoped_keys.get_by_name key.account_id (or_old req.name key.name) s)
      else ok tt

  -- The key that an update starts from, its new name checked.
  unfoldable pub key_to_update : Uuid → UpdateRequest → S → Result ScopedSigningKey
  key_to_update id req s = do
    key ← d.scoped_keys.get_by_id id s
    check_new_name id req key s
    ok key

  unfoldable pub save_update : UpdateRequest → ScopedSigningKey → Exec S ScopedSigningKey
  save_update req key =
      let key' = apply_update req now key in
      then_do (wrapped_call "failed to update scoped signing key" (d.scoped_keys.update key'))
        (λ _. then_do (regenerate_account_jwt key'.account_id) (λ _ s. (ok key', s)))

  unfoldable pub update_scoped_signing_key : Uuid → UpdateRequest → Exec S ScopedSigningKey
  update_scoped_signing_key id req s =
      on_ok (key_to_update id req s)
        (λ key. if is_changed req key then save_update req key else (λ s'. (ok key, s'))) s

  unfoldable pub delete_scoped_signing_key : Uuid → Exec S (Unit {0})
  delete_scoped_signing_key id s =
      on_ok (d.scoped_keys.get_by_id id s)
        (λ existing.
          then_do (d.scoped_keys.delete id) (λ _. regenerate_account_jwt existing.account_id))
        s
