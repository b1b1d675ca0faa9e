-- ===== src/Tests/Owners.antt =====
-- The operators on a small database.
use nis.Prelude.{String, ◌≡◌, refl, List, All}
use nis.Exec.{Result, not_found, message, ok, err}
use nis.Entities.{Operator, Account}
use nis.Jwt.{
  OperatorClaims, operator_claims, generate_operator_jwt, generate_user_jwt, generate_account_jwt,
  key_pair_of, user_claims, account_claims, add_scoped_keys, add_scoped_signer, scope_of,
  jet_stream_of,
}
use nis.Accounts
use nis.Operators
use nis.Operators.Created.{IsCreated, create_operator-IsCreated}
use nis.Operators.Cascade.{CascadeLaws, delete_operator-empties}
use nis.Tests.Table.{find-delete_row, find-missing}
use nis.Tests.World.{world, deps, deps-DeleteLaws, acme, draw}

abbrev request : Operators.CreateRequest
request = record { name = "globex"; description = "" }

abbrev draws : Operators.Draws
draws = record {
  operator = draw 2 "OGLOBEX";
  account = record { account = draw 40 "AGLOBEX"; default_key = draw 41 "AKGLOBEX" };
  user = draw 42 "UGLOBEX";
}

abbrev globex : Operator
globex = record {
  id = 2;
  name = "globex";
  description = "";
  encrypted_seed = "xx";
  public_key = "OGLOBEX";
  jwt = "operator:OGLOBEX";
  system_account_pub_key = "AGLOBEX";
  created_at = 5;
  updated_at = 5;
}

creates : (Operators.create_operator deps 5 draws request world).0 ≡ ok globex
unfolding Operators.create_operator Operators.new_operator generate_operator_jwt key_pair_of
    Operators.draft_operator Operators.add_system_account Accounts.create_account
    Accounts.new_account Accounts.check_create Operators.system_account_request
    Accounts.sign_new_account Accounts.build_default_scoped_signing_key generate_account_jwt
    Accounts.save_account Accounts.draft_account Accounts.after_key Operators.add_system_user
    Operators.new_system_user account_claims add_scoped_keys add_scoped_signer generate_user_jwt
    jet_stream_of operator_claims scope_of user_claims Operators.draft_system_user
    Operators.link_system_account Operators.with_system_account
creates = refl

create_operator-IsCreated_example : IsCreated deps 5 draws request world globex
create_operator-IsCreated_example =
    create_operator-IsCreated deps 5 draws request world globex creates

deps-CascadeLaws : CascadeLaws deps
deps-CascadeLaws = record {
  get-delete = λ id s h. find-delete_row (λ o. o.id) id s.operators h;
  after-user = λ id j s h. h;
  after-account = λ id j s h. find-missing (λ a. a.id) j id s.accounts h;
  after-operator = λ id j s h. h;
}

deletes : (Operators.delete_operator deps 5 1 world).0 ≡ ok tt
unfolding Operators.delete_operator Operators.accounts_to_delete Operators.delete_accounts
    Operators.delete_with_users Operators.delete_users
deletes = refl

delete_operator-empties_example :
    (accounts : List Account) × (deps.accounts.list_by_operator 1 Operators.up_to_10000 world
      ≡ ok accounts)
    × (deps.operators.get_by_id 1 (Operators.delete_operator deps 5 1 world).1 ≡ err not_found)
    × All
        (λ a.
          deps.accounts.get_by_id a.id (Operators.delete_operator deps 5 1 world).1 ≡ err not_found)
        accounts
delete_operator-empties_example =
    delete_operator-empties deps 5 deps-DeleteLaws deps-CascadeLaws 1 world deletes

-- No token can be read.
abbrev decode : String → Result OperatorClaims
decode token = err (message "invalid token")

abbrev linked : Operator
linked = record acme { system_account_pub_key = "AORD"; jwt = "operator:OACME"; updated_at = 5 }
