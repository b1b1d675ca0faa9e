-- ===== src/Tests/Keys.antt =====
-- The scoped signing keys and the accounts on a small database.
use nis.Prelude.{◌≡◌, ◌≢◌, refl, ◌⊎◌, true, false, none, some, [], ◌∷◌}
use nis.Exec.{message, ok, err}
use nis.Entities.{pos, negsuc, Account, ScopedSigningKey}
use nis.Jwt.{generate_account_jwt, key_pair_of, account_claims, add_scoped_keys, add_scoped_signer}
use nis.ScopedKeys
use nis.ScopedKeys.Updates
use nis.ScopedKeys.Fresh.{IsFresh, create-IsFresh, delete-IsFresh, update_key-IsFresh}
use nis.Accounts
use nis.Accounts.Fresh.{IsApplied, limits-IsFresh, update_account-IsFresh}
use nis.Accounts.Create.{IsCreated, create_account-IsCreated, delete_account-guards}
use nis.Tests.World.{World, world, deps, deps_laws, acme, account_of, key_of, draw}

abbrev orders : Account
orders = account_of 10 "orders" "AORD"

abbrev request : ScopedKeys.CreateRequest
request = record {
  account_id = 10;
  name = "writer";
  description = "";
  pub_allow = "orders.>" ∷ [];
  pub_deny = [];
  sub_allow = [];
  sub_deny = [];
  response_max_msgs = pos 0;
  response_ttl = pos 0;
}

abbrev created : ScopedSigningKey
created = record {
  id = 22;
  account_id = 10;
  name = "writer";
  description = "";
  encrypted_seed = "xx";
  public_key = "AKWRITE";
  pub_allow = "orders.>" ∷ [];
  pub_deny = [];
  sub_allow = [];
  sub_deny = [];
  response_max_msgs = pos 0;
  response_ttl = pos 0;
  created_at = 5;
  updated_at = 5;
}

creates :
    (ScopedKeys.create_scoped_signing_key deps 5 (draw 22 "AKWRITE") request world).0 ≡ ok created
unfolding ScopedKeys.create_scoped_signing_key ScopedKeys.new_key ScopedKeys.sign_or_roll_back
    ScopedKeys.after_signing ScopedKeys.regenerate_account_jwt ScopedKeys.resigned_account
    generate_account_jwt key_pair_of
creates = refl

create-IsFresh_example :
    IsFresh deps
      (ScopedKeys.create_scoped_signing_key deps 5 (draw 22 "AKWRITE") request world).1
      10
create-IsFresh_example =
    create-IsFresh deps deps_laws 5 (draw 22 "AKWRITE") request world created creates

deletes : (ScopedKeys.delete_scoped_signing_key deps 5 21 world).0 ≡ ok tt
unfolding ScopedKeys.delete_scoped_signing_key ScopedKeys.regenerate_account_jwt
    ScopedKeys.resigned_account generate_account_jwt key_pair_of
deletes = refl

delete-IsFresh_example : IsFresh deps (ScopedKeys.delete_scoped_signing_key deps 5 21 world).1 10
delete-IsFresh_example =
    delete-IsFresh deps deps_laws 5 21 world (key_of 21 "reader" "AKREAD") refl deletes

-- The deleted key is gone from the token.
deleted_jwt :
    deps.accounts.get_by_id 10 (ScopedKeys.delete_scoped_signing_key deps 5 21 world).1
    ≡ ok (record orders { jwt = "AORD:orders,AKDEF"; updated_at = 5 })
unfolding ScopedKeys.delete_scoped_signing_key ScopedKeys.regenerate_account_jwt
    ScopedKeys.resigned_account generate_account_jwt key_pair_of account_claims add_scoped_keys
    add_scoped_signer
deleted_jwt = refl

abbrev rename : ScopedKeys.UpdateRequest
rename = record {
  name = some "viewer";
  description = none;
  pub_allow = none;
  pub_deny = none;
  sub_allow = none;
  sub_deny = none;
  response_max_msgs = none;
  response_ttl = none;
}

abbrev reader : ScopedSigningKey
reader = key_of 21 "reader" "AKREAD"

abbrev viewer : ScopedSigningKey
viewer = record reader { name = "viewer"; updated_at = 5 }

renames : (ScopedKeys.update_scoped_signing_key deps 5 21 rename world).0 ≡ ok viewer
unfolding ScopedKeys.update_scoped_signing_key ScopedKeys.key_to_update ScopedKeys.check_new_name
    ScopedKeys.is_changed ScopedKeys.save_update ScopedKeys.apply_update
    ScopedKeys.regenerate_account_jwt ScopedKeys.resigned_account generate_account_jwt key_pair_of
renames = refl

update_key-IsFresh_example :
    Updates.IsApplied rename reader viewer
    × (((ScopedKeys.is_changed rename reader ≡ true)
          × ((deps.scoped_keys.update viewer world).0 ≡ ok tt)
          × IsFresh deps (ScopedKeys.update_scoped_signing_key deps 5 21 rename world).1 10)
        ⊎ ((ScopedKeys.is_changed rename reader ≡ false)
            × (viewer ≡ reader)
            × ((ScopedKeys.update_scoped_signing_key deps 5 21 rename world).1 ≡ world)))
update_key-IsFresh_example =
    update_key-IsFresh deps deps_laws 5 21 rename world reader viewer refl renames

abbrev limits : Accounts.LimitsRequest
limits = record {
  enabled = true;
  max_memory = pos 1024;
  max_storage = pos 4096;
  max_streams = pos 3;
  max_consumers = negsuc 0;
}

abbrev limited : Account
limited = record orders {
  jwt = "AORD:orders,AKDEF,AKREAD";
  jet_stream_enabled = true;
  jet_stream_max_memory = pos 1024;
  jet_stream_max_storage = pos 4096;
  jet_stream_max_streams = pos 3;
  updated_at = 5;
}

limits_set : (Accounts.update_jet_stream_limits deps 5 10 limits world).0 ≡ ok limited
unfolding Accounts.update_jet_stream_limits Accounts.save_signed Accounts.signed_again
    Accounts.apply_limits generate_account_jwt key_pair_of account_claims add_scoped_keys
    add_scoped_signer
limits_set = refl

limits-IsFresh_example :
    IsFresh deps (Accounts.update_jet_stream_limits deps 5 10 limits world).1 10
limits-IsFresh_example = limits-IsFresh deps deps_laws 5 10 limits world limited limits_set

abbrev new_name : Accounts.UpdateRequest
new_name = record { name = some "sales"; description = none }

abbrev renamed : Account
renamed = record orders { name = "sales"; jwt = "AORD:sales,AKDEF,AKREAD"; updated_at = 5 }

account_renames : (Accounts.update_account deps 5 10 new_name world).0 ≡ ok renamed
unfolding Accounts.update_account Accounts.account_to_update Accounts.check_new_name
    Accounts.is_changed Accounts.save_signed Accounts.signed_again Accounts.apply_update
    generate_account_jwt key_pair_of account_claims add_scoped_keys add_scoped_signer
account_renames = refl

update_account-IsFresh_example :
    IsApplied new_name orders renamed
    × (((Accounts.is_changed new_name orders ≡ true)
          × ((deps.accounts.update renamed world).0 ≡ ok tt)
          × IsFresh deps (Accounts.update_account deps 5 10 new_name world).1 10)
        ⊎ ((Accounts.is_changed new_name orders ≡ false)
            × (renamed ≡ orders)
            × ((Accounts.update_account deps 5 10 new_name world).1 ≡ world)))
update_account-IsFresh_example =
    update_account-IsFresh deps deps_laws 5 10 new_name world orders renamed refl account_renames

abbrev draws : Accounts.CreateDraws
draws = record { account = draw 11 "ABILL"; default_key = draw 23 "AKBILL" }

abbrev billing : Accounts.CreateRequest
billing = record {
  operator_id = 1;
  name = "billing";
  description = "";
  jet_stream_enabled = false;
  jet_stream_max_memory = pos 0;
  jet_stream_max_storage = pos 0;
  jet_stream_max_streams = pos 0;
  jet_stream_max_consumers = pos 0;
}

abbrev billing_account : Account
billing_account = record {
  id = 11;
  operator_id = 1;
  name = "billing";
  description = "";
  encrypted_seed = "xx";
  public_key = "ABILL";
  jwt = "ABILL:billing,AKBILL";
  jet_stream_enabled = false;
  jet_stream_max_memory = pos 0;
  jet_stream_max_storage = pos 0;
  jet_stream_max_streams = pos 0;
  jet_stream_max_consumers = pos 0;
  created_at = 5;
  updated_at = 5;
}

account_creates : (Accounts.create_account deps 5 draws billing world).0 ≡ ok billing_account
unfolding Accounts.create_account Accounts.new_account Accounts.check_create
    Accounts.sign_new_account Accounts.build_default_scoped_signing_key Accounts.save_account
    Accounts.draft_account Accounts.after_key generate_account_jwt key_pair_of account_claims
    add_scoped_keys add_scoped_signer
account_creates = refl

create_account-IsCreated_example : IsCreated deps 5 world billing billing_account
create_account-IsCreated_example =
    create_account-IsCreated deps 5 draws billing world billing_account account_creates

delete_account-guards_example :
    ((acme.system_account_pub_key ≡ "ASYS")
      × (Accounts.delete_account deps 5 9 world
          ≡ (err (message "cannot delete system account"), world)))
    ⊎ ((acme.system_account_pub_key ≢ "ASYS")
        × (Accounts.delete_account deps 5 9 world ≡ deps.accounts.delete 9 world))
delete_account-guards_example =
    delete_account-guards deps 5 9 world (account_of 9 "SYS" "ASYS") acme refl refl

abbrev failing : World
failing = record world { read_only = true }
