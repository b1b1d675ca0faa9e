-- ===== src/Tests/Members.antt =====
-- The NATS users on a small database.
use nis.Prelude.{
  ◌≢◌, List, [], ◌∷◌, Option, eq_iff, ◌≡◌, refl, ◌⊎◌, true, false, none, some, here, there,
}
use nis.Exec.{ok}
use nis.Entities.{Account, ScopedSigningKey, User}
use nis.Jwt.{generate_user_jwt, key_pair_of, user_claims, account_claims}
use nis.Jwt.Claims.{IsOnly, IsTrusted, user_claims-IsTrusted}
use nis.Users
use nis.Users.Issued.{IsIssued, IsCreated, create_user-IsCreated}
use nis.Users.Update.{IsApplied, update_user-IsIssued}
use nis.Tests.World.{world, deps, account_of, key_of, bob, draw}

abbrev orders : Account
orders = account_of 10 "orders" "AORD"

abbrev reader : ScopedSigningKey
reader = key_of 21 "reader" "AKREAD"

abbrev request : Users.CreateRequest
request = record {
  account_id = 10;
  name = "eve";
  description = "";
  scoped_signing_key_id = some 21;
}

abbrev eve : User
eve = record {
  id = 31;
  account_id = 10;
  name = "eve";
  description = "";
  encrypted_seed = "xx";
  public_key = "UEVE";
  jwt = "UEVEAORD";
  scoped_signing_key_id = some 21;
  created_at = 5;
  updated_at = 5;
}

creates : (Users.create_user deps 5 (draw 31 "UEVE") request world).0 ≡ ok eve
unfolding Users.create_user Users.new_user Users.check_create Users.own_signing_key
    Users.sign_new_user Users.draft_user generate_user_jwt key_pair_of user_claims
creates = refl

create_user-IsCreated_example : IsCreated deps 5 world request eve
create_user-IsCreated_example =
    create_user-IsCreated deps 5 (draw 31 "UEVE") request world eve creates

abbrev new_name : Users.UpdateRequest
new_name = record { name = some "robert"; description = none }

abbrev robert : User
robert = record bob { name = "robert"; jwt = "UBOBAORD"; updated_at = 5 }

renames : (Users.update_user deps 5 30 new_name world).0 ≡ ok robert
unfolding Users.update_user Users.user_to_update Users.check_new_name Users.is_changed
    Users.save_signed Users.signed_again Users.apply_update Users.signing_key generate_user_jwt
    key_pair_of user_claims
renames = refl

update_user-IsIssued_example :
    IsApplied new_name bob robert
    × (((Users.is_changed new_name bob ≡ true)
          × IsIssued deps 5 world robert
          × ((deps.users.update robert world).0 ≡ ok tt)
          × ((Users.update_user deps 5 30 new_name world).1 ≡ (deps.users.update robert world).1))
        ⊎ ((Users.is_changed new_name bob ≡ false)
            × (robert ≡ bob)
            × ((Users.update_user deps 5 30 new_name world).1 ≡ world)))
update_user-IsIssued_example = update_user-IsIssued deps 5 30 new_name world bob robert refl renames

-- A nil key, and the two keys of the small database, of which the second signs for Eve.
abbrev key_pointers : List (Option ScopedSigningKey)
key_pointers = none ∷ some (key_of 20 "default" "AKDEF") ∷ some reader ∷ []

other_key : (key_of 20 "default" "AKDEF").public_key ≢ reader.public_key
other_key e = cc ((eq_iff "AKDEF" "AKREAD").1 e)

reader-IsOnly : IsOnly reader key_pointers
reader-IsOnly other (there here) same = absurd (other_key same)
reader-IsOnly other (there (there here)) same = refl
reader-IsOnly other (there (there (there m))) same = elim m [ ]

user_claims-IsTrusted_example :
    IsTrusted (account_claims orders key_pointers) (user_claims eve orders (some reader)) reader
user_claims-IsTrusted_example =
    user_claims-IsTrusted eve orders reader key_pointers (there (there here)) reader-IsOnly
