-- ===== src/Tests/Moves.antt =====
-- An operator moved from one database to an empty one.
use nis.Prelude.{ℕ, Bool-cases, inl, inr, ◌≡◌, refl, true, false, none, some, Bool, map, [], ◌∷◌}
use nis.Exec.{ok}
use nis.Entities.{Account, Uuid, Cluster, ScopedSigningKey}
use nis.Storage.{stored_account}
use nis.Transfer
use nis.Transfer.{ExportedOperator}
use nis.Transfer.Import
use nis.Transfer.Extends.{CreateLaws, Extends}
use nis.Transfer.Secrets.{IsRedacted, export_operator-IsRedacted}
use nis.Transfer.Restored.{IsRestored, export_import-IsRestored}
use nis.Tests.Table.{find-insert_row, find-kept}
use nis.Tests.World.{World, world, deps, cluster_table, acme, bob}

abbrev main : Cluster
main = record {
  id = 70;
  name = "main";
  description = "";
  server_urls = "nats://a:4222" ∷ [];
  operator_id = 1;
  system_account_pub_key = "ASYS";
  encrypted_creds = "sealed";
  skip_verify_tls = true;
  healthy = true;
  last_health_check = none;
  health_check_error = "";
  created_at = 0;
  updated_at = 0;
}

abbrev source : World
source = record world { clusters = main ∷ [] }

abbrev target : World
target = record {
  operators = [];
  accounts = [];
  scoped_keys = [];
  users = [];
  clusters = [];
  resolver = [];
  read_only = false;
}

abbrev fresh : ℕ → Uuid
fresh n = n

key-create :
    (k : ScopedSigningKey) (s : World)
    → (deps.scoped_keys.create k s).0 ≡ ok tt
    → deps.scoped_keys.get_by_id k.id (deps.scoped_keys.create k s).1 ≡ ok k
key-create k s h = elim (Bool-cases s.read_only) [
  | inl e ↦ absurd (cc (rw e at h))
  | inr e ↦ rw e (find-insert_row (λ k. k.id) k s.scoped_keys (rw e at h))
]

key-Extends :
    (k : ScopedSigningKey) (s : World)
    → (deps.scoped_keys.create k s).0 ≡ ok tt
    → Extends deps cluster_table s (deps.scoped_keys.create k s).1
key-Extends k s h = elim (Bool-cases s.read_only) [
  | inl e ↦ absurd (cc (rw e at h))
  | inr e ↦ rw e (record {
    account_kept = λ id a q. q;
    key_kept = λ id x q. find-kept (λ k. k.id) k id x s.scoped_keys q;
    user_kept = λ id a q. q;
    cluster_kept = λ id a q. q;
  })
]

account-create :
    (a : Account) (s : World)
    → (deps.accounts.create a s).0 ≡ ok tt
    → deps.accounts.get_by_id a.id (deps.accounts.create a s).1 ≡ ok (stored_account a)
account-create a s h = find-insert_row (λ a. a.id) (stored_account a) s.accounts h

create_laws : CreateLaws deps cluster_table
create_laws = record {
  account-create = λ a s h. (a.created_at, a.updated_at, account-create a s h);
  scoped_key-create =
      λ k s h. (k.response_ttl, k.created_at, k.updated_at, λ _. refl, key-create k s h);
  user-create = λ u s h. (u.created_at, u.updated_at, find-insert_row (λ u. u.id) u s.users h);
  cluster-create =
      λ c s h. (c.created_at, c.updated_at, find-insert_row (λ c. c.id) c s.clusters h);
  accounts-Extends = λ x s h. record {
    account_kept = λ id a e. find-kept (λ a. a.id) (stored_account x) id a s.accounts e;
    key_kept = λ id a e. e;
    user_kept = λ id a e. e;
    cluster_kept = λ id a e. e;
  };
  scoped_keys-Extends = key-Extends;
  users-Extends = λ x s h. record {
    account_kept = λ id a e. e;
    key_kept = λ id a e. e;
    user_kept = λ id u e. find-kept (λ u. u.id) x id u s.users e;
    cluster_kept = λ id a e. e;
  };
  clusters-Extends = λ x s h. record {
    account_kept = λ id a e. e;
    key_kept = λ id a e. e;
    user_kept = λ id a e. e;
    cluster_kept = λ id c e. find-kept (λ c. c.id) x id c s.clusters e;
  };
}

-- The export of all that the source holds, with or without its secrets.
abbrev exported_with : Bool → ExportedOperator
exported_with secrets = record {
  version = "1.0";
  exported_at = 5;
  operator = some (Transfer.export_operator_data secrets acme);
  accounts = map (Transfer.export_account secrets) source.accounts;
  scoped_keys = map (Transfer.export_scoped_key secrets) source.scoped_keys;
  users = Transfer.export_user secrets bob ∷ [];
  clusters = Transfer.export_cluster secrets main ∷ [];
}

exports :
    (secrets : Bool)
    → Transfer.export_operator deps cluster_table 5 1 secrets source ≡ ok (exported_with secrets)
unfolding Transfer.export_operator Transfer.export_accounts
exports secrets = refl

export_operator-IsRedacted_example : IsRedacted (exported_with false)
export_operator-IsRedacted_example =
    export_operator-IsRedacted deps cluster_table 5 1 source (exported_with false) (exports false)

imports :
    (Import.import_operator deps cluster_table 6 fresh false (exported_with true) target).0 ≡ ok tt
unfolding Import.import_operator Import.operator_to_import Import.import_data Import.import_parts
    Import.for_each Import.import_account Import.saving Import.imported_account Import.renew
    Import.import_scoped_key Import.imported_key Import.import_user Import.imported_user
    Import.import_cluster Import.imported_cluster Transfer.export_operator_data
    Transfer.export_account Transfer.export_scoped_key Transfer.export_user Transfer.export_cluster
imports = refl

export_import-IsRestored_example :
    IsRestored deps cluster_table 1 source
      (Import.import_operator deps cluster_table 6 fresh false (exported_with true) target).1
export_import-IsRestored_example =
    export_import-IsRestored deps cluster_table create_laws fresh 5 6 1 source target
      (exported_with true) (exports true) imports
