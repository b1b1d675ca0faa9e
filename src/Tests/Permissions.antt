-- ===== src/Tests/Permissions.antt =====
-- The scope checks of internal/application/services/permission_service.go on a small database.
use nis.Prelude.{◌≡◌, refl, ◌↔◌, true, Option, none, some, [], ◌∷◌, Has, false}
use nis.Exec.{not_found, wrap, ok, err}
use nis.Entities.{Uuid, Account, User, ApiUser, Role, admin, operator_admin, account_admin, Cluster}
use nis.Permission.{owns_account, owns_operator, filter_accounts, filter_operators, filter_users}
use nis.Permission.Scope.{
  OperatorInScope, AccountInScope, owns_operator-iff-OperatorInScope,
  owns_account-iff-AccountInScope, own_account,
}
use nis.Permission.Access.{
  AccountCheck, MayCheck, UserCheck, MayCheckUser, account_check, user_check, AdminCheck,
  admin_check, account_check_iff, user_check_iff, admin_check_iff,
}
use nis.Permission.Clusters.{sync_cluster, MayCheckCluster, cluster_check, cluster_check_iff}
use nis.Permission.Filters.{filter_accounts_iff}
use nis.Tests.World.{world, account_table, user_table, account_of, acme, bob}

abbrev api_user : Role → Option Uuid → Option Uuid → ApiUser
api_user role operator_id account_id = record {
  id = 50;
  username = "u";
  password_hash = "h";
  role = role;
  operator_id = operator_id;
  account_id = account_id;
  created_at = 0;
  updated_at = 0;
}

abbrev root : ApiUser
root = api_user admin none none

abbrev lead : ApiUser
lead = api_user operator_admin (some 1) none

abbrev stranger : ApiUser
stranger = api_user operator_admin (some 2) none

abbrev clerk : ApiUser
clerk = api_user account_admin none (some 10)

abbrev orders : Account
orders = account_of 10 "orders" "AORD"

clerk_owns_orders : owns_account account_table (some clerk) 10 world ≡ ok true
unfolding owns_account
clerk_owns_orders = refl

owns_operator-iff-OperatorInScope_example :
    (owns_operator account_table (some clerk) 1 world ≡ ok true)
    ↔ OperatorInScope account_table world clerk 1
owns_operator-iff-OperatorInScope_example =
    owns_operator-iff-OperatorInScope account_table world clerk 1

owns_account-iff-AccountInScope_example :
    (owns_account account_table (some lead) 10 world ≡ ok true)
    ↔ AccountInScope account_table world lead 10
owns_account-iff-AccountInScope_example =
    owns_account-iff-AccountInScope account_table world lead 10

lead_owns_orders : owns_account account_table (some lead) 10 world ≡ ok true
unfolding owns_account
lead_owns_orders = refl

abbrev deputy : ApiUser
deputy = record lead { id = 51 }

deputy_owns_orders : owns_account account_table (some deputy) 10 world ≡ ok true
unfolding owns_account
deputy_owns_orders = refl

stranger_owns_nothing : filter_users account_table (some stranger) (bob ∷ []) world ≡ []
unfolding filter_users owns_account
stranger_owns_nothing = refl

account_check_iff_example :
    (account_check account_table AccountCheck.update (some lead) 10 world ≡ ok tt)
    ↔ (AccountInScope account_table world lead 10 × MayCheck AccountCheck.update operator_admin)
account_check_iff_example = account_check_iff account_table AccountCheck.update lead 10 world

clerk_reads : account_check account_table AccountCheck.read (some clerk) 10 world ≡ ok tt
clerk_reads =
    (account_check_iff account_table AccountCheck.read clerk 10 world).1 (own_account refl refl, tt)

user_check_iff_example :
    (user_check account_table user_table UserCheck.delete (some lead) 30 world ≡ ok tt) ↔ (
      (found : User) × (user_table.get_by_id 30 world ≡ ok found)
      × AccountInScope account_table world lead found.account_id
      × MayCheckUser UserCheck.delete operator_admin)
user_check_iff_example = user_check_iff account_table user_table UserCheck.delete lead 30 world

admin_check_iff_example :
    (admin_check AdminCheck.delete_operator (some root) 1 ≡ ok tt)
    ↔ ((u : ApiUser) × (some root ≡ some u) × (u.role ≡ admin))
admin_check_iff_example = admin_check_iff AdminCheck.delete_operator (some root) 1

lead_list : filter_accounts account_table (some lead) world.accounts world ≡ ok world.accounts
unfolding filter_accounts owns_account
lead_list = refl

filter_accounts_iff_example :
    Has orders world.accounts
    ↔ (Has orders world.accounts × AccountInScope account_table world lead 10)
filter_accounts_iff_example =
    filter_accounts_iff account_table world lead world.accounts world.accounts lead_list orders

clerk_list : filter_operators account_table (some clerk) (acme ∷ []) world ≡ ok (acme ∷ [])
unfolding filter_operators owns_operator
clerk_list = refl

abbrev gone : Account
gone = account_of 77 "gone" "AGONE"

lookup_fails :
    filter_accounts account_table (some lead) (orders ∷ gone ∷ []) world
    ≡ err (wrap "failed to get account" not_found)
unfolding filter_accounts owns_account
lookup_fails = refl

abbrev cluster : Cluster
cluster = record {
  id = 40;
  name = "eu";
  description = "";
  server_urls = "nats://eu" ∷ [];
  operator_id = 1;
  system_account_pub_key = "ASYS";
  encrypted_creds = "";
  skip_verify_tls = false;
  healthy = true;
  last_health_check = none;
  health_check_error = "";
  created_at = 0;
  updated_at = 0;
}

cluster_check_iff_example :
    (cluster_check account_table sync_cluster clerk cluster world ≡ ok tt)
    ↔ (OperatorInScope account_table world clerk 1 × MayCheckCluster sync_cluster account_admin)
cluster_check_iff_example = cluster_check_iff account_table sync_cluster clerk cluster world
