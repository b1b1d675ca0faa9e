-- ===== src/Permission.antt =====
-- internal/application/services/permission_service.go: the scope checks that run after the Casbin
-- middleware. A check that looks up an account or a user reads the world `s`; the request's user
-- is an `Option`, `none` where the Go pointer is nil. Denials carry `permission_denied` under a
-- text; the identifiers that Go formats into the text are left out.
pub mod Scope
pub mod Access
pub mod Filters
pub mod Clusters
use nis.Prelude.{
  String, Bool, true, false, not, Option, none, some, List, [], ◌∷◌, ◌==◌, if◌then◌else◌,
}
use nis.Exec.{Error, permission_denied, wrap, Result, ok, err, ◌>>=◌, ◌>>◌, wrapped, fail_if}
use nis.Entities.{
  Uuid, Operator, Account, User, Cluster, ApiUser, Role, admin, operator_admin, account_admin,
  role_eq,
}
use nis.Repositories.{AccountRepository, UserRepository}

-- `p != nil && *p == id`
abbrev pub points_to : Option Uuid → Uuid → Bool
points_to none id = false
points_to (some j) id = j == id

unfoldable pub denyf : String → Error
denyf text = wrap text permission_denied

has_role : Role → List Role → Bool
unfolding role_eq
has_role r [] = false
has_role r (x ∷ allowed) = if role_eq r x then true else has_role r allowed

unfoldable pub require_role : Option ApiUser → List Role → Result (Unit {0})
unfolding has_role
require_role none allowed = err permission_denied
require_role (some u) allowed =
    if has_role u.role allowed then ok tt else err (wrap "requires role" permission_denied)

-- The tail that the checks share: `if err != nil {...}; if !ok { return denyf(...) }; return nil`
abbrev pub unless_owned : String → Result Bool → Result (Unit {0})
unless_owned text r = r >>= λ owned. fail_if (not owned) (wrap text permission_denied)

unfoldable pub can_create_operator : Option ApiUser → Result (Unit {0})
unfolding require_role
can_create_operator user = require_role user (admin ∷ [])

unfoldable pub can_update_operator : Option ApiUser → Uuid → Result (Unit {0})
unfolding require_role
can_update_operator user operator_id = require_role user (admin ∷ [])

unfoldable pub can_delete_operator : Option ApiUser → Uuid → Result (Unit {0})
unfolding require_role
can_delete_operator user operator_id = require_role user (admin ∷ [])

unfoldable pub can_list_operators : Option ApiUser → Result (Unit {0})
can_list_operators none = err permission_denied
can_list_operators (some u) = ok tt

create_account_as : Role → ApiUser → Uuid → Result (Unit {0})
unfolding denyf
create_account_as admin u operator_id = ok tt
create_account_as operator_admin u operator_id =
    fail_if (not (points_to u.operator_id operator_id)) (denyf "own operator only")
create_account_as _ u operator_id = err (denyf "only admin or operator-admin")

unfoldable pub can_create_account : Option ApiUser → Uuid → Result (Unit {0})
unfolding create_account_as
can_create_account none operator_id = err permission_denied
can_create_account (some u) operator_id = create_account_as u.role u operator_id

unfoldable pub can_delete_account : Option ApiUser → Uuid → Result (Unit {0})
unfolding require_role
can_delete_account user account_id = require_role user (admin ∷ [])

unfoldable pub can_create_cluster : Option ApiUser → Result (Unit {0})
unfolding require_role
can_create_cluster user = require_role user (admin ∷ [])

unfoldable pub can_update_cluster : Option ApiUser → Result (Unit {0})
unfolding require_role
can_update_cluster user = require_role user (admin ∷ [])

unfoldable pub can_delete_cluster : Option ApiUser → Result (Unit {0})
unfolding require_role
can_delete_cluster user = require_role user (admin ∷ [])

unfoldable pub can_manage_api_users : Option ApiUser → Result (Unit {0})
unfolding require_role
can_manage_api_users user = require_role user (admin ∷ [])

-- The guard that four checks open with: nil users and account-admins are turned away.
unfoldable pub above_account_admin : Option ApiUser → String → Result (Unit {0})
unfolding role_eq
above_account_admin none text = err permission_denied
above_account_admin (some u) text =
    fail_if (role_eq u.role account_admin) (wrap text permission_denied)

-- A failed lookup skips the user.
abbrev pub or_skip : Result Bool → Bool
or_skip (ok owned) = owned
or_skip (err e) = false

module _ {S : Type 0} (accounts : AccountRepository S) where
  -- The account-admin's branch: `apiUser.AccountID`'s account belongs to the operator.
  operator_of_account : Option Uuid → Uuid → S → Result Bool
  operator_of_account none operator_id s = ok false
  operator_of_account (some account_id) operator_id s =
      wrapped "failed to get account" (accounts.get_by_id account_id s) >>= λ account.
      ok (account.operator_id == operator_id)

  own_operator_as : Role → ApiUser → Uuid → S → Result Bool
  unfolding operator_of_account
  own_operator_as admin u operator_id s = ok true
  own_operator_as operator_admin u operator_id s = ok (points_to u.operator_id operator_id)
  own_operator_as account_admin u operator_id s = operator_of_account u.account_id operator_id s
  own_operator_as _ u operator_id s = ok false

  unfoldable pub owns_operator : Option ApiUser → Uuid → S → Result Bool
  unfolding own_operator_as
  owns_operator none operator_id s = ok false
  owns_operator (some u) operator_id s = own_operator_as u.role u operator_id s

  own_account_as : Role → ApiUser → Uuid → S → Result Bool
  own_account_as admin u account_id s = ok true
  own_account_as operator_admin u account_id s =
      wrapped "failed to get account" (accounts.get_by_id account_id s) >>= λ account.
      ok (points_to u.operator_id account.operator_id)
  own_account_as account_admin u account_id s = ok (points_to u.account_id account_id)
  own_account_as _ u account_id s = ok false

  unfoldable pub owns_account : Option ApiUser → Uuid → S → Result Bool
  unfolding own_account_as
  owns_account none account_id s = ok false
  owns_account (some u) account_id s = own_account_as u.role u account_id s

  unfoldable pub can_read_operator : Option ApiUser → Uuid → S → Result (Unit {0})
  can_read_operator user operator_id s =
      unless_owned "cannot read operator" (owns_operator user operator_id s)

  unfoldable pub can_read_account : Option ApiUser → Uuid → S → Result (Unit {0})
  can_read_account user account_id s =
      unless_owned "cannot read account" (owns_account user account_id s)

  unfoldable pub can_update_account : Option ApiUser → Uuid → S → Result (Unit {0})
  unfolding above_account_admin
  can_update_account user account_id s =
      above_account_admin user "account admins cannot update accounts"
      >> unless_owned "cannot update account" (owns_account user account_id s)

  unfoldable pub can_create_user : Option ApiUser → Uuid → S → Result (Unit {0})
  can_create_user user account_id s =
      unless_owned "cannot create user in account" (owns_account user account_id s)

  unfoldable pub can_manage_scoped_keys : Option ApiUser → Uuid → S → Result (Unit {0})
  unfolding above_account_admin
  can_manage_scoped_keys user account_id s =
      above_account_admin user "account admins cannot manage scoped keys"
      >> unless_owned "cannot manage scoped keys" (owns_account user account_id s)

  -- `none` is a nil cluster.
  unfoldable pub can_read_cluster : Option ApiUser → Option Cluster → S → Result (Unit {0})
  can_read_cluster user none s = err permission_denied
  can_read_cluster user (some cluster) s =
      unless_owned "cannot read cluster" (owns_operator user cluster.operator_id s)

  -- The Go code reads the cluster's fields with no nil test, so the cluster is no `Option`.
  unfoldable pub can_sync_cluster : Option ApiUser → Cluster → S → Result (Unit {0})
  unfolding above_account_admin
  can_sync_cluster user cluster s =
      above_account_admin user "account admins cannot sync clusters"
      >> unless_owned "cannot sync cluster" (owns_operator user cluster.operator_id s)

  unfoldable pub filter_operators : Option ApiUser → List Operator → S → Result (List Operator)
  filter_operators user [] s = ok []
  filter_operators user (op ∷ operators) s = do
    owned ← owns_operator user op.id s
    out ← filter_operators user operators s
    ok (if owned then op ∷ out else out)

  unfoldable pub filter_accounts : Option ApiUser → List Account → S → Result (List Account)
  filter_accounts user [] s = ok []
  filter_accounts user (acc ∷ list) s = do
    owned ← owns_account user acc.id s
    out ← filter_accounts user list s
    ok (if owned then acc ∷ out else out)

  unfoldable pub filter_users : Option ApiUser → List User → S → List User
  filter_users user [] s = []
  filter_users user (u ∷ users) s =
      let out = filter_users user users s in
      if or_skip (owns_account user u.account_id s) then u ∷ out else out

  module _ (users : UserRepository S) where
    unfoldable pub can_read_user : Option ApiUser → Uuid → S → Result (Unit {0})
    can_read_user user user_id s = do
      found ← wrapped "failed to get user" (users.get_by_id user_id s)
      unless_owned "cannot read user" (owns_account user found.account_id s)

    unfoldable pub can_update_user : Option ApiUser → Uuid → S → Result (Unit {0})
    can_update_user user user_id s = do
      found ← wrapped "failed to get user" (users.get_by_id user_id s)
      unless_owned "cannot update user" (owns_account user found.account_id s)

    unfoldable pub can_delete_user : Option ApiUser → Uuid → S → Result (Unit {0})
    unfolding above_account_admin
    can_delete_user user user_id s = do
      above_account_admin user "account admins cannot delete users"
      found ← wrapped "failed to get user" (users.get_by_id user_id s)
      unless_owned "cannot delete user" (owns_account user found.account_id s)
