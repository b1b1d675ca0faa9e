-- ===== src/Permission/Access.antt =====
-- Which checks of internal/application/services/permission_service.go let a request through.
use nis.Prelude.{
  String, ◌≡◌, refl, ◌≢◌, ◌↔◌, ◌⊎◌, inl, inr, Bool, true, false, Option, none, some, [], ◌∷◌, arith,
}
use nis.Exec.{Result, ok, err, wrapped-bind-eq-ok, bind-eq-ok, ◌>>=◌, ◌>>◌, wrapped}
use nis.Entities.{
  Uuid, Account, User, ApiUser, Role, admin, operator_admin, account_admin, other, role_eq_iff,
}
use nis.Repositories.{AccountRepository, UserRepository}
use nis.Permission.{
  unless_owned, require_role, above_account_admin, owns_account, can_read_account,
  can_update_account, can_create_user, can_manage_scoped_keys, can_read_user, can_update_user,
  can_delete_user, can_create_operator, can_update_operator, can_delete_operator,
  can_delete_account, can_create_cluster, can_update_cluster, can_delete_cluster,
  can_manage_api_users, create_account_as, can_create_account,
}
use nis.Permission.Scope.{
  AccountInScope, of_own_operator, owns_account-iff-AccountInScope, points_to_sound,
  points_to_complete,
}

-- The checks on one account.
pub data AccountCheck : Type 0 where
  read update create_user manage_scoped_keys : AccountCheck

-- Account-admins are turned away from two of them.
abbrev pub MayCheck : AccountCheck → Role → Type 0
MayCheck read r = Unit
MayCheck update r = r ≢ account_admin
MayCheck create_user r = Unit
MayCheck manage_scoped_keys r = r ≢ account_admin

pub data UserCheck : Type 0 where
  read update delete : UserCheck

abbrev pub MayCheckUser : UserCheck → Role → Type 0
MayCheckUser UserCheck.read r = Unit
MayCheckUser UserCheck.update r = Unit
MayCheckUser UserCheck.delete r = r ≢ account_admin

pub unless_owned_iff :
    (text : String) (r : Result Bool) → (unless_owned text r ≡ ok tt) ↔ (r ≡ ok true)
unless_owned_iff text (ok true) = (λ _. refl, λ _. refl)
unless_owned_iff text (ok false) = (λ h. cc, λ h. cc)
unless_owned_iff text (err e) = (λ h. cc, λ h. cc)

above_account_admin_iff :
    (u : ApiUser) (text : String)
    → (above_account_admin (some u) text ≡ ok tt) ↔ (u.role ≢ account_admin)
unfolding above_account_admin
above_account_admin_iff u text = (
  λ h. ground (arith, role_eq_iff u.role account_admin),
  λ h. ground (arith, role_eq_iff u.role account_admin),
)

-- A check that turns account-admins away and then asks for ownership.
pub above_then_owned :
    (u : ApiUser) (text text' : String) (r : Result Bool)
    → ((above_account_admin (some u) text >> unless_owned text' r) ≡ ok tt)
      ↔ ((r ≡ ok true) × (u.role ≢ account_admin))
above_then_owned u text text' r = (
  λ h. ground (arith, above_account_admin_iff u text, unless_owned_iff text' r),
  λ h. ground (arith, above_account_admin_iff u text, unless_owned_iff text' r),
)

module _ {S : Type 0} (accounts : AccountRepository S) where
  abbrev pub account_check : AccountCheck → Option ApiUser → Uuid → S → Result (Unit {0})
  account_check read = can_read_account accounts
  account_check update = can_update_account accounts
  account_check create_user = can_create_user accounts
  account_check manage_scoped_keys = can_manage_scoped_keys accounts

  in_scope :
      (u : ApiUser) (id : Uuid) (s : S)
      → (owns_account accounts (some u) id s ≡ ok true) ↔ AccountInScope accounts s u id
  in_scope u id s = owns_account-iff-AccountInScope accounts s u id

  -- For a user who is there, a check on an account (read, update, create a user in it, manage its
  -- scoped keys) passes exactly if the account is in the user's scope and the check is open to
  -- the user's role; updates and scoped keys are closed to account-admins.
  pub account_check_iff :
      (c : AccountCheck) (u : ApiUser) (id : Uuid) (s : S)
      → (account_check c (some u) id s ≡ ok tt)
        ↔ (AccountInScope accounts s u id × MayCheck c u.role)
  unfolding can_read_account can_update_account can_create_user can_manage_scoped_keys
  account_check_iff read u id s = (
    λ h. ((in_scope u id s).0 ((unless_owned_iff _ _).0 h), tt),
    λ h. (unless_owned_iff _ _).1 ((in_scope u id s).1 h.0),
  )
  account_check_iff create_user u id s = (
    λ h. ((in_scope u id s).0 ((unless_owned_iff _ _).0 h), tt),
    λ h. (unless_owned_iff _ _).1 ((in_scope u id s).1 h.0),
  )
  account_check_iff _ u id s = (
    λ h. let (o, r) = (above_then_owned u _ _ _).0 h in ((in_scope u id s).0 o, r),
    λ h. (above_then_owned u _ _ _).1 ((in_scope u id s).1 h.0, h.1),
  )

  -- A check on a stored account that an account-admin passes, the operator-admin of the account's
  -- operator passes too.
  pub operator_admin_outranks :
      (c : AccountCheck) (u v : ApiUser) (id : Uuid) (account : Account) (s : S)
      → u.role ≡ account_admin
      → v.role ≡ operator_admin
      → accounts.get_by_id id s ≡ ok account
      → v.operator_id ≡ some account.operator_id
      → account_check c (some u) id s ≡ ok tt
      → account_check c (some v) id s ≡ ok tt
  operator_admin_outranks c u v id account s ru rv found own h =
      (account_check_iff c v id s).1 (of_own_operator account rv found own, may c)
    where
      may : (c : AccountCheck) → MayCheck c v.role
      may read = tt
      may create_user = tt
      may _ = λ e. cc

  found_then_owned :
      (u : ApiUser) (text text' : String) (r : Result User) (s : S)
      → (wrapped text r >>= λ found.
          unless_owned text' (owns_account accounts (some u) found.account_id s))
        ≡ ok tt
      → (found : User) × (r ≡ ok found) × AccountInScope accounts s u found.account_id
  found_then_owned u text text' r s h =
      let (found, e, owned) =
        wrapped-bind-eq-ok text r
          (λ found. unless_owned text' (owns_account accounts (some u) found.account_id s)) h in
      (found, e, (in_scope u found.account_id s).0 ((unless_owned_iff _ _).0 owned))

  found_and_owned :
      (u : ApiUser) (text text' : String) (r : Result User) (s : S)
      → ((found : User) × (r ≡ ok found) × AccountInScope accounts s u found.account_id)
      → (wrapped text r >>= λ found.
          unless_owned text' (owns_account accounts (some u) found.account_id s))
        ≡ ok tt
  found_and_owned u text text' r s h =
      rw h.1 ((unless_owned_iff _ _).1 ((in_scope u h.0.account_id s).1 h.2))

  module _ (users : UserRepository S) where
    abbrev pub user_check : UserCheck → Option ApiUser → Uuid → S → Result (Unit {0})
    user_check UserCheck.read = can_read_user accounts users
    user_check UserCheck.update = can_update_user accounts users
    user_check UserCheck.delete = can_delete_user accounts users

    -- For a user who is there, a check on a NATS user (read, update, delete) passes exactly if
    -- the NATS user is found, its account is in scope, and, for a deletion, the role is not
    -- account-admin.
    pub user_check_iff :
        (c : UserCheck) (u : ApiUser) (id : Uuid) (s : S)
        → (user_check c (some u) id s ≡ ok tt) ↔ (
            (found : User) × (users.get_by_id id s ≡ ok found)
            × AccountInScope accounts s u found.account_id
            × MayCheckUser c u.role)
    unfolding can_read_user can_update_user can_delete_user
    user_check_iff UserCheck.read u id s = (
      λ h.
          let (found, e, owned) = found_then_owned u _ _ (users.get_by_id id s) s h in
          (found, e, owned, tt),
      λ h. found_and_owned u _ _ (users.get_by_id id s) s (h.0, h.1, h.2),
    )
    user_check_iff UserCheck.update u id s = (
      λ h.
          let (found, e, owned) = found_then_owned u _ _ (users.get_by_id id s) s h in
          (found, e, owned, tt),
      λ h. found_and_owned u _ _ (users.get_by_id id s) s (h.0, h.1, h.2),
    )
    user_check_iff UserCheck.delete u id s = (
      λ h.
          let (_, above, h') = bind-eq-ok (above_account_admin (some u) _) _ h in
          let (found, e, owned) = found_then_owned u _ _ (users.get_by_id id s) s h' in
          (found, e, owned, (above_account_admin_iff u _).0 above),
      λ h.
          rw ((above_account_admin_iff u _).1 h.3)
            (found_and_owned u _ _ (users.get_by_id id s) s (h.0, h.1, h.2)),
    )

-- The checks that no identifier narrows.
pub data AdminCheck : Type 0 where
  create_operator update_operator delete_operator delete_account : AdminCheck
  create_cluster update_cluster delete_cluster manage_api_users : AdminCheck

abbrev pub admin_check : AdminCheck → Option ApiUser → Uuid → Result (Unit {0})
admin_check create_operator user id = can_create_operator user
admin_check update_operator user id = can_update_operator user id
admin_check delete_operator user id = can_delete_operator user id
admin_check delete_account user id = can_delete_account user id
admin_check create_cluster user id = can_create_cluster user
admin_check update_cluster user id = can_update_cluster user
admin_check delete_cluster user id = can_delete_cluster user
admin_check manage_api_users user id = can_manage_api_users user

require_admin_iff :
    (user : Option ApiUser)
    → (require_role user (admin ∷ []) ≡ ok tt)
      ↔ ((u : ApiUser) × (user ≡ some u) × (u.role ≡ admin))
unfolding require_role
require_admin_iff none = (λ h. cc, λ h. cc (h.1))
require_admin_iff (some u) = (
  λ h. (u, refl, ground (arith, role_eq_iff u.role admin)),
  λ h. ground (arith, role_eq_iff u.role admin, h.1, h.2),
)

-- The checks on the operator lifecycle, the cluster lifecycle, the deletion of accounts and API
-- users pass exactly for a user who is there and has the role admin.
pub admin_check_iff :
    (c : AdminCheck) (user : Option ApiUser) (id : Uuid)
    → (admin_check c user id ≡ ok tt) ↔ ((u : ApiUser) × (user ≡ some u) × (u.role ≡ admin))
unfolding can_create_operator can_update_operator can_delete_operator can_delete_account
    can_create_cluster can_update_cluster can_delete_cluster can_manage_api_users
admin_check_iff create_operator user id = require_admin_iff user
admin_check_iff _ user id = require_admin_iff user

create_account_as_iff :
    (r : Role) (u : ApiUser) (id : Uuid)
    → (create_account_as r u id ≡ ok tt)
      ↔ ((r ≡ admin) ⊎ ((r ≡ operator_admin) × (u.operator_id ≡ some id)))
unfolding create_account_as
create_account_as_iff admin u id = (λ h. inl refl, λ h. refl)
create_account_as_iff operator_admin u id = (
  λ h. inr (refl, points_to_sound u.operator_id id (ground arith)),
  λ h. ground (arith, points_to_complete u.operator_id id),
)
create_account_as_iff account_admin u id = (λ h. cc, λ h. ground arith)
create_account_as_iff (other _) u id = (λ h. cc, λ h. ground arith)

-- For a user who is there, the check on creating an account under an operator passes exactly for
-- an admin and for the operator-admin of that operator.
pub can_create_account_iff :
    (u : ApiUser) (operator_id : Uuid)
    → (can_create_account (some u) operator_id ≡ ok tt)
      ↔ ((u.role ≡ admin) ⊎ ((u.role ≡ operator_admin) × (u.operator_id ≡ some operator_id)))
unfolding can_create_account
can_create_account_iff u operator_id = create_account_as_iff u.role u operator_id
