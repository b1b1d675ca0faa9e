-- ===== src/Permission/Scope.antt =====
-- What `ownsOperator` and `ownsAccount` of internal/application/services/permission_service.go
-- decide: the scope of an API user, as relations that do not mention the code's branches.
use nis.Prelude.{◌≡◌, refl, ◌↔◌, true, Option, none, some, ◌==◌, ==_iff, arith}
use nis.Exec.{ok, wrapped-bind-eq-ok}
use nis.Entities.{Uuid, Account, ApiUser, Role, admin, operator_admin, account_admin, other}
use nis.Repositories.{AccountRepository}
use nis.Permission.{
  points_to, operator_of_account, own_operator_as, owns_operator, own_account_as, owns_account,
  can_read_operator,
}

pub points_to_sound : (p : Option Uuid) (id : Uuid) → points_to p id ≡ true → p ≡ some id
points_to_sound none id h = cc
points_to_sound (some j) id h = ground (arith, ==_iff j id)

pub points_to_complete : (p : Option Uuid) (id : Uuid) → p ≡ some id → points_to p id ≡ true
points_to_complete none id h = cc
points_to_complete (some j) id h = ground (arith, ==_iff j id)

module _ {S : Type 0} (accounts : AccountRepository S) (s : S) where
  -- The operators that an API user has authority over.
  pub data OperatorInScope (u : ApiUser) (operator_id : Uuid) : Type 0 where
    of_admin : u.role ≡ admin → OperatorInScope u operator_id
    own_operator :
        u.role ≡ operator_admin → u.operator_id ≡ some operator_id → OperatorInScope u operator_id
    of_own_account :
        (account_id : Uuid) (account : Account)
        → u.role ≡ account_admin
        → u.account_id ≡ some account_id
        → accounts.get_by_id account_id s ≡ ok account
        → account.operator_id ≡ operator_id
        → OperatorInScope u operator_id

  -- The accounts that an API user has authority over.
  pub data AccountInScope (u : ApiUser) (account_id : Uuid) : Type 0 where
    of_admin : u.role ≡ admin → AccountInScope u account_id
    of_own_operator :
        (account : Account)
        → u.role ≡ operator_admin
        → accounts.get_by_id account_id s ≡ ok account
        → u.operator_id ≡ some account.operator_id
        → AccountInScope u account_id
    own_account :
        u.role ≡ account_admin → u.account_id ≡ some account_id → AccountInScope u account_id

  operator_of_account_sound :
      (u : ApiUser) (p : Option Uuid) (id : Uuid)
      → u.role ≡ account_admin
      → u.account_id ≡ p
      → operator_of_account accounts p id s ≡ ok true
      → OperatorInScope u id
  unfolding operator_of_account
  operator_of_account_sound u none id r e h = cc
  operator_of_account_sound u (some account_id) id r e h =
      let (account, found, same) =
        wrapped-bind-eq-ok "failed to get account" (accounts.get_by_id account_id s)
          (λ account. ok (account.operator_id == id)) h in
      of_own_account account_id account r e found (ground arith)

  own_operator_as_sound :
      (r : Role) (u : ApiUser) (id : Uuid)
      → u.role ≡ r
      → own_operator_as accounts r u id s ≡ ok true
      → OperatorInScope u id
  unfolding own_operator_as
  own_operator_as_sound admin u id e h = OperatorInScope.of_admin e
  own_operator_as_sound operator_admin u id e h =
      own_operator e (points_to_sound u.operator_id id (ground arith))
  own_operator_as_sound account_admin u id e h =
      operator_of_account_sound u u.account_id id e refl h
  own_operator_as_sound (other _) u id e h = cc

  owns_operator_complete :
      (u : ApiUser) (id : Uuid)
      → OperatorInScope u id
      → owns_operator accounts (some u) id s ≡ ok true
  unfolding owns_operator
  owns_operator_complete u id (OperatorInScope.of_admin e) = ground arith
  owns_operator_complete u id (own_operator r e) =
      ground (arith, points_to_complete u.operator_id id)
  owns_operator_complete u id (of_own_account a account r e found same) =
      ground (arith, ==_iff account.operator_id id)

  -- For a user who is there, `ownsOperator` returns true exactly for the operators in the user's
  -- scope: all for an admin, their own for an operator-admin, that of their stored account for an
  -- account-admin.
  pub owns_operator-iff-OperatorInScope :
      (u : ApiUser) (id : Uuid)
      → (owns_operator accounts (some u) id s ≡ ok true) ↔ OperatorInScope u id
  unfolding owns_operator
  owns_operator-iff-OperatorInScope u id =
      (own_operator_as_sound u.role u id refl, owns_operator_complete u id)

  own_account_as_sound :
      (r : Role) (u : ApiUser) (id : Uuid)
      → u.role ≡ r
      → own_account_as accounts r u id s ≡ ok true
      → AccountInScope u id
  unfolding own_account_as
  own_account_as_sound admin u id e h = AccountInScope.of_admin e
  own_account_as_sound operator_admin u id e h =
      let (account, found, same) =
        wrapped-bind-eq-ok "failed to get account" (accounts.get_by_id id s)
          (λ account. ok (points_to u.operator_id account.operator_id)) h in
      of_own_operator account e found
        (points_to_sound u.operator_id account.operator_id (ground arith))
  own_account_as_sound account_admin u id e h =
      own_account e (points_to_sound u.account_id id (ground arith))
  own_account_as_sound (other _) u id e h = cc

  owns_account_complete :
      (u : ApiUser) (id : Uuid)
      → AccountInScope u id
      → owns_account accounts (some u) id s ≡ ok true
  unfolding owns_account
  owns_account_complete u id (AccountInScope.of_admin e) = ground arith
  owns_account_complete u id (of_own_operator account r found e) =
      ground (arith, points_to_complete u.operator_id account.operator_id)
  owns_account_complete u id (own_account r e) = ground (arith, points_to_complete u.account_id id)

  -- For a user who is there, `ownsAccount` returns true exactly for the accounts in the user's
  -- scope: all for an admin, the stored accounts of their operator for an operator-admin, their
  -- own for an account-admin.
  pub owns_account-iff-AccountInScope :
      (u : ApiUser) (id : Uuid)
      → (owns_account accounts (some u) id s ≡ ok true) ↔ AccountInScope u id
  unfolding owns_account
  owns_account-iff-AccountInScope u id =
      (own_account_as_sound u.role u id refl, owns_account_complete u id)

  -- A user in whose scope a stored account lies may read the operator that owns the account.
  pub can_read_operator_of_account :
      (u : ApiUser) (id : Uuid) (account : Account)
      → accounts.get_by_id id s ≡ ok account
      → AccountInScope u id
      → can_read_operator accounts (some u) account.operator_id s ≡ ok tt
  unfolding can_read_operator
  can_read_operator_of_account u id account found scope =
      rw (owns_operator_complete u account.operator_id (lift scope))
    where
      lift : AccountInScope u id → OperatorInScope u account.operator_id
      lift (AccountInScope.of_admin e) = OperatorInScope.of_admin e
      lift (of_own_operator a r found' e) = own_operator r (ground arith)
      lift (own_account r e) = of_own_account id account r e found refl

  scope_of_operator_admin :
      (u : ApiUser) (id : Uuid)
      → u.role ≡ operator_admin
      → AccountInScope u id
      → (account : Account) × (accounts.get_by_id id s ≡ ok account)
        × (u.operator_id ≡ some account.operator_id)
  scope_of_operator_admin u id r (AccountInScope.of_admin e) = cc
  scope_of_operator_admin u id r (of_own_operator account _ found e) = (account, found, e)
  scope_of_operator_admin u id r (own_account e _) = cc

  -- Two operator-admins who both own an account in one world are admins of the same operator.
  pub tenants_disjoint :
      (u v : ApiUser) (id : Uuid)
      → u.role ≡ operator_admin
      → v.role ≡ operator_admin
      → owns_account accounts (some u) id s ≡ ok true
      → owns_account accounts (some v) id s ≡ ok true
      → u.operator_id ≡ v.operator_id
  tenants_disjoint u v id ru rv hu hv =
      let (a, fa, ea) =
        scope_of_operator_admin u id ru ((owns_account-iff-AccountInScope u id).0 hu) in
      let (b, fb, eb) =
        scope_of_operator_admin v id rv ((owns_account-iff-AccountInScope v id).0 hv) in
      ground arith
