-- ===== src/Auth/Scope.antt =====
-- The scope that each role of an API user asks for, and the tests of it.
use nis.Prelude.{◌≡◌, refl, ◌↔◌, true, Option, none, some}
use nis.Exec.{ok}
use nis.Entities.{Uuid, Role, admin, operator_admin, account_admin, other, role_is_valid}
use nis.Auth.{validate_scope}

-- An admin has no scope, an operator-admin one operator, an account-admin one account.
pub data IsWellScoped : Role → Option Uuid → Option Uuid → Type 0 where
  unscoped : IsWellScoped admin none none
  one_operator : (operator_id : Uuid) → IsWellScoped operator_admin (some operator_id) none
  one_account : (account_id : Uuid) → IsWellScoped account_admin none (some account_id)

pub validate_scope_sound :
    (r : Role) (o a : Option Uuid)
    → role_is_valid r ≡ true
    → validate_scope r o a ≡ ok tt
    → IsWellScoped r o a
unfolding validate_scope role_is_valid
validate_scope_sound admin none none v h = unscoped
validate_scope_sound admin none (some a) v h = cc
validate_scope_sound admin (some o) none v h = cc
validate_scope_sound admin (some o) (some a) v h = cc
validate_scope_sound operator_admin (some o) none v h = one_operator o
validate_scope_sound operator_admin (some o) (some a) v h = cc
validate_scope_sound operator_admin none a v h = cc
validate_scope_sound account_admin none (some a) v h = one_account a
validate_scope_sound account_admin (some o) (some a) v h = cc
validate_scope_sound account_admin o none v h = cc
validate_scope_sound (other _) o a v h = cc

validate_scope_complete :
    (r : Role) (o a : Option Uuid)
    → IsWellScoped r o a
    → (role_is_valid r ≡ true) × (validate_scope r o a ≡ ok tt)
unfolding validate_scope role_is_valid
validate_scope_complete _ _ _ unscoped = (refl, refl)
validate_scope_complete _ _ _ (one_operator o) = (refl, refl)
validate_scope_complete _ _ _ (one_account a) = (refl, refl)

-- The tests of a role and of its scope accept exactly an admin with no scope, an operator-admin
-- with one operator and no account, and an account-admin with one account and no operator.
pub validate_scope_iff :
    (r : Role) (o a : Option Uuid)
    → ((role_is_valid r ≡ true) × (validate_scope r o a ≡ ok tt)) ↔ IsWellScoped r o a
validate_scope_iff r o a = (λ h. validate_scope_sound r o a h.0 h.1, validate_scope_complete r o a)
