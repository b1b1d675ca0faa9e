-- ===== src/Entities/Roles.antt =====
-- The roles of internal/domain/entities/api_user.go. A role is a string in Go; `other` is a string
-- that none of the three constants spells.
use nis.Prelude.{
  String, ◌≡◌, refl, ◌↔◌, Bool, true, false, str_eq, if◌then◌else◌, arith, ap, eq_iff, eq_refl,
}

pub data Role : Type 0 where
  admin operator_admin account_admin : Role
  other : String → Role

-- `entities.APIUserRole(text)`
unfoldable pub role_of : String → Role
role_of text =
    if str_eq text "admin"
    then admin
    else if str_eq text "operator-admin"
    then operator_admin
    else if str_eq text "account-admin"
    then account_admin
    else other text

-- `string(role)`
unfoldable pub role_name : Role → String
role_name admin = "admin"
role_name operator_admin = "operator-admin"
role_name account_admin = "account-admin"
role_name (other text) = text

-- `role == entities.RoleX` for two of the constants, and for strings outside them.
unfoldable pub role_eq : Role → Role → Bool
role_eq admin admin = true
role_eq operator_admin operator_admin = true
role_eq account_admin account_admin = true
role_eq (other a) (other b) = str_eq a b
role_eq _ _ = false

unfoldable pub role_is_valid : Role → Bool
role_is_valid admin = true
role_is_valid operator_admin = true
role_is_valid account_admin = true
role_is_valid (other _) = false

-- A text that is read as a role and written back is the same text.
pub role_name-role_of : (text : String) → role_name (role_of text) ≡ text
unfolding role_name role_of
role_name-role_of text =
    ground (arith, eq_iff text "admin", eq_iff text "operator-admin", eq_iff text "account-admin")

role_eq-eq : (a b : Role) → role_eq a b ≡ true → a ≡ b
unfolding role_eq
role_eq-eq admin b h = ground arith
role_eq-eq operator_admin b h = ground arith
role_eq-eq account_admin b h = ground arith
role_eq-eq (other x) (other y) h = ap other ((eq_iff x y).0 h)
role_eq-eq (other x) _ h = cc

role_eq_refl : (a : Role) → role_eq a a ≡ true
unfolding role_eq
role_eq_refl (other x) = eq_refl x
role_eq_refl _ = refl

pub role_eq_iff : (a b : Role) → (role_eq a b ≡ true) ↔ (a ≡ b)
role_eq_iff a b = (role_eq-eq a b, λ e. rw e (role_eq_refl b))
