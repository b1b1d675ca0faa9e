-- ===== src/Policy/Laws.antt =====
-- Laws of the policy.
use nis.Prelude.{
  ◌≡◌, refl, ◌≢◌, ◌↔◌, Bool, true, false, List, [], ◌∷◌, map, codes, arith, Has, here, there, keep,
  ap, not, ◌||◌, ◌&&◌, Bool-cases, inl, inr,
}
use nis.Text.{Bytes, bytes_eq}
use nis.Text.Laws.{bytes_eq_iff}
use nis.Policy.{Rule, matches, allows, load_lines}
use nis.Policy.Table.{policy_lines}

-- The rules in force.
unfoldable pub policy : List Rule
unfolding load_lines
policy = load_lines (map codes policy_lines)

or_true : (b : Bool) → (b || true) ≡ true
or_true true = refl
or_true false = refl

matches_iff :
    (p : Rule) (sub obj act : Bytes)
    → (matches p sub obj act ≡ true) ↔ (record { sub = sub; obj = obj; act = act } ≡ p)
unfolding matches
matches_iff p sub obj act = (
  λ h. ground (arith, bytes_eq_iff sub p.sub, bytes_eq_iff obj p.obj, bytes_eq_iff act p.act),
  λ e. ground (arith, bytes_eq_iff sub p.sub, bytes_eq_iff obj p.obj, bytes_eq_iff act p.act),
)

allows_sound :
    (rules : List Rule) (sub obj act : Bytes)
    → allows rules sub obj act ≡ true
    → Has (record { sub = sub; obj = obj; act = act }) rules
unfolding allows
allows_sound [] sub obj act h = cc
allows_sound (p ∷ rules) sub obj act h = elim (Bool-cases (matches p sub obj act)) [
  | inl e ↦ rw ((matches_iff p sub obj act).0 e) here
  | inr e ↦ there (allows_sound rules sub obj act (rw (e, ◌||◌) at h))
]

allows_complete :
    (sub obj act : Bytes) (rules : List Rule)
    → Has (record { sub = sub; obj = obj; act = act }) rules
    → allows rules sub obj act ≡ true
unfolding allows
allows_complete sub obj act _ here =
    rw ((matches_iff (record { sub = sub; obj = obj; act = act }) sub obj act).1 refl)
allows_complete sub obj act _ (there {x = p} {xs = rules} h) =
    rw (allows_complete sub obj act rules h) (or_true (matches p sub obj act))

-- Under the model of Casbin's configuration, a request is allowed exactly if one of the rules
-- states its role, resource and action.
pub allows_iff :
    (rules : List Rule) (sub obj act : Bytes)
    → (allows rules sub obj act ≡ true) ↔ Has (record { sub = sub; obj = obj; act = act }) rules
allows_iff rules sub obj act = (allows_sound rules sub obj act, allows_complete sub obj act rules)

-- `all` allows to `high` whatever `rules` allow to `low`, but for the actions that `skip` names.
covers : List Rule → Bytes → Bytes → (Bytes → Bool) → List Rule → Bool
covers all low high skip [] = true
covers all low high skip (p ∷ rules) =
    (not (bytes_eq p.sub low) || (skip p.act || allows all high p.obj p.act))
    && covers all low high skip rules

covers_sound :
    (all : List Rule) (low high : Bytes) (skip : Bytes → Bool) (obj act : Bytes) (rules : List Rule)
    → covers all low high skip rules ≡ true
    → skip act ≡ false
    → Has (record { sub = low; obj = obj; act = act }) rules
    → allows all high obj act ≡ true
unfolding covers
covers_sound all low high skip obj act _ h ne here = ground (arith, bytes_eq_iff low low)
covers_sound all low high skip obj act _ h ne (there {x = p} {xs = rules} m) =
    covers_sound all low high skip obj act rules (ground arith) ne m

is_sync : Bytes → Bool
is_sync act = bytes_eq act (codes "sync")

operator_admin_covers :
    covers policy (codes "account-admin") (codes "operator-admin") (λ _. false) policy ≡ true
unfolding covers policy allows
operator_admin_covers = refl

admin_covers : covers policy (codes "operator-admin") (codes "admin") is_sync policy ≡ true
unfolding covers policy allows is_sync
admin_covers = refl

-- Every request that the rules allow to an account-admin they allow to an operator-admin.
pub operator_admin-covers-account_admin :
    (obj act : Bytes)
    → allows policy (codes "account-admin") obj act ≡ true
    → allows policy (codes "operator-admin") obj act ≡ true
operator_admin-covers-account_admin obj act h =
    covers_sound policy (codes "account-admin") (codes "operator-admin") (λ _. false) obj act policy
      operator_admin_covers refl ((allows_iff policy (codes "account-admin") obj act).0 h)

-- Every request that the rules allow to an operator-admin they allow to an admin, but for "sync".
pub admin-covers-operator_admin :
    (obj act : Bytes)
    → act ≢ codes "sync"
    → allows policy (codes "operator-admin") obj act ≡ true
    → allows policy (codes "admin") obj act ≡ true
unfolding is_sync
admin-covers-operator_admin obj act ne h =
    covers_sound policy (codes "operator-admin") (codes "admin") is_sync obj act policy admin_covers
      (ground (arith, bytes_eq_iff act (codes "sync")))
      ((allows_iff policy (codes "operator-admin") obj act).0 h)

abbrev pub not_sync_rule : Rule → Bool
not_sync_rule p = not (bytes_eq p.act (codes "sync"))

sync_unmatched :
    (p : Rule) (sub obj act : Bytes)
    → bytes_eq p.act (codes "sync") ≡ true
    → act ≢ codes "sync"
    → matches p sub obj act ≡ false
unfolding matches
sync_unmatched p sub obj act e ne =
    ground (arith, bytes_eq_iff p.act (codes "sync"), bytes_eq_iff act p.act)

-- The rules with the action "sync" decide no request for another action.
pub allows-without_sync :
    (rules : List Rule) (sub obj act : Bytes)
    → act ≢ codes "sync"
    → allows (keep not_sync_rule rules) sub obj act ≡ allows rules sub obj act
unfolding allows
allows-without_sync [] sub obj act ne = refl
allows-without_sync (p ∷ rules) sub obj act ne = elim (Bool-cases (bytes_eq p.act (codes "sync"))) [
  | inr e ↦ rw e (ap (λ b. matches p sub obj act || b) (allows-without_sync rules sub obj act ne))
  | inl e ↦ rw (e, sync_unmatched p sub obj act e ne) (allows-without_sync rules sub obj act ne)
]
