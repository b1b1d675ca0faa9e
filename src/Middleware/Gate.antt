-- ===== src/Middleware/Gate.antt =====
-- Which requests reach a handler, and as whom.
use nis.Prelude.{
  ◌≡◌, ◌≢◌, ◌↔◌, ap, sym, ◌∙◌, Bool, true, false, Option, some, [], codes, arith, inl, inr, List,
  keep,
}
use nis.Exec.{Result, ok, Exec, Result-cases}
use nis.Entities.{ApiUser, Role, role_name, admin, operator_admin, account_admin}
use nis.Text.{Bytes, bytes_eq}
use nis.Text.Laws.{bytes_eq_iff}
use nis.Policy.{Rule, allows}
use nis.Policy.Laws.{
  policy, not_sync_rule, allows-without_sync, operator_admin-covers-account_admin,
  admin-covers-operator_admin,
}
use nis.Middleware.{
  extract_token, extract_resource_and_action, Code, rejected, handled, login_procedure, authorize,
  authenticate, wrap_call,
}
use nis.Middleware.Procedure.{extract_resource_and_action-ne-sync}

-- The role may call the procedure by the rules.
abbrev pub Permits : List Rule → Role → Bytes → Type 0
Permits rules r procedure =
    let (resource, action) = extract_resource_and_action procedure in
    allows rules (codes (role_name r)) resource action ≡ true

-- The documented behaviour of `Enforcer.Enforce` under casbin_model.conf.
abbrev pub Enforces : List Rule → (Bytes → Bytes → Bytes → Result Bool) → Type 0
Enforces rules enforce = (sub obj act : Bytes) → enforce sub obj act ≡ ok (allows rules sub obj act)

module _ {S A : Type 0} (validate : Bytes → S → Result ApiUser)
    (enforce : Bytes → Bytes → Bytes → Result Bool) (next : Option ApiUser → Exec S A) where
  asked :
      (rules : List Rule) (user : ApiUser) (procedure : Bytes)
      → Enforces rules enforce
      → let (resource, action) = extract_resource_and_action procedure in
        enforce (codes (role_name user.role)) resource action
        ≡ ok (allows rules (codes (role_name user.role)) resource action)
  asked rules user procedure law = law _ _ _

  authorize-handled :
      (rules : List Rule) (user : ApiUser) (procedure : Bytes) (s s' : S) (r : Result A)
      → Enforces rules enforce
      → (authorize validate enforce next user procedure s ≡ (handled r, s'))
        ↔ (Permits rules user.role procedure × (next (some user) s ≡ (r, s')))
  unfolding authorize
  authorize-handled rules user procedure s s' r law = (
    λ h. ground (arith, asked rules user procedure law),
    λ h. ground (arith, asked rules user procedure law),
  )

  authenticate-handled :
      (rules : List Rule) (token procedure : Bytes) (s s' : S) (r : Result A)
      → Enforces rules enforce
      → (authenticate validate enforce next token procedure s ≡ (handled r, s')) ↔ (
          (user : ApiUser) × (token ≢ [])
          × (validate token s ≡ ok user)
          × Permits rules user.role procedure
          × (next (some user) s ≡ (r, s')))
  unfolding authenticate
  authenticate-handled rules token procedure s s' r law = (
    λ h. elim (Result-cases (validate token s)) [
      | inl (user, e) ↦
          let h' =
            (authorize-handled rules user procedure s s' r law).0
              (ground (arith, bytes_eq_iff token [])) in
          (user, ground (arith, bytes_eq_iff token []), e, h'.0, h'.1)
      | inr (e', e) ↦ absurd (ground (arith, bytes_eq_iff token []))
    ],
    λ h. ground (
      arith,
      h.1,
      h.2,
      bytes_eq_iff token [],
      (authorize-handled rules h.0 procedure s s' r law).1 (h.3, h.4),
    ),
  )

  -- With an enforcer that decides by given rules, behind a procedure other than the login, the
  -- handler runs exactly if the header carries a token that validates to a user whose role the
  -- rules permit to call the procedure; it runs as that user, and its result and its state are
  -- what the call returns.
  pub wrap_call-handled :
      (rules : List Rule) (procedure header : Bytes) (s s' : S) (r : Result A)
      → Enforces rules enforce
      → procedure ≢ login_procedure
      → (wrap_call validate enforce next procedure header s ≡ (handled r, s')) ↔ (
          (user : ApiUser) × (extract_token header ≢ [])
          × (validate (extract_token header) s ≡ ok user)
          × Permits rules user.role procedure
          × (next (some user) s ≡ (r, s')))
  unfolding wrap_call
  wrap_call-handled rules procedure header s s' r law ne =
      rw not_login (authenticate-handled rules (extract_token header) procedure s s' r law)
    where
      not_login : bytes_eq procedure login_procedure ≡ false
      not_login = ground (arith, bytes_eq_iff procedure login_procedure)

  -- A call that the interceptor rejects, with whatever code, changes nothing.
  pub wrap_call-rejected :
      (procedure header : Bytes) (s s' : S) (c : Code)
      → wrap_call validate enforce next procedure header s ≡ (rejected c, s')
      → s' ≡ s
  unfolding wrap_call authenticate authorize
  wrap_call-rejected procedure header s s' c h = ground arith

module _ {S A : Type 0} (validate : Bytes → S → Result ApiUser)
    (enforce enforce' : Bytes → Bytes → Bytes → Result Bool) (next : Option ApiUser → Exec S A)
    (rules : List Rule) (law : Enforces rules enforce)
    (law' : Enforces (keep not_sync_rule rules) enforce') where
  same_answer :
      (sub procedure : Bytes)
      → let (resource, action) = extract_resource_and_action procedure in
        enforce sub resource action ≡ enforce' sub resource action
  same_answer sub procedure =
      let (resource, action) = extract_resource_and_action procedure in
      law sub resource action
      ∙ ap ok (
          sym (
            allows-without_sync rules sub resource action
              (extract_resource_and_action-ne-sync procedure)))
      ∙ sym (law' sub resource action)

  authorize-without_sync :
      (user : ApiUser) (procedure : Bytes) (s : S)
      → authorize validate enforce next user procedure s
        ≡ authorize validate enforce' next user procedure s
  unfolding authorize
  authorize-without_sync user procedure s =
      ground (arith, same_answer (codes (role_name user.role)) procedure)

  -- With an enforcer that decides by given rules, every call has the same reply and the same
  -- effect as with an enforcer that knows only those of the rules whose action is not "sync".
  pub wrap_call-without_sync :
      (procedure header : Bytes) (s : S)
      → wrap_call validate enforce next procedure header s
        ≡ wrap_call validate enforce' next procedure header s
  unfolding wrap_call authenticate
  wrap_call-without_sync procedure header s =
      elim (Result-cases (validate (extract_token header) s)) [
        | inl (user, e) ↦ ground (arith, authorize-without_sync user procedure s)
        | inr (e', e) ↦ ground arith
      ]

-- The next role above.
pub data Outranks : Role → Role → Type 0 where
  above_account_admin : Outranks operator_admin account_admin
  above_operator_admin : Outranks admin operator_admin

-- A procedure that the policy opens to a role it opens to the next role above: from account-admin
-- to operator-admin, and from operator-admin to admin.
pub Permits-upwards :
    (upper lower : Role) (procedure : Bytes)
    → Outranks upper lower
    → Permits policy lower procedure
    → Permits policy upper procedure
unfolding role_name
Permits-upwards _ _ procedure above_account_admin h = operator_admin-covers-account_admin _ _ h
Permits-upwards _ _ procedure above_operator_admin h =
    admin-covers-operator_admin _ _ (extract_resource_and_action-ne-sync procedure) h
