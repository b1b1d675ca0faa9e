-- ===== src/Permission/Filters.antt =====
-- `FilterOperators`, `FilterAccounts` and `FilterUsers` of
-- internal/application/services/permission_service.go.
use nis.Prelude.{
  ◌≡◌, refl, ◌↔◌, Bool, true, inl, inr, Option, some, List, [], ◌∷◌, Has, here, there, Has-keep,
  keep, ap, sym, ◌∙◌, arith,
}
use nis.Exec.{Error, Result, ok, err, bind-eq-ok, bind-eq-err}
use nis.Entities.{Operator, Account, User, ApiUser}
use nis.Repositories.{AccountRepository}
use nis.Permission.{
  or_skip, owns_operator, owns_account, filter_operators, filter_accounts, filter_users,
}
use nis.Permission.Scope.{
  AccountInScope, OperatorInScope, owns_account-iff-AccountInScope,
  owns_operator-iff-OperatorInScope,
}

or_skip_iff : (r : Result Bool) → (or_skip r ≡ true) ↔ (r ≡ ok true)
or_skip_iff (ok b) = (λ h. ap ok h, λ h. ground arith)
or_skip_iff (err e) = (λ h. cc, λ h. cc)

-- Membership in what a loop kept, with its test read as a scope.
kept_iff {ℓ κ} :
    {A : Type ℓ} {Q : Type κ} (p : A → Bool) (r : Result Bool) (x : A) (list : List A)
    → p x ≡ or_skip r
    → ((r ≡ ok true) ↔ Q)
    → Has x (keep p list) ↔ (Has x list × Q)
kept_iff p r x list e q = (
  λ h. let (m, t) = (Has-keep p x list).0 h in (m, q.0 ((or_skip_iff r).0 (sym e ∙ t))),
  λ h. (Has-keep p x list).1 (h.0, e ∙ (or_skip_iff r).1 (q.1 h.1)),
)

module _ {S : Type 0} (accounts : AccountRepository S) (s : S) where
  -- The Boolean tests by which the loops of the source keep an entity.
  abbrev account_kept : Option ApiUser → Account → Bool
  account_kept user a = or_skip (owns_account accounts user a.id s)

  abbrev operator_kept : Option ApiUser → Operator → Bool
  operator_kept user op = or_skip (owns_operator accounts user op.id s)

  abbrev user_kept : Option ApiUser → User → Bool
  user_kept user x = or_skip (owns_account accounts user x.account_id s)

  filter_accounts-keep :
      (user : Option ApiUser) (list out : List Account)
      → filter_accounts accounts user list s ≡ ok out
      → keep (account_kept user) list ≡ out
  unfolding filter_accounts
  filter_accounts-keep user [] out h = ground arith
  filter_accounts-keep user (a ∷ list) out h =
      let (owned, e, h') = bind-eq-ok (owns_account accounts user a.id s) _ h in
      let (rest, e', h'') = bind-eq-ok (filter_accounts accounts user list s) _ h' in
      rw (e, filter_accounts-keep user list rest e') (ground arith)

  filter_operators-keep :
      (user : Option ApiUser) (list out : List Operator)
      → filter_operators accounts user list s ≡ ok out
      → keep (operator_kept user) list ≡ out
  unfolding filter_operators
  filter_operators-keep user [] out h = ground arith
  filter_operators-keep user (a ∷ list) out h =
      let (owned, e, h') = bind-eq-ok (owns_operator accounts user a.id s) _ h in
      let (rest, e', h'') = bind-eq-ok (filter_operators accounts user list s) _ h' in
      rw (e, filter_operators-keep user list rest e') (ground arith)

  filter_users-keep :
      (user : Option ApiUser) (list : List User)
      → filter_users accounts user list s ≡ keep (user_kept user) list
  unfolding filter_users
  filter_users-keep user [] = refl
  filter_users-keep user (x ∷ list) = rw (filter_users-keep user list)

  -- For a user who is there, a list that `FilterAccounts` returns holds exactly those of the
  -- given accounts that are in the user's scope.
  pub filter_accounts_iff :
      (u : ApiUser) (list out : List Account)
      → filter_accounts accounts (some u) list s ≡ ok out
      → (x : Account) → Has x out ↔ (Has x list × AccountInScope accounts s u x.id)
  filter_accounts_iff u list out h x = rw (← filter_accounts-keep (some u) list out h) (
      kept_iff (account_kept (some u)) _ x list refl
        (owns_account-iff-AccountInScope accounts s u x.id))

  -- For a user who is there, a list that `FilterOperators` returns holds exactly those of the
  -- given operators that are in the user's scope.
  pub filter_operators_iff :
      (u : ApiUser) (list out : List Operator)
      → filter_operators accounts (some u) list s ≡ ok out
      → (x : Operator) → Has x out ↔ (Has x list × OperatorInScope accounts s u x.id)
  filter_operators_iff u list out h x = rw (← filter_operators-keep (some u) list out h) (
      kept_iff (operator_kept (some u)) _ x list refl
        (owns_operator-iff-OperatorInScope accounts s u x.id))

  -- For a user who is there, the list that `FilterUsers` returns holds exactly those of the given
  -- NATS users whose account is in the user's scope.
  pub filter_users_iff :
      (u : ApiUser) (list : List User) (x : User)
      → Has x (filter_users accounts (some u) list s)
        ↔ (Has x list × AccountInScope accounts s u x.account_id)
  filter_users_iff u list x = rw filter_users-keep (
      kept_iff (user_kept (some u)) _ x list refl
        (owns_account-iff-AccountInScope accounts s u x.account_id))

  -- For a user who is there, an error of `FilterAccounts` is the error of `ownsAccount` on one of
  -- the given accounts.
  pub filter_accounts-err :
      (u : ApiUser) (list : List Account) (e : Error)
      → filter_accounts accounts (some u) list s ≡ err e
      → (x : Account) × Has x list × (owns_account accounts (some u) x.id s ≡ err e)
  unfolding filter_accounts
  filter_accounts-err u [] e h = cc
  filter_accounts-err u (a ∷ list) e h =
      elim (bind-eq-err (owns_account accounts (some u) a.id s) _ h) [
        | inl q ↦ (a, here, q)
        | inr (b, _, h') ↦ elim (bind-eq-err (filter_accounts accounts (some u) list s) _ h') [
          | inl q ↦ let (x, m, q') = filter_accounts-err u list e q in (x, there m, q')
          | inr (out, _, h'') ↦ cc
        ]
      ]
