-- ===== src/Operators/Cascade.antt =====
-- `DeleteOperator` deletes the users and accounts that it lists, and then the operator.
use nis.Prelude.{◌≡◌, List, [], ◌∷◌, Has, here, there, All, All-of_Has}
use nis.Exec.{
  not_found, ok, err, bind-eq-ok, Exec, then_do, on_ok-ensures, then_do-ensures, on_ok-eq-ok,
  wrapped-eq-ok, wrapped, wrapped_call,
}
use nis.Entities.{Uuid, Time, Account, User}
use nis.Services.{Deps}
use nis.Services.Laws.{DeleteLaws}
use nis.Operators.{
  up_to_10000, delete_users, delete_with_users, delete_accounts, accounts_to_delete,
  delete_operator,
}

-- A deleted operator is not found, and no deletion brings an account into being.
pub record CascadeLaws {S KeyPair : Type 0} (d : Deps S KeyPair) : Type 0 where
  pub get-delete :
      (id : Uuid) (s : S)
      → (d.operators.delete id s).0 ≡ ok tt
      → d.operators.get_by_id id (d.operators.delete id s).1 ≡ err not_found
  pub after-user :
      (id j : Uuid) (s : S)
      → d.accounts.get_by_id id s ≡ err not_found
      → d.accounts.get_by_id id (d.users.delete j s).1 ≡ err not_found
  pub after-account :
      (id j : Uuid) (s : S)
      → d.accounts.get_by_id id s ≡ err not_found
      → d.accounts.get_by_id id (d.accounts.delete j s).1 ≡ err not_found
  pub after-operator :
      (id j : Uuid) (s : S)
      → d.accounts.get_by_id id s ≡ err not_found
      → d.accounts.get_by_id id (d.operators.delete j s).1 ≡ err not_found

module _ {S KeyPair : Type 0} (d : Deps S KeyPair) (now : Time) (laws : DeleteLaws d)
    (cascade : CascadeLaws d) where
  abbrev IsGone : Uuid → S → Type 0
  IsGone id s = d.accounts.get_by_id id s ≡ err not_found

  delete_users-keeps :
      (id : Uuid) (users : List User) (s : S)
      → (delete_users d now users s).0 ≡ ok tt
      → IsGone id s
      → IsGone id (delete_users d now users s).1
  unfolding delete_users
  delete_users-keeps id [] s h gone = gone
  delete_users-keeps id (u ∷ users) s h gone =
      then_do-ensures (IsGone id) (wrapped_call "failed to delete user" (d.users.delete u.id))
        (λ _. delete_users d now users) s h
        λ _ _ h'. delete_users-keeps id users _ h' (cascade.after-user id u.id s gone)

  -- One turn of the loop ends in a deletion of the account.
  delete_with_users-ensures :
      (P : S → Type 0) (a : Account) (s : S)
      → (delete_with_users d now a s).0 ≡ ok tt
      → ((users : List User)
          → (delete_users d now users s).0 ≡ ok tt
          → (d.accounts.delete a.id (delete_users d now users s).1).0 ≡ ok tt
          → P (d.accounts.delete a.id (delete_users d now users s).1).1)
      → P (delete_with_users d now a s).1
  unfolding delete_with_users
  delete_with_users-ensures P a s h k =
      let last = wrapped_call "failed to delete account" (d.accounts.delete a.id) in
      on_ok-ensures P
        (wrapped "failed to list users for account" (d.users.list_by_account a.id up_to_10000 s))
        (λ users. then_do (delete_users d now users) (λ _. last)) s h
        λ users _ h₁.
          then_do-ensures P (delete_users d now users) (λ _. last) s h₁
            λ _ e h₂. k users e (wrapped-eq-ok "failed to delete account" _ h₂)

  delete_with_users-keeps :
      (id : Uuid) (a : Account) (s : S)
      → (delete_with_users d now a s).0 ≡ ok tt
      → IsGone id s
      → IsGone id (delete_with_users d now a s).1
  delete_with_users-keeps id a s h gone =
      delete_with_users-ensures (IsGone id) a s h
        λ users e _. cascade.after-account id a.id _ (delete_users-keeps id users s e gone)

  delete_with_users-IsGone :
      (a : Account) (s : S)
      → (delete_with_users d now a s).0 ≡ ok tt
      → IsGone a.id (delete_with_users d now a s).1
  delete_with_users-IsGone a s h =
      delete_with_users-ensures (IsGone a.id) a s h λ users _ h'. laws.get-delete a.id _ h'

  delete_accounts-keeps :
      (id : Uuid) (accounts : List Account) (s : S)
      → (delete_accounts d now accounts s).0 ≡ ok tt
      → IsGone id s
      → IsGone id (delete_accounts d now accounts s).1
  unfolding delete_accounts
  delete_accounts-keeps id [] s h gone = gone
  delete_accounts-keeps id (a ∷ accounts) s h gone =
      then_do-ensures (IsGone id) (delete_with_users d now a) (λ _. delete_accounts d now accounts)
        s h λ u e h₁. delete_accounts-keeps id accounts _ h₁ (delete_with_users-keeps id a s e gone)

  delete_accounts-IsGone :
      (a : Account) (accounts : List Account) (s : S)
      → Has a accounts
      → (delete_accounts d now accounts s).0 ≡ ok tt
      → IsGone a.id (delete_accounts d now accounts s).1
  unfolding delete_accounts
  delete_accounts-IsGone a _ s (here {xs = accounts}) h =
      then_do-ensures (IsGone a.id) (delete_with_users d now a)
        (λ _. delete_accounts d now accounts) s h
        λ u e h₁. delete_accounts-keeps a.id accounts _ h₁ (delete_with_users-IsGone a s e)
  delete_accounts-IsGone a _ s (there {x = b} {xs = accounts} m) h =
      then_do-ensures (IsGone a.id) (delete_with_users d now b)
        (λ _. delete_accounts d now accounts) s h λ u e h₁. delete_accounts-IsGone a accounts _ m h₁

  -- On a repository with `DeleteLaws` and `CascadeLaws`, a deletion of an operator that succeeds
  -- has listed at most 10000 accounts of it, and afterwards neither the operator nor any of these
  -- accounts is found.
  pub delete_operator-empties :
      (id : Uuid) (s : S)
      → (delete_operator d now id s).0 ≡ ok tt
      → (accounts : List Account) × (d.accounts.list_by_operator id up_to_10000 s ≡ ok accounts)
        × (d.operators.get_by_id id (delete_operator d now id s).1 ≡ err not_found)
        × All (λ a. IsGone a.id (delete_operator d now id s).1) accounts
  unfolding delete_operator accounts_to_delete
  delete_operator-empties id s h =
      let (accounts, listed, h₁) = on_ok-eq-ok (accounts_to_delete d now id s) _ s h in
      let (o, found, listed') = bind-eq-ok (d.operators.get_by_id id s) _ listed in
      let m = delete_accounts d now accounts in
      let last : Unit {0} → Exec S (Unit {0}) = λ _. d.operators.delete id in
      (
        accounts,
        wrapped-eq-ok "failed to list accounts for deletion" _ listed',
        rw listed (
            then_do-ensures (λ x. d.operators.get_by_id id x ≡ err not_found) m last s h₁
              λ _ _ h₂. cascade.get-delete id _ h₂),
        All-of_Has accounts λ a has. rw listed (
            then_do-ensures (IsGone a.id) m last s h₁ λ _ e _.
              cascade.after-operator a.id id _ (delete_accounts-IsGone a accounts s has e)),
      )
