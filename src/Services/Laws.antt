-- ===== src/Services/Laws.antt =====
-- What the services rely on of the repositories, as the database provides it.
use nis.Prelude.{◌≡◌}
use nis.Exec.{ok, err, not_found}
use nis.Entities.{Uuid, Time, Account}
use nis.Repositories.{ListOptions}
use nis.Services.{Deps}

-- An update of an account that succeeds is what the next read of the account returns, up to its
-- times, which the database layer stamps; it touches neither operators nor scoped keys. A row is
-- found under its own identifier.
pub record AccountLaws {S KeyPair : Type 0} (d : Deps S KeyPair) : Type 0 where
  pub get-id : (id : Uuid) (s : S) (a : Account) → d.accounts.get_by_id id s ≡ ok a → a.id ≡ id
  pub get-update :
      (a : Account) (s : S)
      → (d.accounts.update a s).0 ≡ ok tt
      → (created : Time) × (updated : Time) × (d.accounts.get_by_id a.id (d.accounts.update a s).1
          ≡ ok (record a { created_at = created; updated_at = updated }))
  pub operators-update :
      (a : Account) (s : S) (id : Uuid)
      → d.operators.get_by_id id (d.accounts.update a s).1 ≡ d.operators.get_by_id id s
  pub scoped_keys-update :
      (a : Account) (s : S) (id : Uuid) (o : ListOptions)
      → d.scoped_keys.list_by_account id o (d.accounts.update a s).1
        ≡ d.scoped_keys.list_by_account id o s

-- An account that was deleted is not found.
pub record DeleteLaws {S KeyPair : Type 0} (d : Deps S KeyPair) : Type 0 where
  pub get-delete :
      (id : Uuid) (s : S)
      → (d.accounts.delete id s).0 ≡ ok tt
      → d.accounts.get_by_id id (d.accounts.delete id s).1 ≡ err not_found
