-- ===== src/Transfer/Extends.antt =====
-- What the import relies on of the repositories, and its loops.
use nis.Prelude.{◌≡◌, List, [], ◌∷◌, Has, here, there}
use nis.Exec.{Exec, ok, then_do-ensures}
use nis.Entities.{ℤ, Uuid, Time, Account, ScopedSigningKey, User, Cluster}
use nis.Repositories.{ClusterRepository}
use nis.Services.{Deps}
use nis.Storage.{stored_account, IsWholeSeconds}
use nis.Transfer.Import.{Numbering, for_each}

module _ {S KeyPair : Type 0} (d : Deps S KeyPair) (clusters : ClusterRepository S) where
  -- What was found is still found.
  pub record Extends (s s' : S) : Type 0 where
    pub account_kept :
        (id : Uuid) (a : Account)
        → d.accounts.get_by_id id s ≡ ok a
        → d.accounts.get_by_id id s' ≡ ok a
    pub key_kept :
        (id : Uuid) (k : ScopedSigningKey)
        → d.scoped_keys.get_by_id id s ≡ ok k
        → d.scoped_keys.get_by_id id s' ≡ ok k
    pub user_kept :
        (id : Uuid) (u : User) → d.users.get_by_id id s ≡ ok u → d.users.get_by_id id s' ≡ ok u
    pub cluster_kept :
        (id : Uuid) (c : Cluster) → clusters.get_by_id id s ≡ ok c → clusters.get_by_id id s' ≡ ok c

  -- A row that was inserted is found under its identifier, up to its times, which the database layer
  -- may stamp: an account with the column defaults for its zero limits, and a scoped key with a
  -- response TTL that is its own if that is in whole seconds. An insertion takes no row away.
  pub record CreateLaws : Type 0 where
    pub account-create :
        (a : Account) (s : S)
        → (d.accounts.create a s).0 ≡ ok tt
        → (created : Time) × (updated : Time) × (d.accounts.get_by_id a.id (d.accounts.create a s).1
            ≡ ok (record (stored_account a) { created_at = created; updated_at = updated }))
    pub scoped_key-create :
        (k : ScopedSigningKey) (s : S)
        → (d.scoped_keys.create k s).0 ≡ ok tt
        → (ttl : ℤ) × (created : Time) × (updated : Time) × (IsWholeSeconds k.response_ttl
            → ttl ≡ k.response_ttl)
          × (d.scoped_keys.get_by_id k.id (d.scoped_keys.create k s).1
              ≡ ok (record k { response_ttl = ttl; created_at = created; updated_at = updated }))
    pub user-create :
        (u : User) (s : S)
        → (d.users.create u s).0 ≡ ok tt
        → (created : Time) × (updated : Time) × (d.users.get_by_id u.id (d.users.create u s).1
            ≡ ok (record u { created_at = created; updated_at = updated }))
    pub cluster-create :
        (c : Cluster) (s : S)
        → (clusters.create c s).0 ≡ ok tt
        → (created : Time) × (updated : Time) × (clusters.get_by_id c.id (clusters.create c s).1
            ≡ ok (record c { created_at = created; updated_at = updated }))
    pub accounts-Extends :
        (a : Account) (s : S)
        → (d.accounts.create a s).0 ≡ ok tt
        → Extends s (d.accounts.create a s).1
    pub scoped_keys-Extends :
        (k : ScopedSigningKey) (s : S)
        → (d.scoped_keys.create k s).0 ≡ ok tt
        → Extends s (d.scoped_keys.create k s).1
    pub users-Extends :
        (u : User) (s : S) → (d.users.create u s).0 ≡ ok tt → Extends s (d.users.create u s).1
    pub clusters-Extends :
        (c : Cluster) (s : S) → (clusters.create c s).0 ≡ ok tt → Extends s (clusters.create c s).1

  pub Extends-refl : (s : S) → Extends s s
  Extends-refl s = record {
    account_kept = λ id a e. e;
    key_kept = λ id k e. e;
    user_kept = λ id u e. e;
    cluster_kept = λ id c e. e;
  }

  pub Extends-trans : (s s' s'' : S) → Extends s s' → Extends s' s'' → Extends s s''
  Extends-trans s s' s'' e e' = record {
    account_kept = λ id a h. e'.account_kept id a (e.account_kept id a h);
    key_kept = λ id k h. e'.key_kept id k (e.key_kept id k h);
    user_kept = λ id u h. e'.user_kept id u (e.user_kept id u h);
    cluster_kept = λ id c h. e'.cluster_kept id c (e.cluster_kept id c h);
  }

  -- A loop extends the world, and what its body ensures of an element and every extension keeps is
  -- there at the end.
  module _ {X : Type 0} (body : X → Numbering → Exec S Numbering)
      (extends : (x : X) (n n' : Numbering) (s : S)
        → (body x n s).0 ≡ ok n'
        → Extends s (body x n s).1) where
    pub for_each-Extends :
        (xs : List X) (n n' : Numbering) (s : S)
        → (for_each body xs n s).0 ≡ ok n'
        → Extends s (for_each body xs n s).1
    unfolding for_each
    for_each-Extends [] n n' s h = Extends-refl s
    for_each-Extends (x ∷ xs) n n' s h =
        then_do-ensures (Extends s) (body x n) (for_each body xs) s h
          λ m e h'. Extends-trans s _ _ (extends x n m s e) (for_each-Extends xs m n' _ h')

    pub for_each-ensures :
        (Q : X → S → Type 0)
        → ((x : X) (n n' : Numbering) (s : S) → (body x n s).0 ≡ ok n' → Q x (body x n s).1)
        → ((x : X) (s s' : S) → Extends s s' → Q x s → Q x s')
        → (x : X) (xs : List X) (n n' : Numbering) (s : S) → Has x xs
        → (for_each body xs n s).0 ≡ ok n'
        → Q x (for_each body xs n s).1
    unfolding for_each
    for_each-ensures Q ensures keeps x _ n n' s (here {xs}) h =
        then_do-ensures (Q x) (body x n) (for_each body xs) s h
          λ m e h'. keeps x _ _ (for_each-Extends xs m n' _ h') (ensures x n m s e)
    for_each-ensures Q ensures keeps x _ n n' s (there {x = y} {xs} has) h =
        then_do-ensures (Q x) (body y n) (for_each body xs) s h
          λ m e h'. for_each-ensures Q ensures keeps x xs m n' _ has h'
