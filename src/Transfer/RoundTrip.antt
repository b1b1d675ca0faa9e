-- ===== src/Transfer/RoundTrip.antt =====
-- An export with secrets that is imported under its own identifiers is found again.
use nis.Prelude.{
  Option-cases, inl, inr, not, str_eq, ℕ, String, ◌≡◌, ◌∙◌, ap, false, some, List, [], Has,
}
use nis.Exec.{
  message, fail_if, Exec, ok, bind-eq-ok, on_ok-eq-ok, then_do-ensures, wrapped-eq-ok, ok-injective,
  wrapped_call, then_do,
}
use nis.Entities.{ℤ, Uuid, Time}
use nis.Repositories.{ClusterRepository}
use nis.Services.{Deps}
use nis.Storage.{stored_account, IsWholeSeconds}
use nis.Transfer.Extends.{Extends, Extends-trans, CreateLaws, for_each-Extends, for_each-ensures}
use nis.Transfer.{
  ExportedOperatorData, ExportedAccountData, ExportedScopedKeyData, ExportedUserData,
  ExportedClusterData, ExportedOperator,
}
use nis.Transfer.Import.{
  Numbering, for_each, saving, imported_operator, imported_account, imported_key, imported_user,
  imported_cluster, import_account, import_scoped_key, import_user, import_cluster, import_parts,
  operator_to_import, name_is_new, import_data, import_operator, renew, linked, linked_key,
}

module _ {S KeyPair : Type 0} (d : Deps S KeyPair) (clusters : ClusterRepository S) (now : Time)
    (fresh : ℕ → Uuid) (laws : CreateLaws d clusters) where
  abbrev AccountFound : Uuid → ExportedAccountData → S → Type 0
  AccountFound operator_id a s =
      (created : Time) × (updated : Time) × (d.accounts.get_by_id a.id s
        ≡ ok (record (stored_account (imported_account now a.id operator_id a)) {
          created_at = created;
          updated_at = updated;
        }))

  abbrev KeyFound : ExportedScopedKeyData → S → Type 0
  KeyFound k s =
      (ttl : ℤ) × (created : Time) × (updated : Time) × (IsWholeSeconds k.response_ttl
        → ttl ≡ k.response_ttl)
      × (d.scoped_keys.get_by_id k.id s
          ≡ ok (record (imported_key now k.id k.account_id k) {
            response_ttl = ttl;
            created_at = created;
            updated_at = updated;
          }))

  abbrev UserFound : ExportedUserData → S → Type 0
  UserFound u s =
      (created : Time) × (updated : Time) × (d.users.get_by_id u.id s
        ≡ ok (record (imported_user now u.id u.account_id u.scoped_signing_key_id u) {
          created_at = created;
          updated_at = updated;
        }))

  abbrev ClusterFound : Uuid → ExportedClusterData → S → Type 0
  ClusterFound operator_id c s =
      (created : Time) × (updated : Time) × (clusters.get_by_id c.id s
        ≡ ok (record (imported_cluster now c.id operator_id c) {
          created_at = created;
          updated_at = updated;
        }))

  saving-ensures :
      (P : S → Type 0) (text : String) (create : Exec S (Unit {0})) (n n' : Numbering) (s : S)
      → (saving d clusters now fresh false text create n s).0 ≡ ok n'
      → ((create s).0 ≡ ok tt → P (create s).1)
      → P (saving d clusters now fresh false text create n s).1
  unfolding saving
  saving-ensures P text create n n' s h k =
      then_do-ensures P (wrapped_call text create) (λ _ s'. (ok n, s')) s h
        λ u e _. k (wrapped-eq-ok text (create s).0 e)

  account-ensures :
      (operator_id : Uuid) (P : S → Type 0) (a : ExportedAccountData) (n n' : Numbering) (s : S)
      → (import_account d clusters now fresh false operator_id a n s).0 ≡ ok n'
      → ((d.accounts.create (imported_account now a.id operator_id a) s).0 ≡ ok tt
          → P (d.accounts.create (imported_account now a.id operator_id a) s).1)
      → P (import_account d clusters now fresh false operator_id a n s).1
  unfolding import_account renew
  account-ensures operator_id P a n n' s h k =
      saving-ensures P "failed to create account " _ n n' s h k

  key-ensures :
      (P : S → Type 0) (key : ExportedScopedKeyData) (n n' : Numbering) (s : S)
      → (import_scoped_key d clusters now fresh false key n s).0 ≡ ok n'
      → ((d.scoped_keys.create (imported_key now key.id key.account_id key) s).0 ≡ ok tt
          → P (d.scoped_keys.create (imported_key now key.id key.account_id key) s).1)
      → P (import_scoped_key d clusters now fresh false key n s).1
  unfolding import_scoped_key renew linked
  key-ensures P key n n' s h k = saving-ensures P "failed to create scoped key " _ n n' s h k

  user-ensures :
      (P : S → Type 0) (u : ExportedUserData) (n n' : Numbering) (s : S)
      → (import_user d clusters now fresh false u n s).0 ≡ ok n'
      → ((d.users.create (imported_user now u.id u.account_id u.scoped_signing_key_id u) s).0
            ≡ ok tt
          → P (d.users.create (imported_user now u.id u.account_id u.scoped_signing_key_id u) s).1)
      → P (import_user d clusters now fresh false u n s).1
  unfolding import_user renew linked linked_key
  user-ensures P u n n' s h k = saving-ensures P "failed to create user " _ n n' s h k

  cluster-ensures :
      (operator_id : Uuid) (P : S → Type 0) (c : ExportedClusterData) (n n' : Numbering) (s : S)
      → (import_cluster d clusters now fresh false operator_id c n s).0 ≡ ok n'
      → ((clusters.create (imported_cluster now c.id operator_id c) s).0 ≡ ok tt
          → P (clusters.create (imported_cluster now c.id operator_id c) s).1)
      → P (import_cluster d clusters now fresh false operator_id c n s).1
  unfolding import_cluster renew
  cluster-ensures operator_id P c n n' s h k =
      saving-ensures P "failed to create cluster " _ _ n' s h k

  -- Every exported part is found under its own identifier.
  pub record IsImported (operator_id : Uuid) (exported : ExportedOperator) (s : S) : Type 0 where
    pub accounts :
        (a : ExportedAccountData) → Has a exported.accounts → AccountFound operator_id a s
    pub scoped_keys : (k : ExportedScopedKeyData) → Has k exported.scoped_keys → KeyFound k s
    pub users : (u : ExportedUserData) → Has u exported.users → UserFound u s
    pub imported :
        (c : ExportedClusterData) → Has c exported.clusters → ClusterFound operator_id c s

  abbrev LoopExtends : {X : Type 0} → (X → Numbering → Exec S Numbering) → Type 0
  LoopExtends {X} body =
      (x : X) (n n' : Numbering) (s : S)
      → (body x n s).0 ≡ ok n'
      → Extends d clusters s (body x n s).1

  accounts-extend : (id : Uuid) → LoopExtends (import_account d clusters now fresh false id)
  accounts-extend id a n n' s h =
      account-ensures id (Extends d clusters s) a n n' s h λ e. laws.accounts-Extends _ s e

  keys-extend : LoopExtends (import_scoped_key d clusters now fresh false)
  keys-extend k n n' s h =
      key-ensures (Extends d clusters s) k n n' s h λ e. laws.scoped_keys-Extends _ s e

  users-extend : LoopExtends (import_user d clusters now fresh false)
  users-extend u n n' s h =
      user-ensures (Extends d clusters s) u n n' s h λ e. laws.users-Extends _ s e

  clusters-extend : (id : Uuid) → LoopExtends (import_cluster d clusters now fresh false id)
  clusters-extend id c n n' s h =
      cluster-ensures id (Extends d clusters s) c n n' s h λ e. laws.clusters-Extends _ s e

  accounts_found :
      (id : Uuid) (a : ExportedAccountData) (xs : List ExportedAccountData) (n n' : Numbering)
      (s : S)
      → Has a xs
      → (for_each (import_account d clusters now fresh false id) xs n s).0 ≡ ok n'
      → AccountFound id a (for_each (import_account d clusters now fresh false id) xs n s).1
  unfolding imported_account
  accounts_found id a xs n n' s m h =
      for_each-ensures d clusters (import_account d clusters now fresh false id)
        (accounts-extend id) (AccountFound id)
        (λ x k k' t q.
          account-ensures id (AccountFound id x) x k k' t q
            λ e. laws.account-create (imported_account now x.id id x) t e)
        (λ x t t' ext (c, u, e). (c, u, ext.account_kept _ _ e)) a xs n n' s m h

  keys_found :
      (k : ExportedScopedKeyData) (xs : List ExportedScopedKeyData) (n n' : Numbering) (s : S)
      → Has k xs
      → (for_each (import_scoped_key d clusters now fresh false) xs n s).0 ≡ ok n'
      → KeyFound k (for_each (import_scoped_key d clusters now fresh false) xs n s).1
  unfolding imported_key
  keys_found k xs n n' s m h =
      for_each-ensures d clusters (import_scoped_key d clusters now fresh false) keys-extend
        KeyFound
        (λ x i i' t q.
          key-ensures (KeyFound x) x i i' t q
            λ e. laws.scoped_key-create (imported_key now x.id x.account_id x) t e)
        (λ x t t' ext (ttl, c, u, whole, e). (ttl, c, u, whole, ext.key_kept _ _ e)) k xs n n' s m h

  users_found :
      (u : ExportedUserData) (xs : List ExportedUserData) (n n' : Numbering) (s : S)
      → Has u xs
      → (for_each (import_user d clusters now fresh false) xs n s).0 ≡ ok n'
      → UserFound u (for_each (import_user d clusters now fresh false) xs n s).1
  unfolding imported_user
  users_found u xs n n' s m h =
      for_each-ensures d clusters (import_user d clusters now fresh false) users-extend UserFound
        (λ x i i' t q.
          user-ensures (UserFound x) x i i' t q λ e.
            laws.user-create (imported_user now x.id x.account_id x.scoped_signing_key_id x) t e)
        (λ x t t' ext (c, v, e). (c, v, ext.user_kept _ _ e)) u xs n n' s m h

  clusters_found :
      (id : Uuid) (c : ExportedClusterData) (xs : List ExportedClusterData) (n n' : Numbering)
      (s : S)
      → Has c xs
      → (for_each (import_cluster d clusters now fresh false id) xs n s).0 ≡ ok n'
      → ClusterFound id c (for_each (import_cluster d clusters now fresh false id) xs n s).1
  unfolding imported_cluster
  clusters_found id c xs n n' s m h =
      for_each-ensures d clusters (import_cluster d clusters now fresh false id)
        (clusters-extend id) (ClusterFound id)
        (λ x i i' t q.
          cluster-ensures id (ClusterFound id x) x i i' t q
            λ e. laws.cluster-create (imported_cluster now x.id id x) t e)
        (λ x t t' ext (v, u, e). (v, u, ext.cluster_kept _ _ e)) c xs n n' s m h

  import_parts-IsImported :
      (id : Uuid) (exported : ExportedOperator) (n n' : Numbering) (s : S)
      → (import_parts d clusters now fresh false id exported n s).0 ≡ ok n'
      → IsImported id exported (import_parts d clusters now fresh false id exported n s).1
  unfolding import_parts
  import_parts-IsImported id exported n n' s h =
      let P = IsImported id exported in
      let accounts = import_account d clusters now fresh false id in
      let keys = import_scoped_key d clusters now fresh false in
      let users = import_user d clusters now fresh false in
      let all = import_cluster d clusters now fresh false id in
      then_do-ensures P (for_each accounts exported.accounts n) _ s h λ n₁ e₁ h₁.
        then_do-ensures P (for_each keys exported.scoped_keys n₁) _ _ h₁ λ n₂ e₂ h₂.
          then_do-ensures P (for_each users exported.users n₂) (for_each all exported.clusters) _ h₂
            λ n₃ e₃ h₃.
              let s₁ = (for_each accounts exported.accounts n s).1 in
              let s₂ = (for_each keys exported.scoped_keys n₁ s₁).1 in
              let s₃ = (for_each users exported.users n₂ s₂).1 in
              let s₄ = (for_each all exported.clusters n₃ s₃).1 in
              let x₂ =
                for_each-Extends d clusters keys keys-extend exported.scoped_keys n₁ n₂ s₁ e₂ in
              let x₃ = for_each-Extends d clusters users users-extend exported.users n₂ n₃ s₂ e₃ in
              let x₄ =
                for_each-Extends d clusters all (clusters-extend id) exported.clusters n₃ n' s₃
                  h₃ in
              let from₃ = Extends-trans d clusters s₂ s₃ s₄ x₃ x₄ in
              let from₂ = Extends-trans d clusters s₁ s₂ s₄ x₂ from₃ in
              record {
                accounts = λ a m.
                    let (c, u, e) = accounts_found id a exported.accounts n n₁ s m e₁ in
                    (c, u, from₂.account_kept _ _ e);
                scoped_keys = λ k m.
                    let (ttl, c, u, whole, e) = keys_found k exported.scoped_keys n₁ n₂ s₁ m e₂ in
                    (ttl, c, u, whole, from₃.key_kept _ _ e);
                users = λ v m.
                    let (c, u, e) = users_found v exported.users n₂ n₃ s₂ m e₃ in
                    (c, u, x₄.user_kept _ _ e);
                imported = λ v m. clusters_found id v exported.clusters n₃ n' s₃ m h₃;
              }

  operator_to_import-operator :
      (exported : ExportedOperator) (s : S) (operator : ExportedOperatorData)
      → operator_to_import d clusters now fresh false exported s ≡ ok operator
      → exported.operator ≡ some operator
  unfolding operator_to_import
  operator_to_import-operator exported s operator h =
      let why = message "unsupported export version: " in
      let (_, _, h₁) = bind-eq-ok (fail_if (not (str_eq exported.version "1.0")) why) _ h in
      elim (Option-cases exported.operator) [
        | inl n ↦ absurd (cc (rw n at h₁))
        | inr (o, q) ↦
            let (_, _, h₂) =
              bind-eq-ok (name_is_new (d.operators.get_by_name o.name s)) _ (rw q at h₁) in
            q ∙ ap (λ x. some x) (ok-injective h₂)
      ]

  -- Of an import under the identifiers of the export.
  pub import_operator-IsImported :
      (exported : ExportedOperator) (s : S)
      → (import_operator d clusters now fresh false exported s).0 ≡ ok tt
      → (operator : ExportedOperatorData) × (exported.operator ≡ some operator)
        × IsImported operator.id exported (import_operator d clusters now fresh false exported s).1
  unfolding import_operator import_data renew
  import_operator-IsImported exported s h =
      let (operator, e, h₁) =
        on_ok-eq-ok (operator_to_import d clusters now fresh false exported s) _ s h in
      let save = d.operators.create (imported_operator now operator.id operator) in
      let n : Numbering = record { ids = []; next = 0 } in
      let parts = import_parts d clusters now fresh false operator.id exported n in
      let P = IsImported operator.id exported in
      (
        operator,
        operator_to_import-operator exported s operator e,
        rw e (
            then_do-ensures P (wrapped_call "failed to create operator" save)
              (λ _. then_do parts (λ _ s'. (ok tt, s'))) s h₁
              λ u e₁ h₂.
                then_do-ensures P parts (λ _ s'. (ok tt, s')) _ h₂
                  λ n' e₂ _. import_parts-IsImported operator.id exported n n' _ e₂),
      )
