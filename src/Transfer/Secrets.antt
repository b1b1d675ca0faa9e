-- ===== src/Transfer/Secrets.antt =====
-- An export without secrets holds none.
use nis.Prelude.{◌≡◌, refl, false, some, List, [], ◌∷◌, All, All-map, All-append}
use nis.Exec.{ok, bind-eq-ok, wrapped-bind-eq-ok, ok-injective}
use nis.Entities.{Uuid, Time, Account}
use nis.Repositories.{ClusterRepository}
use nis.Services.{Deps}
use nis.Clusters.{no_limit}
use nis.Transfer.{
  ExportedOperatorData, ExportedAccountData, ExportedScopedKeyData, ExportedUserData,
  ExportedClusterData, ExportedOperator, secret, export_operator_data, export_account,
  export_scoped_key, export_user, export_cluster, Parts, export_accounts, export_operator,
}

-- Every encrypted seed and all encrypted credentials are empty texts.
pub record IsRedacted (exported : ExportedOperator) : Type 0 where
  pub operator_data : ExportedOperatorData
  pub operator : exported.operator ≡ some operator_data
  pub operator_seed : operator_data.encrypted_seed ≡ ""
  pub accounts : All (λ (a : ExportedAccountData). a.encrypted_seed ≡ "") exported.accounts
  pub scoped_keys : All (λ (k : ExportedScopedKeyData). k.encrypted_seed ≡ "") exported.scoped_keys
  pub users : All (λ (u : ExportedUserData). u.encrypted_seed ≡ "") exported.users
  pub clusters : All (λ (c : ExportedClusterData). c.encrypted_creds ≡ "") exported.clusters

record AreRedacted (parts : Parts) : Type 0 where
  accounts : All (λ (a : ExportedAccountData). a.encrypted_seed ≡ "") parts.accounts
  scoped_keys : All (λ (k : ExportedScopedKeyData). k.encrypted_seed ≡ "") parts.scoped_keys
  users : All (λ (u : ExportedUserData). u.encrypted_seed ≡ "") parts.users

module _ {S KeyPair : Type 0} (d : Deps S KeyPair) (clusters : ClusterRepository S)
    (now : Time) where
  export_accounts-AreRedacted :
      (accounts : List Account) (s : S) (parts : Parts)
      → export_accounts d clusters now false accounts s ≡ ok parts
      → AreRedacted parts
  unfolding export_accounts export_account export_scoped_key export_user secret
  export_accounts-AreRedacted [] s parts h =
      rw (← ok-injective h) (record { accounts = tt; scoped_keys = tt; users = tt })
  export_accounts-AreRedacted (a ∷ accounts) s parts h =
      let (keys, _, h₁) =
        wrapped-bind-eq-ok "failed to list scoped keys for account "
          (d.scoped_keys.list_by_account a.id no_limit s) _ h in
      let (users, _, h₂) =
        wrapped-bind-eq-ok "failed to list users for account "
          (d.users.list_by_account a.id no_limit s) _ h₁ in
      let (rest, e, h₃) = bind-eq-ok (export_accounts d clusters now false accounts s) _ h₂ in
      let redacted = export_accounts-AreRedacted accounts s rest e in
      rw (← ok-injective h₃) (record {
        accounts = (refl, redacted.accounts);
        scoped_keys =
            All-append _ _ rest.scoped_keys (All-map (export_scoped_key false) _ keys λ k. refl)
              redacted.scoped_keys;
        users =
            All-append _ _ rest.users (All-map (export_user false) _ users λ u. refl)
              redacted.users;
      })

  -- An export without secrets has an operator, and the encrypted seeds of the operator, of all
  -- accounts, scoped keys and users and the encrypted credentials of all clusters are empty texts
  -- in it.
  pub export_operator-IsRedacted :
      (id : Uuid) (s : S) (exported : ExportedOperator)
      → export_operator d clusters now id false s ≡ ok exported
      → IsRedacted exported
  unfolding export_operator export_operator_data export_cluster secret
  export_operator-IsRedacted id s exported h =
      let (operator, _, h₁) =
        wrapped-bind-eq-ok "failed to get operator" (d.operators.get_by_id id s) _ h in
      let (accounts, _, h₂) =
        wrapped-bind-eq-ok "failed to list accounts" (d.accounts.list_by_operator id no_limit s) _
          h₁ in
      let (parts, e, h₃) = bind-eq-ok (export_accounts d clusters now false accounts s) _ h₂ in
      let (listed, _, h₄) =
        wrapped-bind-eq-ok "failed to list clusters" (clusters.list_by_operator id no_limit s) _
          h₃ in
      let redacted = export_accounts-AreRedacted accounts s parts e in
      rw (← ok-injective h₄) (record {
        operator_data = export_operator_data false operator;
        operator = refl;
        operator_seed = refl;
        accounts = redacted.accounts;
        scoped_keys = redacted.scoped_keys;
        users = redacted.users;
        clusters = All-map (export_cluster false) _ listed λ c. refl;
      })
