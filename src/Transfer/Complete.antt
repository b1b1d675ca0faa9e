-- ===== src/Transfer/Complete.antt =====
-- An export holds all that the repositories list for the operator.
use nis.Prelude.{
  ◌≡◌, refl, Bool, some, List, map, Has, here, there, Has-map, Has-append_left, Has-append_right,
}
use nis.Exec.{ok, bind-eq-ok, wrapped-bind-eq-ok, ok-injective}
use nis.Entities.{Uuid, Time, Operator, Account, ScopedSigningKey, User, Cluster}
use nis.Repositories.{ClusterRepository}
use nis.Services.{Deps}
use nis.Clusters.{no_limit}
use nis.Transfer.{
  ExportedOperator, export_operator_data, export_account, export_scoped_key, export_user,
  export_cluster, Parts, export_accounts, export_operator,
}

module _ {S KeyPair : Type 0} (d : Deps S KeyPair) (clusters : ClusterRepository S) (now : Time)
    (include_secrets : Bool) where
  -- The scoped keys and users that are listed for an account are in the parts.
  record HasParts (a : Account) (s : S) (parts : Parts) : Type 0 where
    pub scoped_keys : List ScopedSigningKey
    pub users : List User
    pub keys_listed : d.scoped_keys.list_by_account a.id no_limit s ≡ ok scoped_keys
    pub users_listed : d.users.list_by_account a.id no_limit s ≡ ok users
    pub account : Has (export_account include_secrets a) parts.accounts
    pub each_key :
        (k : ScopedSigningKey)
        → Has k scoped_keys
        → Has (export_scoped_key include_secrets k) parts.scoped_keys
    pub each_user : (u : User) → Has u users → Has (export_user include_secrets u) parts.users

  export_accounts-HasParts :
      (a : Account) (accounts : List Account) (s : S) (parts : Parts)
      → Has a accounts
      → export_accounts d clusters now include_secrets accounts s ≡ ok parts
      → HasParts a s parts
  unfolding export_accounts
  export_accounts-HasParts a _ s parts (here {xs = accounts}) h =
      let (keys, ek, h₁) =
        wrapped-bind-eq-ok "failed to list scoped keys for account "
          (d.scoped_keys.list_by_account a.id no_limit s) _ h in
      let (users, eu, h₂) =
        wrapped-bind-eq-ok "failed to list users for account "
          (d.users.list_by_account a.id no_limit s) _ h₁ in
      let (rest, e, h₃) =
        bind-eq-ok (export_accounts d clusters now include_secrets accounts s) _ h₂ in
      rw (← ok-injective h₃) (record {
        scoped_keys = keys;
        users = users;
        keys_listed = ek;
        users_listed = eu;
        account = here;
        each_key = λ k m.
            Has-append_left _ _ rest.scoped_keys
              (Has-map (export_scoped_key include_secrets) k keys m);
        each_user =
            λ u m. Has-append_left _ _ rest.users (Has-map (export_user include_secrets) u users m);
      })
  export_accounts-HasParts a _ s parts (there {x = b} {xs = accounts} m) h =
      let (keys, _, h₁) =
        wrapped-bind-eq-ok "failed to list scoped keys for account "
          (d.scoped_keys.list_by_account b.id no_limit s) _ h in
      let (users, _, h₂) =
        wrapped-bind-eq-ok "failed to list users for account "
          (d.users.list_by_account b.id no_limit s) _ h₁ in
      let (rest, e, h₃) =
        bind-eq-ok (export_accounts d clusters now include_secrets accounts s) _ h₂ in
      let has = export_accounts-HasParts a accounts s rest m e in
      rw (← ok-injective h₃) (record {
        scoped_keys = has.scoped_keys;
        users = has.users;
        keys_listed = has.keys_listed;
        users_listed = has.users_listed;
        account = there has.account;
        each_key = λ k q.
            Has-append_right _ (map (export_scoped_key include_secrets) keys) _ (has.each_key k q);
        each_user = λ u q.
            Has-append_right _ (map (export_user include_secrets) users) _ (has.each_user u q);
      })

  -- The same of an export.
  pub record HasPartsOf (a : Account) (s : S) (exported : ExportedOperator) : Type 0 where
    pub scoped_keys : List ScopedSigningKey
    pub users : List User
    pub keys_listed : d.scoped_keys.list_by_account a.id no_limit s ≡ ok scoped_keys
    pub users_listed : d.users.list_by_account a.id no_limit s ≡ ok users
    pub account : Has (export_account include_secrets a) exported.accounts
    pub each_key :
        (k : ScopedSigningKey)
        → Has k scoped_keys
        → Has (export_scoped_key include_secrets k) exported.scoped_keys
    pub each_user : (u : User) → Has u users → Has (export_user include_secrets u) exported.users

  -- What an export holds: the stored operator, and all listed accounts with their scoped keys and
  -- users, and all listed clusters.
  pub record IsComplete (id : Uuid) (s : S) (exported : ExportedOperator) : Type 0 where
    pub operator : Operator
    pub accounts : List Account
    pub listed : List Cluster
    pub found : d.operators.get_by_id id s ≡ ok operator
    pub accounts_listed : d.accounts.list_by_operator id no_limit s ≡ ok accounts
    pub clusters_listed : clusters.list_by_operator id no_limit s ≡ ok listed
    pub operator_data : exported.operator ≡ some (export_operator_data include_secrets operator)
    pub each_account : (a : Account) → Has a accounts → HasPartsOf a s exported
    pub each_cluster :
        (c : Cluster) → Has c listed → Has (export_cluster include_secrets c) exported.clusters

  pub export_operator-IsComplete :
      (id : Uuid) (s : S) (exported : ExportedOperator)
      → export_operator d clusters now id include_secrets s ≡ ok exported
      → IsComplete id s exported
  unfolding export_operator
  export_operator-IsComplete id s exported h =
      let (operator, found, h₁) =
        wrapped-bind-eq-ok "failed to get operator" (d.operators.get_by_id id s) _ h in
      let (accounts, el, h₂) =
        wrapped-bind-eq-ok "failed to list accounts" (d.accounts.list_by_operator id no_limit s) _
          h₁ in
      let (parts, e, h₃) =
        bind-eq-ok (export_accounts d clusters now include_secrets accounts s) _ h₂ in
      let (listed, ec, h₄) =
        wrapped-bind-eq-ok "failed to list clusters" (clusters.list_by_operator id no_limit s) _
          h₃ in
      rw (← ok-injective h₄) (record {
        operator = operator;
        accounts = accounts;
        listed = listed;
        found = found;
        accounts_listed = el;
        clusters_listed = ec;
        operator_data = refl;
        each_account = λ a m.
            let has = export_accounts-HasParts a accounts s parts m e in
            record {
              scoped_keys = has.scoped_keys;
              users = has.users;
              keys_listed = has.keys_listed;
              users_listed = has.users_listed;
              account = has.account;
              each_key = has.each_key;
              each_user = has.each_user;
            };
        each_cluster = λ c m. Has-map (export_cluster include_secrets) c listed m;
      })
