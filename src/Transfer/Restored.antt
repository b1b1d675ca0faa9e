-- ===== src/Transfer/Restored.antt =====
-- An export with secrets that is imported under its own identifiers restores what it was made from.
use nis.Prelude.{◌≡◌, ap, sym, ◌∙◌, ℕ, true, false, Option, none, some, List, All, All-of_Has}
use nis.Exec.{ok}
use nis.Entities.{ℤ, Uuid, Time, Operator, Account, ScopedSigningKey, User, Cluster}
use nis.Repositories.{ClusterRepository}
use nis.Services.{Deps}
use nis.Storage.{stored_account, IsWholeSeconds}
use nis.Clusters.{no_limit}
use nis.Transfer.{
  ExportedOperatorData, ExportedOperator, secret, export_operator_data, export_account,
  export_scoped_key, export_user, export_cluster, export_operator,
}
use nis.Transfer.Import.{
  imported_account, imported_key, imported_user, imported_cluster, import_operator,
}
use nis.Transfer.Extends.{CreateLaws}
use nis.Transfer.Complete.{HasPartsOf, export_operator-IsComplete}
use nis.Transfer.RoundTrip.{IsImported, import_operator-IsImported}

abbrev id_of : Option ExportedOperatorData → Uuid
id_of none = 0
id_of (some operator) = operator.id

module _ {S KeyPair : Type 0} (d : Deps S KeyPair) (clusters : ClusterRepository S) where
  abbrev pub KeyRestored : S → ScopedSigningKey → Type 0
  KeyRestored t k =
      (ttl : ℤ) × (created : Time) × (updated : Time) × (IsWholeSeconds k.response_ttl
        → ttl ≡ k.response_ttl)
      × (d.scoped_keys.get_by_id k.id t
          ≡ ok (record k { response_ttl = ttl; created_at = created; updated_at = updated }))

  abbrev pub UserRestored : S → User → Type 0
  UserRestored t u =
      (created : Time) × (updated : Time) × (d.users.get_by_id u.id t
        ≡ ok (record u { created_at = created; updated_at = updated }))

  -- An account that was in the world `s` is in `t`, with all that was listed for it.
  pub record AccountRestored (operator_id : Uuid) (s t : S) (a : Account) : Type 0 where
    pub scoped_keys : List ScopedSigningKey
    pub users : List User
    pub keys_listed : d.scoped_keys.list_by_account a.id no_limit s ≡ ok scoped_keys
    pub users_listed : d.users.list_by_account a.id no_limit s ≡ ok users
    pub account :
        (created : Time) × (updated : Time) × (d.accounts.get_by_id a.id t
          ≡ ok (record (stored_account a) {
            operator_id = operator_id;
            created_at = created;
            updated_at = updated;
          }))
    pub each_key : All (KeyRestored t) scoped_keys
    pub each_user : All (UserRestored t) users

  -- A cluster's health and its setting of the TLS verification are those of a new cluster.
  abbrev pub ClusterRestored : Uuid → S → Cluster → Type 0
  ClusterRestored operator_id t c =
      (created : Time) × (updated : Time) × (clusters.get_by_id c.id t
        ≡ ok (record c {
          operator_id = operator_id;
          skip_verify_tls = false;
          healthy = false;
          last_health_check = none;
          health_check_error = "";
          created_at = created;
          updated_at = updated;
        }))

  -- What was listed for the operator in `s` is found in `t`.
  pub record IsRestored (id : Uuid) (s t : S) : Type 0 where
    pub operator : Operator
    pub accounts : List Account
    pub listed : List Cluster
    pub found : d.operators.get_by_id id s ≡ ok operator
    pub accounts_listed : d.accounts.list_by_operator id no_limit s ≡ ok accounts
    pub clusters_listed : clusters.list_by_operator id no_limit s ≡ ok listed
    pub each_account : All (AccountRestored operator.id s t) accounts
    pub each_cluster : All (ClusterRestored operator.id t) listed

  module _ (laws : CreateLaws d clusters) (fresh : ℕ → Uuid) (now later : Time) where
    account-AccountRestored :
        (operator_id : Uuid) (a : Account) (s t : S) (exported : ExportedOperator)
        (parts : HasPartsOf d clusters now true a s exported)
        → IsImported d clusters later fresh laws operator_id exported t
        → AccountRestored operator_id s t a
    unfolding export_account export_scoped_key export_user secret imported_account imported_key
        imported_user
    account-AccountRestored operator_id a s t exported parts imported = record {
      scoped_keys = parts.scoped_keys;
      users = parts.users;
      keys_listed = parts.keys_listed;
      users_listed = parts.users_listed;
      account = imported.accounts (export_account true a) parts.account;
      each_key =
          All-of_Has parts.scoped_keys
            λ k m. imported.scoped_keys (export_scoped_key true k) (parts.each_key k m);
      each_user =
          All-of_Has parts.users λ u m. imported.users (export_user true u) (parts.each_user u m);
    }

    -- On repositories with `CreateLaws`, when what was exported with its secrets from one world
    -- was imported into another one under its own identifiers, each account that is listed for
    -- the operator is found there, up to its times, with the operator's identifier and with -1
    -- for each JetStream limit that is 0; the scoped keys and users that are listed for it are
    -- found as they were up to their times, a key's response TTL if it is in whole seconds; and
    -- every cluster that is listed for the operator is found with the same data but for its
    -- health, and with `SkipVerifyTLS` false.
    pub export_import-IsRestored :
        (id : Uuid) (s t : S) (exported : ExportedOperator)
        → export_operator d clusters now id true s ≡ ok exported
        → (import_operator d clusters later fresh false exported t).0 ≡ ok tt
        → IsRestored id s (import_operator d clusters later fresh false exported t).1
    unfolding export_cluster export_operator_data secret imported_cluster
    export_import-IsRestored id s t exported exports h =
        let whole = export_operator-IsComplete d clusters now true id s exported exports in
        let (data_of, e, imported) =
          import_operator-IsImported d clusters later fresh laws exported t h in
        let same : whole.operator.id ≡ data_of.id = ap id_of (sym whole.operator_data ∙ e) in
        record {
          operator = whole.operator;
          accounts = whole.accounts;
          listed = whole.listed;
          found = whole.found;
          accounts_listed = whole.accounts_listed;
          clusters_listed = whole.clusters_listed;
          each_account = All-of_Has whole.accounts λ a m.
              rw same (
                account-AccountRestored data_of.id a s _ exported (whole.each_account a m)
                  imported);
          each_cluster =
              All-of_Has whole.listed
                λ c m. rw same (imported.imported (export_cluster true c) (whole.each_cluster c m));
        }
