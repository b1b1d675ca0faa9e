-- ===== src/Clusters/Resolve.antt =====
-- internal/application/services/cluster_service.go: what is done on a cluster's resolver, and the
-- health checks.
use nis.Prelude.{String, Bool, true, false, some, List, [], ◌∷◌, str_eq, codes, if◌then◌else◌}
use nis.Exec.{
  Error, message, Result, ok, err, ◌>>=◌, ◌>>◌, wrapped, fail_if, Exec, on_ok, then_do,
  wrapped_call,
}
use nis.Entities.{Uuid, Time, Account, Cluster}
use nis.Repositories.{ClusterRepository}
use nis.Text.{Bytes, bytes_eq}
use nis.Jwt.{generate_delete_claim_jwt}
use nis.Services.{Deps, up_to_1000}
use nis.Nats.{
  NatsLibrary, Json, close, push_account_jwt, delete_account_jwt, list_accounts_from_resolver,
}
use nis.Clusters.{
  SyncResult, stale_accounts, empty_result, add_error, after_push, after_delete, after_list,
}
use nis.Clusters.Manage.{open_managed_cluster}

module _ {S KeyPair Conn : Type 0} (d : Deps S KeyPair) (clusters : ClusterRepository S)
    (library : NatsLibrary S Conn) (json : Json) (now : Time) where
  -- Runs with an open client, and closes it at the end.
  unfoldable pub with_client : {A : Type 0} → Uuid → (Conn → Cluster → Exec S A) → Exec S A
  with_client id use_client s =
      then_do (open_managed_cluster d clusters now library json id)
        (λ (nc, cluster) s'.
          let (r, s'') = use_client nc cluster s' in (r, close library json nc s''))
        s

  -- One turn of the loop that pushes; an account without a JWT is skipped.
  unfoldable pub push_turn : Conn → Account → SyncResult → S → SyncResult × S
  push_turn nc a result s =
      if str_eq a.jwt ""
      then (result, s)
      else (let (r, s') = push_account_jwt library json nc a s in (after_push a r result, s'))

  unfoldable pub push_accounts : Conn → List Account → SyncResult → S → SyncResult × S
  push_accounts nc [] result s = (result, s)
  push_accounts nc (a ∷ accounts) result s =
      let (result', s') = push_turn nc a result s in push_accounts nc accounts result' s'

  unfoldable pub list_for_prune : Bool → Conn → SyncResult → S → (List Bytes × SyncResult) × S
  list_for_prune true nc result s =
      let (r, s') = list_accounts_from_resolver library json nc s in (after_list r result, s')
  list_for_prune false nc result s = (([], result), s)

  -- The claim that deletes accounts, signed by the stored operator, with the text of the first error.
  unfoldable pub delete_claim : String → Cluster → List Bytes → S → Result String
  delete_claim text cluster keys s = do
    operator ← wrapped text (d.operators.get_by_id cluster.operator_id s)
    wrapped "failed to generate delete claim JWT"
        (generate_delete_claim_jwt d.encryptor d.nkeys now operator keys)

  -- What `SyncCluster` does with stale accounts, if there are some. Every error ends in the result.
  unfoldable pub remove_stale : Conn → Cluster → List Bytes → SyncResult → S → SyncResult × S
  remove_stale nc cluster [] result s = (result, s)
  remove_stale nc cluster (key ∷ keys) result s =
      elim (delete_claim "failed to get operator for delete claim" cluster (key ∷ keys) s) [
        | err e ↦ (add_error "" "" e result, s)
        | ok jwt ↦
            let (r, s') = delete_account_jwt library json nc (codes jwt) s in
            (after_delete (key ∷ keys) r result, s')
      ]

  -- The body of `SyncCluster` between the listing of the accounts and the end.
  unfoldable pub sync_accounts : Bool → Conn → Cluster → List Account → S → SyncResult × S
  sync_accounts prune nc cluster accounts s =
      let ((keys, listed), s₁) = list_for_prune prune nc empty_result s in
      let (pushed, s₂) = push_accounts nc accounts listed s₁ in
      remove_stale nc cluster (stale_accounts cluster accounts keys) pushed s₂

  unfoldable pub sync_open : Bool → Conn → Cluster → Exec S SyncResult
  sync_open prune nc cluster s =
      on_ok
        (wrapped "failed to list accounts"
          (d.accounts.list_by_operator cluster.operator_id up_to_1000 s))
        (λ accounts s'. let (r, s'') = sync_accounts prune nc cluster accounts s' in (ok r, s'')) s

  unfoldable pub sync_cluster : Uuid → Bool → Exec S SyncResult
  sync_cluster id prune = with_client id (sync_open prune)

  unfoldable pub list_resolver_accounts : Uuid → Exec S (List Bytes)
  list_resolver_accounts id =
      with_client id (λ nc cluster. list_accounts_from_resolver library json nc)

  -- The guard of `DeleteResolverAccount`, and the claim that it sends.
  unfoldable pub checked_claim : Bytes → Cluster → S → Result String
  checked_claim key cluster s = do
    fail_if (bytes_eq key (codes cluster.system_account_pub_key))
        (message "cannot delete system account from resolver")
    delete_claim "failed to get operator" cluster (key ∷ []) s

  unfoldable pub delete_resolver_account : Uuid → Bytes → Exec S (Unit {0})
  delete_resolver_account id key = with_client id (λ nc cluster s.
      on_ok (checked_claim key cluster s) (λ jwt. delete_account_jwt library json nc (codes jwt)) s)

  -- The cluster after a health check; the text of an error is `err.Error()`.
  unfoldable pub with_health : (Error → String) → Result (Unit {0}) → Cluster → Cluster
  with_health error_text (ok _) cluster = record cluster {
    healthy = true;
    last_health_check = some now;
    health_check_error = "";
    updated_at = now;
  }
  with_health error_text (err e) cluster = record cluster {
    healthy = false;
    last_health_check = some now;
    health_check_error = error_text e;
    updated_at = now;
  }

  -- Tries to connect, and closes the connection.
  unfoldable pub probe : Cluster → Uuid → Exec S (Unit {0})
  probe cluster id s =
      if str_eq cluster.encrypted_creds ""
      then (err (message "no credentials configured"), s)
      else with_client id (λ nc opened s'. (ok tt, s')) s

  unfoldable pub check_cluster_health : (Error → String) → Uuid → Exec S (Unit {0})
  check_cluster_health error_text id s =
      on_ok (wrapped "failed to get cluster" (clusters.get_by_id id s))
        (λ cluster s₀.
          let (r, s₁) = probe cluster id s₀ in
          wrapped_call "failed to update cluster health status"
            (clusters.update (with_health error_text r cluster)) s₁)
        s

  -- The loop of `CheckAllClustersHealth`, which ignores the errors of single clusters.
  unfoldable pub check_each : (Error → String) → List Cluster → S → S
  check_each error_text [] s = s
  check_each error_text (c ∷ rest) s =
      check_each error_text rest (check_cluster_health error_text c.id s).1

  unfoldable pub check_all_clusters_health : (Error → String) → Exec S (Unit {0})
  check_all_clusters_health error_text s =
      on_ok (wrapped "failed to list clusters" (clusters.list_all up_to_1000 s))
        (λ listed s'. (ok tt, check_each error_text listed s')) s
