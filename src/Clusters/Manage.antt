-- ===== src/Clusters/Manage.antt =====
-- internal/application/services/cluster_service.go: the stored clusters and their credentials, up to
-- `openManagedCluster`.
use nis.Prelude.{false, ◌==◌, Option, none, some, List, str_eq, if◌then◌else◌}
use nis.Exec.{
  message, Result, ok, err, ◌>>=◌, ◌>>◌, wrapped, fail_if, Exec, on_ok, then_do, wrapped_call,
}
use nis.Entities.{Uuid, Time, Account, User, Cluster}
use nis.Repositories.{ClusterRepository}
use nis.Text.{Bytes}
use nis.Jwt.{get_user_credentials}
use nis.Services.{Deps, name_is_free, name_is_free_for, changes_text, or_old}
use nis.Nats.{NatsLibrary, Json, new_client_from_creds}
use nis.Clusters.{
  CreateRequest, UpdateRequest, no_limit, is_changed, apply_update, find_system_user, is_none,
}

module _ {S KeyPair : Type 0} (d : Deps S KeyPair) (clusters : ClusterRepository S)
    (now : Time) where
  unfoldable pub draft_cluster : CreateRequest → Uuid → Account → Cluster
  draft_cluster req id system_account = record {
    id = id;
    name = req.name;
    description = req.description;
    server_urls = req.server_urls;
    operator_id = req.operator_id;
    system_account_pub_key = system_account.public_key;
    encrypted_creds = "";
    skip_verify_tls = req.skip_verify_tls;
    healthy = false;
    last_health_check = none;
    health_check_error = "";
    created_at = now;
    updated_at = now;
  }

  -- The checks of `CreateCluster`, which find the system account of the operator.
  unfoldable pub check_create : CreateRequest → S → Result Account
  check_create req s = do
    fail_if (str_eq req.name "") (message "cluster name is required")
    fail_if (is_none req.server_urls) (message "at least one server URL is required")
    operator ← wrapped "failed to get operator" (d.operators.get_by_id req.operator_id s)
    fail_if (str_eq operator.system_account_pub_key "")
        (message "operator does not have a system account configured")
    name_is_free "failed to check existing cluster" (clusters.get_by_name req.name s)
    wrapped "failed to get system account"
        (d.accounts.get_by_public_key operator.system_account_pub_key s)

  -- The cluster with the encrypted credentials of a user.
  unfoldable pub with_credentials : Uuid → Uuid → S → Result Cluster
  with_credentials id user_id s = do
    cluster ← clusters.get_by_id id s
    user ← wrapped "failed to get system account user" (d.users.get_by_id user_id s)
    creds ← wrapped "failed to get user credentials" (get_user_credentials d.encryptor user)
    encrypted ← wrapped "failed to encrypt credentials" (d.encryptor.encrypt creds)
    ok (record cluster { encrypted_creds = encrypted; updated_at = now })

  unfoldable pub save_cluster : Cluster → Exec S Cluster
  save_cluster cluster s =
      then_do (wrapped_call "failed to update cluster" (clusters.update cluster))
        (λ _ s'. (ok cluster, s')) s

  unfoldable pub update_cluster_credentials : Uuid → Uuid → Exec S Cluster
  update_cluster_credentials id user_id s = on_ok (with_credentials id user_id s) save_cluster s

  -- The credentials that `CreateCluster` tries to set. Whatever fails is not an error.
  unfoldable pub set_system_user : Uuid → Option User → S → S
  set_system_user cluster_id none s = s
  set_system_user cluster_id (some user) s = (update_cluster_credentials cluster_id user.id s).1

  unfoldable pub set_credentials : Uuid → Result (List User) → S → S
  set_credentials cluster_id (ok users) s = set_system_user cluster_id (find_system_user users) s
  set_credentials cluster_id (err e) s = s

  unfoldable pub create_cluster : Uuid → CreateRequest → Exec S Cluster
  create_cluster id req s =
      on_ok (check_create req s)
        (λ system_account.
          then_do
            (wrapped_call "failed to create cluster"
              (clusters.create (draft_cluster req id system_account)))
            (λ _ s'. (
              ok (draft_cluster req id system_account),
              set_credentials id (d.users.list_by_account system_account.id no_limit s') s',
            )))
        s

  unfoldable pub check_new_name : Uuid → UpdateRequest → Cluster → S → Result (Unit {0})
  check_new_name id req cluster s =
      if changes_text req.name cluster.name
      then name_is_free_for (λ existing. existing.id == id) "failed to check existing cluster"
          (clusters.get_by_name (or_old req.name cluster.name) s)
      else ok tt

  unfoldable pub cluster_to_update : Uuid → UpdateRequest → S → Result Cluster
  cluster_to_update id req s = do
    cluster ← clusters.get_by_id id s
    check_new_name id req cluster s
    ok cluster

  unfoldable pub update_cluster : Uuid → UpdateRequest → Exec S Cluster
  update_cluster id req s =
      on_ok (cluster_to_update id req s)
        (λ cluster.
          if is_changed req cluster
          then save_cluster (apply_update req now cluster)
          else (λ s'. (ok cluster, s')))
        s

  unfoldable pub get_cluster_credentials : Uuid → S → Result Bytes
  get_cluster_credentials id s = do
    cluster ← clusters.get_by_id id s
    fail_if (str_eq cluster.encrypted_creds "")
        (message "cluster has no system account credentials configured")
    wrapped "failed to decrypt credentials" (d.encryptor.decrypt cluster.encrypted_creds)

  unfoldable pub delete_cluster : Uuid → Exec S (Unit {0})
  delete_cluster id s = on_ok (clusters.get_by_id id s) (λ _. clusters.delete id) s

  -- The cluster and its decrypted credentials, with which it is opened.
  unfoldable pub managed_cluster : Uuid → S → Result (Cluster × Bytes)
  managed_cluster id s = do
    cluster ← wrapped "failed to get cluster" (clusters.get_by_id id s)
    fail_if (str_eq cluster.encrypted_creds "")
        (message "cluster has no system account credentials configured")
    creds ← wrapped "failed to decrypt credentials" (d.encryptor.decrypt cluster.encrypted_creds)
    ok (cluster, creds)

  unfoldable pub open_managed_cluster :
      {Conn : Type 0} → NatsLibrary S Conn → Json → Uuid → Exec S (Conn × Cluster)
  open_managed_cluster library json id s =
      on_ok (managed_cluster id s)
        (λ (cluster, creds).
          then_do
            (wrapped_call "failed to connect to NATS cluster" (
              new_client_from_creds library json cluster.server_urls creds cluster.skip_verify_tls))
            (λ nc s'. (ok (nc, cluster), s')))
        s
