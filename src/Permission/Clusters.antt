-- ===== src/Permission/Clusters.antt =====
-- The checks on operators and on clusters that a scope narrows, of
-- internal/application/services/permission_service.go.
use nis.Prelude.{◌≡◌, ◌≢◌, ◌↔◌, true, some}
use nis.Exec.{Result, ok}
use nis.Entities.{Uuid, Cluster, ApiUser, Role, account_admin}
use nis.Repositories.{AccountRepository}
use nis.Permission.{owns_operator, can_read_operator, can_read_cluster, can_sync_cluster}
use nis.Permission.Scope.{OperatorInScope, owns_operator-iff-OperatorInScope}
use nis.Permission.Access.{unless_owned_iff, above_then_owned}

pub data ClusterCheck : Type 0 where
  read_operator read_cluster sync_cluster : ClusterCheck

-- Account-admins are turned away from the synchronisation.
abbrev pub MayCheckCluster : ClusterCheck → Role → Type 0
MayCheckCluster read_operator r = Unit
MayCheckCluster read_cluster r = Unit
MayCheckCluster sync_cluster r = r ≢ account_admin

module _ {S : Type 0} (accounts : AccountRepository S) where
  -- The check, on a cluster or on its operator.
  abbrev pub cluster_check : ClusterCheck → ApiUser → Cluster → S → Result (Unit {0})
  cluster_check read_operator u cluster s =
      can_read_operator accounts (some u) cluster.operator_id s
  cluster_check read_cluster u cluster s = can_read_cluster accounts (some u) (some cluster) s
  cluster_check sync_cluster u cluster s = can_sync_cluster accounts (some u) cluster s

  in_operator_scope :
      (u : ApiUser) (id : Uuid) (s : S)
      → (owns_operator accounts (some u) id s ≡ ok true) ↔ OperatorInScope accounts s u id
  in_operator_scope u id s = owns_operator-iff-OperatorInScope accounts s u id

  -- For a user who is there, a check on a cluster that is there (read its operator, read it, sync
  -- it) passes exactly if the cluster's operator is in the user's scope and, for the sync, the
  -- role is not account-admin.
  pub cluster_check_iff :
      (c : ClusterCheck) (u : ApiUser) (cluster : Cluster) (s : S)
      → (cluster_check c u cluster s ≡ ok tt)
        ↔ (OperatorInScope accounts s u cluster.operator_id × MayCheckCluster c u.role)
  unfolding can_read_operator can_read_cluster can_sync_cluster
  cluster_check_iff read_operator u cluster s = (
    λ h. ((in_operator_scope u cluster.operator_id s).0 ((unless_owned_iff _ _).0 h), tt),
    λ h. (unless_owned_iff _ _).1 ((in_operator_scope u cluster.operator_id s).1 h.0),
  )
  cluster_check_iff read_cluster u cluster s = (
    λ h. ((in_operator_scope u cluster.operator_id s).0 ((unless_owned_iff _ _).0 h), tt),
    λ h. (unless_owned_iff _ _).1 ((in_operator_scope u cluster.operator_id s).1 h.0),
  )
  cluster_check_iff sync_cluster u cluster s = (
    λ h.
        let (o, r) = (above_then_owned u _ _ _).0 h in
        ((in_operator_scope u cluster.operator_id s).0 o, r),
    λ h. (above_then_owned u _ _ _).1 ((in_operator_scope u cluster.operator_id s).1 h.0, h.1),
  )
