-- ===== src/Clusters/Sync.antt =====
-- SyncCluster: what it removes from a resolver, and what its result says.
use nis.Prelude.{codes, ◌≡◌, refl, ◌≢◌, Bool, ◌⊎◌, List, Has, All}
use nis.Exec.{Exec, ok, on_ok-eq-ok}
use nis.Entities.{Uuid, Time, Account, Cluster}
use nis.Repositories.{ClusterRepository}
use nis.Text.{Bytes}
use nis.Services.{Deps, up_to_1000}
use nis.Nats.{NatsLibrary, Json, close}
use nis.Clusters.{SyncResult, stale_accounts, empty_result}
use nis.Clusters.Manage.{open_managed_cluster}
use nis.Clusters.Report.{IsStale, IsCounted, IsReported}
use nis.Clusters.Resolve.{with_client, push_accounts, list_for_prune, sync_accounts, sync_cluster}
use nis.Clusters.Prune.{IsPruned}

module _ {S KeyPair Conn : Type 0} (d : Deps S KeyPair) (clusters : ClusterRepository S)
    (library : NatsLibrary S Conn) (json : Json) (now : Time) where
  module _ (prune : Bool) (nc : Conn) (cluster : Cluster) (accounts : List Account) (s : S) where
    abbrev pub synced : SyncResult
    synced = (sync_accounts d clusters library json now prune nc cluster accounts s).0

    abbrev pub listing : (List Bytes × SyncResult) × S
    listing = list_for_prune d clusters library json now prune nc empty_result s

    -- The world once all accounts are pushed, and that after the prune.
    abbrev pub pushing : SyncResult × S
    pushing = push_accounts d clusters library json now nc accounts listing.0.1 listing.1

    abbrev pub stale : List Bytes
    stale = stale_accounts cluster accounts listing.0.0

    -- A stale key that the resolver has listed.
    abbrev pub IsRemovable : Bytes → Type 0
    IsRemovable key = Has key listing.0.0 × IsStale cluster accounts key

    abbrev RemovesStale : SyncResult → Type 0
    RemovesStale result = (key : Bytes) → Has key result.removed_accounts → IsRemovable key

    -- Every key of the resolver that is neither a listed account's nor the system account's is stale.
    abbrev pub AllStale : Type 0
    AllStale =
        (key : Bytes)
        → Has key listing.0.0
        → ((a : Account) → Has a accounts → codes a.public_key ≢ key)
        → key ≢ codes cluster.system_account_pub_key
        → Has key stale

  -- What a sync that succeeded has done: it opened the cluster and listed the accounts of its
  -- operator, and the result reports and counts them, with the keys that were removed.
  pub record IsSynced (id : Uuid) (prune : Bool) (s : S) (result : SyncResult) : Type 0 where
    pub nc : Conn
    pub cluster : Cluster
    pub world : S
    pub accounts : List Account
    pub opened : open_managed_cluster d clusters now library json id s ≡ (ok (nc, cluster), world)
    pub listed : d.accounts.list_by_operator cluster.operator_id up_to_1000 world ≡ ok accounts
    pub counted : IsCounted result
    pub reported : All (λ a. (a.jwt ≡ "") ⊎ IsReported a result) accounts
    pub removed : All (IsStale cluster accounts) result.removed_accounts
    pub removable :
        All (IsRemovable prune nc cluster accounts world) (stale prune nc cluster accounts world)
    pub complete : AllStale prune nc cluster accounts world
    pub after : S
    pub pruned :
        IsPruned d clusters library json now nc cluster
          (stale prune nc cluster accounts world)
          result.removed_accounts
          (pushing prune nc cluster accounts world).1
          after
    pub closed :
        (sync_cluster d clusters library json now id prune s).1 ≡ close library json nc after

  pub with_client-eq-ok :
      {A : Type 0} (id : Uuid) (f : Conn → Cluster → Exec S A) (s : S) (a : A)
      → (with_client d clusters library json now id f s).0 ≡ ok a
      → (nc : Conn) × (cluster : Cluster) × (s' : S) × (open_managed_cluster d clusters now library
            json id s
          ≡ (ok (nc, cluster), s'))
        × ((f nc cluster s').0 ≡ ok a)
  unfolding with_client
  with_client-eq-ok id f s a h =
      let (r, s') = open_managed_cluster d clusters now library json id s in
      let ((nc, cluster), e, h') = on_ok-eq-ok r _ s' h in (nc, cluster, s', rw (← e) refl, h')
