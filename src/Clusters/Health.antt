-- ===== src/Clusters/Health.antt =====
-- Health checks, and the guard of DeleteResolverAccount.
use nis.Prelude.{
  String, Bool, ◌≢◌, ◌≡◌, refl, ◌∙◌, ap, true, false, Bool-cases, inl, inr, some, codes, str_eq,
  eq_iff, arith,
}
use nis.Exec.{Error, message, Exec, ok, err, Result-cases, on_ok-eq-ok, wrapped-eq-ok, wrapped}
use nis.Entities.{Uuid, Time, Cluster}
use nis.Repositories.{ClusterRepository}
use nis.Text.{bytes_eq}
use nis.Text.Laws.{bytes_eq_iff}
use nis.Services.{Deps}
use nis.Nats.{NatsLibrary, Json, close}
use nis.Clusters.Manage.{open_managed_cluster}
use nis.Clusters.Resolve.{
  with_client, checked_claim, delete_resolver_account, with_health, probe, check_cluster_health,
}
use nis.Clusters.Sync.{with_client-eq-ok}

module _ {S KeyPair Conn : Type 0} (d : Deps S KeyPair) (clusters : ClusterRepository S)
    (library : NatsLibrary S Conn) (json : Json) (now : Time) where
  -- Of a cluster that could be opened: the deletion of its system account's key from the resolver is
  -- refused, and the client is closed again with nothing sent.
  pub delete_resolver_account-system :
      (id : Uuid) (s s' : S) (nc : Conn) (cluster : Cluster)
      → open_managed_cluster d clusters now library json id s ≡ (ok (nc, cluster), s')
      → delete_resolver_account d clusters library json now id
          (codes cluster.system_account_pub_key)
          s
        ≡ (err (message "cannot delete system account from resolver"), close library json nc s')
  unfolding delete_resolver_account with_client checked_claim
  delete_resolver_account-system id s s' nc cluster opened =
      let key = codes cluster.system_account_pub_key in
      let e : bytes_eq key key ≡ true = (bytes_eq_iff key key).1 refl in rw (opened, e) refl

  -- The cluster with the outcome of a check, and all else as it was.
  abbrev pub checked : Bool → String → Cluster → Cluster
  checked healthy text cluster = record cluster {
    healthy = healthy;
    last_health_check = some now;
    health_check_error = text;
    updated_at = now;
  }

  -- What is saved for a cluster: it could be opened, or it could not, with the error.
  pub data IsProbed (error_text : Error → String) (id : Uuid) (s : S) (before saved : Cluster)
      : Type 0 where
    healthy :
        (nc : Conn) (opened : Cluster) (s' : S)
        → before.encrypted_creds ≢ ""
        → open_managed_cluster d clusters now library json id s ≡ (ok (nc, opened), s')
        → saved ≡ checked true "" before
        → IsProbed error_text id s before saved
    no_credentials :
        before.encrypted_creds ≡ ""
        → saved ≡ checked false (error_text (message "no credentials configured")) before
        → IsProbed error_text id s before saved
    failed :
        (e : Error)
        → before.encrypted_creds ≢ ""
        → (open_managed_cluster d clusters now library json id s).0 ≡ err e
        → saved ≡ checked false (error_text e) before
        → IsProbed error_text id s before saved

  with_client-eq-err :
      (id : Uuid) (s : S) (e : Error)
      → (with_client d clusters library json now id (λ nc opened s'. (ok (tt {0}), s')) s).0 ≡ err e
      → (open_managed_cluster d clusters now library json id s).0 ≡ err e
  unfolding with_client
  with_client-eq-err id s e h =
      let (r, s') = open_managed_cluster d clusters now library json id s in
      elim (Result-cases r) [
        | inl (a, q) ↦ absurd (cc (rw q at h))
        | inr (why, q) ↦ let same : why ≡ e = ground (arith, rw q at h) in q ∙ ap (λ x. err x) same
      ]

  -- What the probe's outcome says of the cluster that is saved.
  with_health-IsProbed :
      (error_text : Error → String) (id : Uuid) (s : S) (cluster : Cluster)
      → IsProbed error_text id s cluster (
          with_health d clusters library json now error_text
            (probe d clusters library json now cluster id s).0
            cluster)
  unfolding with_health probe
  with_health-IsProbed error_text id s cluster =
      elim (Bool-cases (str_eq cluster.encrypted_creds "")) [
        | inl e ↦ rw e (no_credentials ((eq_iff cluster.encrypted_creds "").0 e) refl)
        | inr e ↦
            let given : cluster.encrypted_creds ≢ "" =
              λ q. ground (arith, eq_iff cluster.encrypted_creds "", e) in
            let use_client : Conn → Cluster → Exec S (Unit {0}) = λ nc opened s'. (ok tt, s') in
            elim (Result-cases (with_client d clusters library json now id use_client s).0) [
              | inl (u, q) ↦
                  let (nc, opened, s', o, _) =
                    with_client-eq-ok d clusters library json now id use_client s u q in
                  rw (e, q) (healthy nc opened s' given o refl)
              | inr (why, q) ↦ rw (e, q) (failed why given (with_client-eq-err id s why q) refl)
            ]
      ]

  -- A health check that succeeds has found the cluster, has tried to open it if it has
  -- credentials, and has saved it last, with only its health, its error text and its times
  -- changed: healthy without an error text if it has credentials and could be opened; unhealthy
  -- with the text of the error, if it could not be opened, or with that of the missing
  -- credentials.
  pub check_cluster_health-IsProbed :
      (error_text : Error → String) (id : Uuid) (s : S)
      → (check_cluster_health d clusters library json now error_text id s).0 ≡ ok tt
      → (before : Cluster) × (saved : Cluster) × (clusters.get_by_id id s ≡ ok before)
        × IsProbed error_text id s before saved
        × (let s' = (probe d clusters library json now before id s).1 in
            ((clusters.update saved s').0 ≡ ok tt)
            × ((check_cluster_health d clusters library json now error_text id s).1
                ≡ (clusters.update saved s').1))
  unfolding check_cluster_health
  check_cluster_health-IsProbed error_text id s h =
      let (cluster, found, h₁) =
        on_ok-eq-ok (wrapped "failed to get cluster" (clusters.get_by_id id s)) _ s h in
      let r = (probe d clusters library json now cluster id s).0 in
      (
        cluster,
        with_health d clusters library json now error_text r cluster,
        wrapped-eq-ok "failed to get cluster" _ found,
        with_health-IsProbed error_text id s cluster,
        (wrapped-eq-ok "failed to update cluster health status" _ h₁, rw found refl),
      )
