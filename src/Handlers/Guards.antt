-- ===== src/Handlers/Guards.antt =====
-- Who gets past the guards of the cluster handlers.
use nis.Prelude.{
  ◌≢◌, Bool-cases, arith, ◌≡◌, refl, ◌∙◌, ap, ◌⊎◌, inl, inr, Bool, Option, none, some,
}
use nis.Exec.{is_not_found, Error, Result, ok, err, Result-cases}
use nis.Entities.{Uuid, Time, Cluster, ApiUser, admin}
use nis.Repositories.{ClusterRepository}
use nis.Text.{Bytes}
use nis.Permission.Scope.{OperatorInScope}
use nis.Permission.Access.{update_operator, delete_operator, admin_check_iff}
use nis.Permission.Clusters.{read_operator, cluster_check_iff}
use nis.Services.{Deps}
use nis.Nats.{NatsLibrary, Json}
use nis.Clusters.Manage
use nis.Handlers.{
  is_already_exists, Reply, reply, repo_err_to_connect, translated, or_refuse, or_translate,
  authed_user, UpdateMessage, may_update, may_delete, on_cluster, update_cluster,
  update_cluster_credentials, delete_cluster, get_cluster_credentials, sync_cluster,
  delete_resolver_account,
}

repo_err-ne-reply : {A : Type 0} (e : Error) (a : A) → repo_err_to_connect e ≢ reply a
unfolding repo_err_to_connect
repo_err-ne-reply e a h = elim (Bool-cases (is_not_found e)) [
  | inl q ↦ cc (rw (repo_err_to_connect, q) at h)
  | inr q ↦ elim (Bool-cases (is_already_exists e)) [
    | inl x ↦ cc (rw (repo_err_to_connect, q, x) at h)
    | inr x ↦ cc (rw (repo_err_to_connect, q, x) at h)
  ]
]

translated-eq-reply : {A : Type 0} (r : Result A) (a : A) → translated r ≡ reply a → r ≡ ok a
unfolding translated
translated-eq-reply (ok x) a h = ap (λ y. ok y) (ground (arith, h))
translated-eq-reply (err e) a h = absurd (repo_err-ne-reply e a h)

-- The handlers that change a cluster or its resolver, with what they read of the message.
pub data WriteCall : Type 0 where
  update : UpdateMessage → WriteCall
  update_credentials : Bytes → Bytes → WriteCall
  delete : Bytes → WriteCall
  sync : Bytes → Bool → WriteCall
  delete_account : Bytes → Bytes → WriteCall

module _ {S KeyPair Conn : Type 0} (d : Deps S KeyPair) (clusters : ClusterRepository S)
    (library : NatsLibrary S Conn) (json : Json) (now : Time) (parse : Bytes → Result Uuid) where
  -- The user and the cluster on which a handler's check has passed.
  pub record HasPassed (user : Option ApiUser) (check : ApiUser → Uuid → S → Result (Unit {0}))
      (text : Bytes) (s : S) : Type 0 where
    pub caller : ApiUser
    pub id : Uuid
    pub cluster : Cluster
    pub authed : user ≡ some caller
    pub parsed : parse text ≡ ok id
    pub found : clusters.get_by_id id s ≡ ok cluster
    pub passed : check caller cluster.operator_id s ≡ ok tt

  on_cluster_cases :
      {B : Type 0} (user : Option ApiUser) (check : ApiUser → Uuid → S → Result (Unit {0}))
      (text : Bytes) (body : Uuid → Cluster → S → Reply B × S) (s : S)
      → ((on_cluster d clusters library json now parse user check text body s).1 ≡ s)
        ⊎ HasPassed user check text s
  unfolding on_cluster authed_user or_refuse or_translate
  on_cluster_cases none check text body s = inl refl
  on_cluster_cases (some u) check text body s = elim (Result-cases (parse text)) [
    | inr (e, q) ↦ inl (rw q refl)
    | inl (id, q) ↦ elim (Result-cases (clusters.get_by_id id s)) [
      | inr (e, f) ↦ inl (rw (q, f) refl)
      | inl (cluster, f) ↦ elim (Result-cases (check u cluster.operator_id s)) [
        | inr (e, p) ↦ inl (rw (q, f, p) refl)
        | inl (_, p) ↦ inr (record {
          caller = u;
          id = id;
          cluster = cluster;
          authed = refl;
          parsed = q;
          found = f;
          passed = p;
        })
      ]
    ]
  ]

  -- The world after a call.
  abbrev pub after : Option ApiUser → WriteCall → S → S
  after user (update msg) s = (update_cluster d clusters library json now parse user msg s).1
  after user (update_credentials text user_text) s =
      (update_cluster_credentials d clusters library json now parse user text user_text s).1
  after user (delete text) s = (delete_cluster d clusters library json now parse user text s).1
  after user (sync text prune) s =
      (sync_cluster d clusters library json now parse user text prune s).1
  after user (delete_account text key) s =
      (delete_resolver_account d clusters library json now parse user text key s).1

  abbrev pub IsAdmin : Option ApiUser → Type 0
  IsAdmin user = (u : ApiUser) × (user ≡ some u) × (u.role ≡ admin)

  abbrev WritesAsAdmin : Option ApiUser → S → S → Type 0
  WritesAsAdmin user s t = (t ≡ s) ⊎ IsAdmin user

  may_update-IsAdmin :
      (user : Option ApiUser) (text : Bytes) (s t : S)
      → (t ≡ s) ⊎ HasPassed user (may_update d clusters library json now parse user) text s
      → WritesAsAdmin user s t
  may_update-IsAdmin user text s t (inl e) = inl e
  may_update-IsAdmin user text s t (inr h) =
      let (u, same, is_admin) =
        (admin_check_iff update_operator (some h.caller) h.cluster.operator_id).0 h.passed in
      inr (u, h.authed ∙ same, is_admin)

  may_delete-IsAdmin :
      (user : Option ApiUser) (text : Bytes) (s t : S)
      → (t ≡ s) ⊎ HasPassed user (may_delete d clusters library json now parse user) text s
      → WritesAsAdmin user s t
  may_delete-IsAdmin user text s t (inl e) = inl e
  may_delete-IsAdmin user text s t (inr h) =
      let (u, same, is_admin) =
        (admin_check_iff delete_operator (some h.caller) h.cluster.operator_id).0 h.passed in
      inr (u, h.authed ∙ same, is_admin)

  -- A call to update a cluster or its credentials, to delete it, to sync it or to delete an
  -- account from its resolver leaves the world as it was, or the request's user is there and has
  -- the role admin.
  pub after-IsAdmin :
      (user : Option ApiUser) (c : WriteCall) (s : S) → (after user c s ≡ s) ⊎ IsAdmin user
  unfolding update_cluster update_cluster_credentials delete_cluster sync_cluster
      delete_resolver_account
  after-IsAdmin user (update msg) s =
      may_update-IsAdmin user msg.id s _ (on_cluster_cases user _ msg.id _ s)
  after-IsAdmin user (update_credentials text user_text) s =
      may_update-IsAdmin user text s _ (on_cluster_cases user _ text _ s)
  after-IsAdmin user (delete text) s =
      may_delete-IsAdmin user text s _ (on_cluster_cases user _ text _ s)
  after-IsAdmin user (sync text prune) s =
      may_update-IsAdmin user text s _ (on_cluster_cases user _ text _ s)
  after-IsAdmin user (delete_account text key) s =
      may_update-IsAdmin user text s _ (on_cluster_cases user _ text _ s)

  on_cluster-eq-reply :
      {B : Type 0} (user : Option ApiUser) (check : ApiUser → Uuid → S → Result (Unit {0}))
      (text : Bytes) (body : Uuid → Cluster → S → Reply B × S) (s : S) (b : B)
      → (on_cluster d clusters library json now parse user check text body s).0 ≡ reply b
      → (h : HasPassed user check text s) × ((body h.id h.cluster s).0 ≡ reply b)
  unfolding on_cluster authed_user or_refuse or_translate repo_err_to_connect
  on_cluster-eq-reply none check text body s b h = cc
  on_cluster-eq-reply (some u) check text body s b h = elim (Result-cases (parse text)) [
    | inr (e, q) ↦ absurd (cc (rw q at h))
    | inl (id, q) ↦ elim (Result-cases (clusters.get_by_id id s)) [
      | inr (e, f) ↦ absurd (repo_err-ne-reply e b (rw (q, f) at h))
      | inl (cluster, f) ↦ elim (Result-cases (check u cluster.operator_id s)) [
        | inr (e, p) ↦ absurd (cc (rw (q, f, p) at h))
        | inl (_, p) ↦ (
          record {
            caller = u;
            id = id;
            cluster = cluster;
            authed = refl;
            parsed = q;
            found = f;
            passed = p;
          },
          rw (q, f, p) at h,
        )
      ]
    ]
  ]

  -- Who has read a cluster's credentials.
  pub record IsRead (user : Option ApiUser) (text : Bytes) (s : S) (creds : Bytes) : Type 0 where
    pub caller : ApiUser
    pub id : Uuid
    pub cluster : Cluster
    pub authed : user ≡ some caller
    pub parsed : parse text ≡ ok id
    pub found : clusters.get_by_id id s ≡ ok cluster
    pub in_scope : OperatorInScope d.accounts s caller cluster.operator_id
    pub credentials : Manage.get_cluster_credentials d clusters now id s ≡ ok creds

  -- Credentials that the handler of `GetClusterCredentials` returns are those that the service
  -- decrypts for a stored cluster, and its operator is in the scope of the request's user.
  pub get_cluster_credentials-IsRead :
      (user : Option ApiUser) (text : Bytes) (s : S) (creds : Bytes)
      → (get_cluster_credentials d clusters library json now parse user text s).0 ≡ reply creds
      → IsRead user text s creds
  unfolding get_cluster_credentials
  get_cluster_credentials-IsRead user text s creds h =
      let (p, read) = on_cluster-eq-reply user _ text _ s creds h in
      record {
        caller = p.caller;
        id = p.id;
        cluster = p.cluster;
        authed = p.authed;
        parsed = p.parsed;
        found = p.found;
        in_scope = ((cluster_check_iff d.accounts read_operator p.caller p.cluster s).0 p.passed).0;
        credentials = translated-eq-reply _ creds read;
      }
