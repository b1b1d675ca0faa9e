-- ===== src/Clusters/Credentials.antt =====
-- What UpdateClusterCredentials stores is what the cluster is opened with.
use nis.Prelude.{
  String, ◌≡◌, refl, ◌≢◌, sym, ◌∙◌, ap, some, List, [], ◌∷◌, codes, false, str_eq, eq_iff,
  Bool-cases, inl, inr,
}
use nis.Exec.{ok, bind-eq-ok, wrapped-bind-eq-ok, on_ok-eq-ok, wrapped-eq-ok, ok-injective, wrapped}
use nis.Entities.{Uuid, Time, User, Cluster}
use nis.Repositories.{ClusterRepository}
use nis.Text.{Bytes, has_prefix}
use nis.Jwt.{Encryptor, get_user_credentials, generate_creds_file}
use nis.Services.{Deps}
use nis.Nats.{
  NatsLibrary, Json, ConnectOptions, section, index_of, find, parse_creds_content, credentials_of,
  new_client_from_creds,
}
use nis.Nats.Creds.{parse_creds-generate}
use nis.Nats.Lines.{IsKey}
use nis.Clusters.Manage.{
  with_credentials, save_cluster, update_cluster_credentials, get_cluster_credentials,
  managed_cluster, open_managed_cluster,
}

-- What was encrypted can be decrypted, and is never the empty text.
pub record EncryptorLaws (encryptor : Encryptor) : Type 0 where
  pub decrypt-encrypt :
      (plain : Bytes) (ref : String)
      → encryptor.encrypt plain ≡ ok ref
      → encryptor.decrypt ref ≡ ok plain
  pub encrypt-given : (plain : Bytes) (ref : String) → encryptor.encrypt plain ≡ ok ref → ref ≢ ""

-- A cluster is found under its own identifier, and a saved one up to its times.
pub record ClusterLaws {S : Type 0} (clusters : ClusterRepository S) : Type 0 where
  pub get-id : (id : Uuid) (s : S) (c : Cluster) → clusters.get_by_id id s ≡ ok c → c.id ≡ id
  pub get-update :
      (c : Cluster) (s : S)
      → (clusters.update c s).0 ≡ ok tt
      → (created : Time) × (updated : Time) × (clusters.get_by_id c.id (clusters.update c s).1
          ≡ ok (record c { created_at = created; updated_at = updated }))

module _ {S KeyPair : Type 0} (d : Deps S KeyPair) (clusters : ClusterRepository S)
    (now : Time) where
  -- What the call has encrypted and saved.
  pub record IsStored (id user_id : Uuid) (s : S) (cluster : Cluster) : Type 0 where
    pub before : Cluster
    pub user : User
    pub seed : Bytes
    pub found : clusters.get_by_id id s ≡ ok before
    pub user_found : d.users.get_by_id user_id s ≡ ok user
    pub decrypted : d.encryptor.decrypt user.encrypted_seed ≡ ok seed
    pub encrypted : d.encryptor.encrypt (generate_creds_file user seed) ≡ ok cluster.encrypted_creds
    pub same_id : cluster.id ≡ before.id
    pub same_urls : cluster.server_urls ≡ before.server_urls
    pub same_tls : cluster.skip_verify_tls ≡ before.skip_verify_tls
    pub saved : (clusters.update cluster s).0 ≡ ok tt
    pub world :
        (update_cluster_credentials d clusters now id user_id s).1 ≡ (clusters.update cluster s).1

  get_user_credentials-eq-ok :
      (user : User) (creds : Bytes)
      → get_user_credentials d.encryptor user ≡ ok creds
      → (seed : Bytes) × (d.encryptor.decrypt user.encrypted_seed ≡ ok seed)
        × (generate_creds_file user seed ≡ creds)
  unfolding get_user_credentials
  get_user_credentials-eq-ok user creds h =
      let (seed, e, h₁) =
        wrapped-bind-eq-ok "failed to decrypt user seed" (d.encryptor.decrypt user.encrypted_seed) _
          h in
      (seed, e, ok-injective h₁)

  save_cluster-eq-ok :
      (c cluster : Cluster) (s : S)
      → (save_cluster d clusters now c s).0 ≡ ok cluster
      → (c ≡ cluster)
        × ((clusters.update c s).0 ≡ ok tt)
        × ((save_cluster d clusters now c s).1 ≡ (clusters.update c s).1)
  unfolding save_cluster
  save_cluster-eq-ok c cluster s h =
      let (r, s₁) = clusters.update c s in
      let (_, e, h₁) = on_ok-eq-ok (wrapped "failed to update cluster" r) _ s₁ h in
      (ok-injective h₁, wrapped-eq-ok "failed to update cluster" r e, rw e refl)

  pub update_cluster_credentials-IsStored :
      (id user_id : Uuid) (s : S) (cluster : Cluster)
      → (update_cluster_credentials d clusters now id user_id s).0 ≡ ok cluster
      → IsStored id user_id s cluster
  unfolding update_cluster_credentials with_credentials
  update_cluster_credentials-IsStored id user_id s cluster h =
      let (c, made, h₁) = on_ok-eq-ok (with_credentials d clusters now id user_id s) _ s h in
      let (same, saved, world) = save_cluster-eq-ok c cluster s h₁ in
      let (before, found, m₁) = bind-eq-ok (clusters.get_by_id id s) _ made in
      let (user, user_found, m₂) =
        wrapped-bind-eq-ok "failed to get system account user" (d.users.get_by_id user_id s) _ m₁ in
      let (creds, got, m₃) =
        wrapped-bind-eq-ok "failed to get user credentials" (get_user_credentials d.encryptor user)
          _ m₂ in
      let (seed, decrypted, file) = get_user_credentials-eq-ok user creds got in
      let (ref, encrypted, m₄) =
        wrapped-bind-eq-ok "failed to encrypt credentials" (d.encryptor.encrypt creds) _ m₃ in
      let fields : record before { encrypted_creds = ref; updated_at = now } ≡ cluster =
        ok-injective m₄ ∙ same in
      record {
        before = before;
        user = user;
        seed = seed;
        found = found;
        user_found = user_found;
        decrypted = decrypted;
        encrypted = rw file (encrypted ∙ ap (λ (x : Cluster). ok x.encrypted_creds) fields);
        same_id = ap (λ (x : Cluster). x.id) (sym fields);
        same_urls = ap (λ (x : Cluster). x.server_urls) (sym fields);
        same_tls = ap (λ (x : Cluster). x.skip_verify_tls) (sym fields);
        saved = ap (λ x. (clusters.update x s).0) (sym same) ∙ saved;
        world = rw made (world ∙ ap (λ x. (clusters.update x s).1) same);
      }

credentials_of-parsed :
    (s jwt seed : Bytes)
    → parse_creds_content s ≡ ok (jwt, seed)
    → credentials_of s ≡ ok (some (jwt, seed))
unfolding credentials_of parse_creds_content section index_of find has_prefix
credentials_of-parsed [] jwt seed h = cc
credentials_of-parsed (c ∷ s) jwt seed h = rw h refl

module _ {S KeyPair : Type 0} (d : Deps S KeyPair) (clusters : ClusterRepository S) (now : Time)
    (sealing : EncryptorLaws d.encryptor) (laws : ClusterLaws clusters) where
  abbrev after : Uuid → Uuid → S → S
  after id user_id s = (update_cluster_credentials d clusters now id user_id s).1

  -- What the next read of the cluster returns.
  get-stored :
      (id user_id : Uuid) (s : S) (cluster : Cluster)
      → IsStored d clusters now id user_id s cluster
      → (created : Time) × (updated : Time) × (clusters.get_by_id id (after id user_id s)
          ≡ ok (record cluster { created_at = created; updated_at = updated }))
  get-stored id user_id s cluster stored =
      let (created, updated, e) = laws.get-update cluster s stored.saved in
      let same : cluster.id ≡ id = stored.same_id ∙ laws.get-id id s stored.before stored.found in
      (
        created,
        updated,
        rw stored.world
            (ap (λ i. clusters.get_by_id i (clusters.update cluster s).1) (sym same) ∙ e),
      )

  is_given : (ref : String) → ref ≢ "" → str_eq ref "" ≡ false
  is_given ref given = elim (Bool-cases (str_eq ref "")) [
    | inl e ↦ absurd (given ((eq_iff ref "").0 e))
    | inr e ↦ e
  ]

  -- With an encryptor that has `EncryptorLaws` and a repository that has `ClusterLaws`, after a
  -- call of `UpdateClusterCredentials` that succeeds, `GetClusterCredentials` returns the
  -- credentials file of the stored user, made of the user's JWT and of its decrypted seed.
  pub get_cluster_credentials-update :
      (id user_id : Uuid) (s : S) (cluster : Cluster)
      → (update_cluster_credentials d clusters now id user_id s).0 ≡ ok cluster
      → (user : User) × (seed : Bytes) × (d.users.get_by_id user_id s ≡ ok user)
        × (d.encryptor.decrypt user.encrypted_seed ≡ ok seed)
        × (get_cluster_credentials d clusters now id (after id user_id s)
            ≡ ok (generate_creds_file user seed))
  unfolding get_cluster_credentials
  get_cluster_credentials-update id user_id s cluster h =
      let stored = update_cluster_credentials-IsStored d clusters now id user_id s cluster h in
      let file = generate_creds_file stored.user stored.seed in
      let (created, updated, found) = get-stored id user_id s cluster stored in
      let given =
        is_given cluster.encrypted_creds
          (sealing.encrypt-given file cluster.encrypted_creds stored.encrypted) in
      (
        stored.user,
        stored.seed,
        stored.user_found,
        stored.decrypted,
        rw (found, given, sealing.decrypt-encrypt file cluster.encrypted_creds stored.encrypted)
            refl,
      )

  managed_cluster-stored :
      (id user_id : Uuid) (s : S) (cluster : Cluster)
      (stored : IsStored d clusters now id user_id s cluster)
      → let (created, updated, found) = get-stored id user_id s cluster stored in
        managed_cluster d clusters now id (after id user_id s)
        ≡ ok (
          record cluster { created_at = created; updated_at = updated },
          generate_creds_file stored.user stored.seed,
        )
  unfolding managed_cluster
  managed_cluster-stored id user_id s cluster stored =
      let file = generate_creds_file stored.user stored.seed in
      let (created, updated, found) = get-stored id user_id s cluster stored in
      let given =
        is_given cluster.encrypted_creds
          (sealing.encrypt-given file cluster.encrypted_creds stored.encrypted) in
      rw (found, given, sealing.decrypt-encrypt file cluster.encrypted_creds stored.encrypted) refl

  -- The options with which a cluster is opened for the system user.
  abbrev pub options_of : Cluster → User → Bytes → ConnectOptions
  options_of cluster user seed = record {
    insecure_skip_verify = cluster.skip_verify_tls;
    user_jwt_and_seed = some (codes user.jwt, seed);
  }

  -- Opening a cluster whose credentials were stored connects with them.
  open_managed_cluster-stored :
      {Conn : Type 0} (library : NatsLibrary S Conn) (json : Json) (id user_id : Uuid) (s s' : S)
      (cluster : Cluster) (stored : IsStored d clusters now id user_id s cluster) (url : String)
      (urls : List String) (nc : Conn)
      → cluster.server_urls ≡ url ∷ urls
      → IsKey (codes stored.user.jwt)
      → IsKey stored.seed
      → library.connect url (options_of cluster stored.user stored.seed) (after id user_id s)
        ≡ (ok nc, s')
      → (opened : Cluster) × (clusters.get_by_id id (after id user_id s) ≡ ok opened)
        × (open_managed_cluster d clusters now library json id (after id user_id s)
            ≡ (ok (nc, opened), s'))
  unfolding open_managed_cluster new_client_from_creds
  open_managed_cluster-stored library json id user_id s s' cluster stored url urls nc first jwt_key
        seed_key connected =
      let (created, updated, found) = get-stored id user_id s cluster stored in
      let opened : Cluster = record cluster { created_at = created; updated_at = updated } in
      let parsed =
        credentials_of-parsed (generate_creds_file stored.user stored.seed) (codes stored.user.jwt)
          stored.seed
          (parse_creds-generate stored.user stored.seed jwt_key.0 seed_key.0 jwt_key.1
            seed_key.1) in
      (
        opened,
        found,
        rw (managed_cluster-stored id user_id s cluster stored, first, parsed, connected) refl,
      )

  -- The user and the seed that were stored are those that can be read.
  stored-eq :
      (id user_id : Uuid) (s : S) (cluster : Cluster) (user : User) (seed : Bytes)
      (stored : IsStored d clusters now id user_id s cluster)
      → d.users.get_by_id user_id s ≡ ok user
      → d.encryptor.decrypt user.encrypted_seed ≡ ok seed
      → (user ≡ stored.user) × (seed ≡ stored.seed)
  stored-eq id user_id s cluster user seed stored user_found decrypted =
      let same_user : user ≡ stored.user = ok-injective (sym user_found ∙ stored.user_found) in
      (
        same_user,
        ok-injective (
            sym decrypted
            ∙ ap (λ (u : User). d.encryptor.decrypt u.encrypted_seed) same_user
            ∙ stored.decrypted),
      )

  -- With an encryptor that has `EncryptorLaws` and a repository that has `ClusterLaws`, after a
  -- call of `UpdateClusterCredentials` that returns a cluster with a first URL, where the user is
  -- found, its seed is decrypted, and its JWT and seed are not empty and without whitespace,
  -- `openManagedCluster` connects to that URL with this JWT and this seed: if this connects, its
  -- client is returned with the cluster that the repository now has, in the world that the
  -- connection has left.
  pub open_managed_cluster-updated :
      {Conn : Type 0} (library : NatsLibrary S Conn) (json : Json) (id user_id : Uuid) (s s' : S)
      (cluster : Cluster) (user : User) (seed : Bytes) (url : String) (urls : List String)
      (nc : Conn)
      → (update_cluster_credentials d clusters now id user_id s).0 ≡ ok cluster
      → cluster.server_urls ≡ url ∷ urls
      → d.users.get_by_id user_id s ≡ ok user
      → d.encryptor.decrypt user.encrypted_seed ≡ ok seed
      → IsKey (codes user.jwt)
      → IsKey seed
      → library.connect url (options_of cluster user seed) (after id user_id s) ≡ (ok nc, s')
      → (opened : Cluster) × (clusters.get_by_id id (after id user_id s) ≡ ok opened)
        × (open_managed_cluster d clusters now library json id (after id user_id s)
            ≡ (ok (nc, opened), s'))
  open_managed_cluster-updated library json id user_id s s' cluster user seed url urls nc updated
        first user_found decrypted jwt_key seed_key connected =
      let stored =
        update_cluster_credentials-IsStored d clusters now id user_id s cluster updated in
      let (same_user, same_seed) =
        stored-eq id user_id s cluster user seed stored user_found decrypted in
      open_managed_cluster-stored library json id user_id s s' cluster stored url urls nc first
        (rw (← same_user) jwt_key) (rw (← same_seed) seed_key)
        (rw (← same_user, ← same_seed) connected)
