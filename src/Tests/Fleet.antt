-- ===== src/Tests/Fleet.antt =====
-- A cluster with its resolver.
use nis.Prelude.{
  String, ◌≡◌, refl, ◌≢◌, ◌∙◌, sym, true, false, Bool-cases, inl, inr, none, List, [], ◌∷◌, ◌++◌,
  codes, str_eq, if◌then◌else◌,
}
use nis.Exec.{Error, message, ok, err, ok-injective}
use nis.Entities.{Uuid, Account, User, Cluster}
use nis.Text.{Bytes, bytes_eq}
use nis.Text.Laws.{bytes_eq_iff}
use nis.Jwt.{Encryptor, generate_creds_file, get_user_credentials}
use nis.Services.{Deps}
use nis.Nats
use nis.Nats.{NatsLibrary, Json, parse_creds_content}
use nis.Nats.Creds.{IsSolid, parse_creds-generate}
use nis.Clusters
use nis.Clusters.{SyncResult}
use nis.Clusters.Manage
use nis.Clusters.Resolve
use nis.Clusters.Credentials.{
  EncryptorLaws, ClusterLaws, open_managed_cluster-updated, get_cluster_credentials-update,
}
use nis.Clusters.Health.{IsProbed, check_cluster_health-IsProbed}
use nis.Tests.Table.{find-id, find-update_row}
use nis.Tests.World.{World, world, deps, cluster_table, account_of, bob}

abbrev pub carol : User
carol = record bob {
  id = 50;
  account_id = 9;
  name = "system";
  encrypted_seed = "SUCAROL";
  jwt = "UCAROLJWT";
  scoped_signing_key_id = none;
}

abbrev pub seed : Bytes
seed = codes "SUCAROL"

IsSolid-jwt : IsSolid (codes "UCAROLJWT")
unfolding Nats.is_whitespace
IsSolid-jwt = (refl, (refl, (refl, (refl, (refl, (refl, (refl, (refl, (refl, tt)))))))))

IsSolid-seed : IsSolid seed
unfolding Nats.is_whitespace
IsSolid-seed = (refl, (refl, (refl, (refl, (refl, (refl, (refl, tt)))))))

jwt_given : codes "UCAROLJWT" ≢ []
jwt_given e = cc e

seed_given : seed ≢ []
seed_given e = cc e

parse_creds-generate_example :
    parse_creds_content (generate_creds_file carol seed) ≡ ok (codes "UCAROLJWT", seed)
parse_creds-generate_example =
    parse_creds-generate carol seed jwt_given seed_given IsSolid-jwt IsSolid-seed

-- An encryptor that knows two texts; what it cannot find stands for itself.
abbrev vault : Encryptor
vault = record {
  encrypt = λ plain.
      if bytes_eq plain (generate_creds_file carol seed)
      then ok "sealed"
      else err (message "vault is full");
  decrypt = λ text.
      if str_eq text "sealed"
      then ok (generate_creds_file carol seed)
      else (if str_eq text "open" then ok [] else ok (codes text));
}

vault-seals :
    (plain : Bytes) (ref : String)
    → vault.encrypt plain ≡ ok ref
    → (plain ≡ generate_creds_file carol seed) × (ref ≡ "sealed")
vault-seals plain ref h = elim (Bool-cases (bytes_eq plain (generate_creds_file carol seed))) [
  | inl e ↦ ((bytes_eq_iff plain _).0 e, sym (ok-injective (rw e at h)))
  | inr e ↦ absurd (cc (rw e at h))
]

vault_laws : EncryptorLaws vault
vault_laws = record {
  decrypt-encrypt =
      λ plain ref h. let (file, same) = vault-seals plain ref h in rw (same, file) refl;
  encrypt-given = λ plain ref h e. let (file, same) = vault-seals plain ref h in cc (sym same ∙ e);
}

cluster_laws : ClusterLaws cluster_table
cluster_laws = record {
  get-id = λ id s c h. find-id (λ c. c.id) id s.clusters c h;
  get-update = λ c s h. (c.created_at, c.updated_at, find-update_row (λ c. c.id) c s.clusters h);
}

abbrev pub sealed_deps : Deps World Bytes
sealed_deps = record deps { encryptor = vault }

abbrev keys_text : List Bytes → Bytes
keys_text [] = []
keys_text (k ∷ keys) = k ++ 10 ∷ keys_text keys

-- Every server answers with the one resolver.
abbrev pub library : NatsLibrary World (Unit {0})
library = record {
  connect = λ url options s. (ok tt, s);
  is_connected = λ nc s. true;
  is_closed = λ nc s. false;
  request = λ nc subject payload s.
      if bytes_eq subject (codes "$SYS.REQ.CLAIMS.LIST")
      then (ok (keys_text s.resolver), s)
      else (ok (codes "+OK"), s);
  publish = λ nc subject payload s. (ok tt, s);
  close = λ nc s. s;
}

abbrev pub json : Json
json = record {
  decode_claims_list = λ text. err (message "invalid JSON");
  decode_error = λ text. err (message "invalid JSON");
}

abbrev cluster_with : String → Cluster
cluster_with creds = record {
  id = 70;
  name = "main";
  description = "";
  server_urls = "nats://a:4222" ∷ [];
  operator_id = 1;
  system_account_pub_key = "ASYS";
  encrypted_creds = creds;
  skip_verify_tls = true;
  healthy = false;
  last_health_check = none;
  health_check_error = "";
  created_at = 0;
  updated_at = 0;
}

abbrev signed : Uuid → String → String → Account
signed id name key = record (account_of id name key) { jwt = "signed" }

abbrev pub fleet : String → World
fleet creds = record world {
  accounts = signed 9 "SYS" "ASYS" ∷ signed 10 "orders" "AORD" ∷ [];
  users = carol ∷ [];
  clusters = cluster_with creds ∷ [];
  resolver = codes "AORD" ∷ codes "ASTALE" ∷ codes "ASYS" ∷ [];
}

abbrev pruned : SyncResult
pruned = record {
  accounts = "SYS" ∷ "orders" ∷ [];
  accounts_added = 0;
  accounts_removed = 1;
  accounts_updated = 2;
  removed_accounts = codes "ASTALE" ∷ [];
  errors = [];
}

-- The text of every error.
abbrev error_text : Error → String
error_text e = "error"

checks :
    (Resolve.check_cluster_health sealed_deps cluster_table library json 5 error_text 70
      (fleet "open")).0
    ≡ ok tt
unfolding Resolve.check_cluster_health Resolve.probe Resolve.with_health Resolve.with_client
    Manage.open_managed_cluster Manage.managed_cluster Nats.new_client_from_creds
    Nats.credentials_of Nats.close
checks = refl

check_cluster_health-IsProbed_example :
    (before : Cluster) × (saved : Cluster) × (cluster_table.get_by_id 70 (fleet "open") ≡ ok before)
    × IsProbed sealed_deps cluster_table library json 5 error_text 70 (fleet "open") before saved
    × (let s' =
          (Resolve.probe sealed_deps cluster_table library json 5 before 70 (fleet "open")).1 in
        ((cluster_table.update saved s').0 ≡ ok tt)
        × ((Resolve.check_cluster_health sealed_deps cluster_table library json 5 error_text 70
              (fleet "open")).1
            ≡ (cluster_table.update saved s').1))
check_cluster_health-IsProbed_example =
    check_cluster_health-IsProbed sealed_deps cluster_table library json 5 error_text 70
      (fleet "open") checks

abbrev stored : Cluster
stored = record (cluster_with "sealed") { updated_at = 5 }

updates :
    (Manage.update_cluster_credentials sealed_deps cluster_table 5 70 50 (fleet "")).0 ≡ ok stored
unfolding Manage.update_cluster_credentials Manage.with_credentials Manage.save_cluster
    get_user_credentials generate_creds_file bytes_eq
updates = refl

abbrev updated_fleet : World
updated_fleet = (Manage.update_cluster_credentials sealed_deps cluster_table 5 70 50 (fleet "")).1

get_cluster_credentials-update_example :
    (user : User) × (bytes : Bytes) × (sealed_deps.users.get_by_id 50 (fleet "") ≡ ok user)
    × (vault.decrypt user.encrypted_seed ≡ ok bytes)
    × (Manage.get_cluster_credentials sealed_deps cluster_table 5 70 updated_fleet
        ≡ ok (generate_creds_file user bytes))
get_cluster_credentials-update_example =
    get_cluster_credentials-update sealed_deps cluster_table 5 vault_laws cluster_laws 70 50
      (fleet "") stored updates

open_managed_cluster-updated_example :
    (opened : Cluster) × (cluster_table.get_by_id 70 updated_fleet ≡ ok opened)
    × (Manage.open_managed_cluster sealed_deps cluster_table 5 library json 70 updated_fleet
        ≡ (ok (tt, opened), updated_fleet))
open_managed_cluster-updated_example =
    open_managed_cluster-updated sealed_deps cluster_table 5 vault_laws cluster_laws library json 70
      50 (fleet "") updated_fleet stored carol seed "nats://a:4222" [] tt updates refl refl refl
      (jwt_given, IsSolid-jwt) (seed_given, IsSolid-seed) refl
