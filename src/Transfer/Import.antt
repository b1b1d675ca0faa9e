-- ===== src/Transfer/Import.antt =====
-- internal/application/services/export_service.go: ImportOperator. `fresh n` is the n-th value of
-- `uuid.New()` of a run, and `ids` is the map `idMap`, the newest entry first. What was written before
-- an error stays written.
use nis.Prelude.{
  ℕ, suc, String, Bool, true, false, not, ◌==◌, Option, none, some, List, [], ◌∷◌, str_eq,
  if◌then◌else◌,
}
use nis.Exec.{
  message, runtime_panic, is_not_found, wrap, Result, ok, err, ◌>>=◌, ◌>>◌, wrapped, fail_if, Exec,
  on_ok, then_do, wrapped_call,
}
use nis.Entities.{Uuid, Time, Operator, Account, ScopedSigningKey, User, Cluster}
use nis.Repositories.{ClusterRepository}
use nis.Text.{Bytes}
use nis.Services.{Deps}
use nis.Transfer.{
  ExportedOperatorData, ExportedAccountData, ExportedScopedKeyData, ExportedUserData,
  ExportedClusterData, ExportedOperator, ExportJson,
}

pub record Numbering : Type 0 where
  pub ids : List (Uuid × Uuid)
  pub next : ℕ

unfoldable pub lookup : Uuid → List (Uuid × Uuid) → Option Uuid
lookup id [] = none
lookup id ((old, new) ∷ ids) = if old == id then some new else lookup id ids

or_self : Uuid → Option Uuid → Uuid
or_self id none = id
or_self id (some new) = new

-- The identifier of an imported entity, and the map with it.
unfoldable pub renew : (ℕ → Uuid) → Bool → Uuid → Numbering → Uuid × Numbering
renew fresh true id n =
    (fresh n.next, record { ids = (id, fresh n.next) ∷ n.ids; next = suc n.next })
renew fresh false id n = (id, n)

-- The account that an imported entity names.
unfoldable pub linked : Bool → Numbering → Uuid → Uuid
unfolding or_self
linked true n id = or_self id (lookup id n.ids)
linked false n id = id

-- The scoped key that an imported user names.
unfoldable pub linked_key : Bool → Numbering → Option Uuid → Option Uuid
linked_key true n (some id) = lookup id n.ids
linked_key true n none = none
linked_key false n key_id = key_id

unfoldable pub imported_operator : Time → Uuid → ExportedOperatorData → Operator
imported_operator now id operator = record {
  id = id;
  name = operator.name;
  description = operator.description;
  encrypted_seed = operator.encrypted_seed;
  public_key = operator.public_key;
  jwt = operator.jwt;
  system_account_pub_key = operator.system_account_pub_key;
  created_at = operator.created_at;
  updated_at = now;
}

unfoldable pub imported_account : Time → Uuid → Uuid → ExportedAccountData → Account
imported_account now id operator_id account = record {
  id = id;
  operator_id = operator_id;
  name = account.name;
  description = account.description;
  encrypted_seed = account.encrypted_seed;
  public_key = account.public_key;
  jwt = account.jwt;
  jet_stream_enabled = account.jet_stream_enabled;
  jet_stream_max_memory = account.jet_stream_max_memory;
  jet_stream_max_storage = account.jet_stream_max_storage;
  jet_stream_max_streams = account.jet_stream_max_streams;
  jet_stream_max_consumers = account.jet_stream_max_consumers;
  created_at = account.created_at;
  updated_at = now;
}

unfoldable pub imported_key : Time → Uuid → Uuid → ExportedScopedKeyData → ScopedSigningKey
imported_key now id account_id key = record {
  id = id;
  account_id = account_id;
  name = key.name;
  description = key.description;
  encrypted_seed = key.encrypted_seed;
  public_key = key.public_key;
  pub_allow = key.pub_allow;
  pub_deny = key.pub_deny;
  sub_allow = key.sub_allow;
  sub_deny = key.sub_deny;
  response_max_msgs = key.response_max_msgs;
  response_ttl = key.response_ttl;
  created_at = key.created_at;
  updated_at = now;
}

unfoldable pub imported_user : Time → Uuid → Uuid → Option Uuid → ExportedUserData → User
imported_user now id account_id key_id user = record {
  id = id;
  account_id = account_id;
  name = user.name;
  description = user.description;
  encrypted_seed = user.encrypted_seed;
  public_key = user.public_key;
  jwt = user.jwt;
  scoped_signing_key_id = key_id;
  created_at = user.created_at;
  updated_at = now;
}

unfoldable pub imported_cluster : Time → Uuid → Uuid → ExportedClusterData → Cluster
imported_cluster now id operator_id cluster = record {
  id = id;
  name = cluster.name;
  description = cluster.description;
  server_urls = cluster.server_urls;
  operator_id = operator_id;
  system_account_pub_key = cluster.system_account_pub_key;
  encrypted_creds = cluster.encrypted_creds;
  skip_verify_tls = false;
  healthy = false;
  last_health_check = none;
  health_check_error = "";
  created_at = cluster.created_at;
  updated_at = now;
}

-- A `range` loop that threads the map and ends at the first error.
unfoldable pub for_each :
    {S X : Type 0} → (X → Numbering → Exec S Numbering) → List X → Numbering → Exec S Numbering
for_each body [] n s = (ok n, s)
for_each body (x ∷ xs) n s = then_do (body x n) (λ n'. for_each body xs n') s

-- The test for a free name of `ImportOperator`.
pub name_is_new : Result Operator → Result (Unit {0})
name_is_new (ok existing) = err (message "operator with this name already exists")
name_is_new (err e) =
    if is_not_found e then ok tt else err (wrap "failed to check existing operator" e)

module _ {S KeyPair : Type 0} (d : Deps S KeyPair) (clusters : ClusterRepository S) (now : Time)
    (fresh : ℕ → Uuid) (regenerate_ids : Bool) where
  -- A call of `Create`, after which the loop goes on with the map.
  unfoldable pub saving : String → Exec S (Unit {0}) → Numbering → Exec S Numbering
  saving text create n s = then_do (wrapped_call text create) (λ _ s'. (ok n, s')) s

  unfoldable pub import_account : Uuid → ExportedAccountData → Numbering → Exec S Numbering
  import_account operator_id account n =
      let (id, n') = renew fresh regenerate_ids account.id n in
      saving "failed to create account "
        (d.accounts.create (imported_account now id operator_id account)) n'

  unfoldable pub import_scoped_key : ExportedScopedKeyData → Numbering → Exec S Numbering
  import_scoped_key key n =
      let (id, n') = renew fresh regenerate_ids key.id n in
      saving "failed to create scoped key "
        (d.scoped_keys.create (imported_key now id (linked regenerate_ids n' key.account_id) key))
        n'

  unfoldable pub import_user : ExportedUserData → Numbering → Exec S Numbering
  import_user user n =
      let (id, n') = renew fresh regenerate_ids user.id n in
      saving "failed to create user "
        (d.users.create (
          imported_user now id (linked regenerate_ids n' user.account_id)
            (linked_key regenerate_ids n' user.scoped_signing_key_id) user))
        n'

  -- A new identifier of a cluster is not put into the map.
  unfoldable pub import_cluster : Uuid → ExportedClusterData → Numbering → Exec S Numbering
  import_cluster operator_id cluster n =
      let (id, n') = renew fresh regenerate_ids cluster.id n in
      saving "failed to create cluster "
        (clusters.create (imported_cluster now id operator_id cluster))
        (record n { next = n'.next })

  -- The loops over what belongs to the operator.
  unfoldable pub import_parts : Uuid → ExportedOperator → Numbering → Exec S Numbering
  import_parts operator_id exported n =
      then_do (for_each (import_account operator_id) exported.accounts n) (λ n₁.
        then_do (for_each import_scoped_key exported.scoped_keys n₁) (λ n₂.
          then_do (for_each import_user exported.users n₂)
            (for_each (import_cluster operator_id) exported.clusters)))

  -- The checks, which a missing operator does not survive: its fields are read.
  unfoldable pub operator_to_import : ExportedOperator → S → Result ExportedOperatorData
  unfolding name_is_new
  operator_to_import exported s = do
    fail_if (not (str_eq exported.version "1.0")) (message "unsupported export version: ")
    elim exported.operator [
      | none ↦ err runtime_panic
      | some operator ↦ name_is_new (d.operators.get_by_name operator.name s) >>= λ _. ok operator
    ]

  -- What follows the checks.
  unfoldable pub import_data : ExportedOperator → ExportedOperatorData → Exec S (Unit {0})
  import_data exported operator s =
      let (id, n) = renew fresh regenerate_ids operator.id (record { ids = []; next = 0 }) in
      then_do
        (wrapped_call "failed to create operator"
          (d.operators.create (imported_operator now id operator)))
        (λ _. then_do (import_parts id exported n) (λ _ s'. (ok tt, s'))) s

  unfoldable pub import_operator : ExportedOperator → Exec S (Unit {0})
  import_operator exported s = on_ok (operator_to_import exported s) (import_data exported) s

  unfoldable pub import_operator_json : ExportJson → Bytes → Exec S (Unit {0})
  import_operator_json json text s =
      on_ok (wrapped "failed to unmarshal export" (json.unmarshal text)) import_operator s
