-- ===== src/Transfer.antt =====
-- internal/application/services/export_service.go: the export and import of an operator with all that
-- belongs to it. The archives of NSC are not modelled. The package encoding/json is the parameter
-- `ExportJson`.
pub mod Import
pub mod Secrets
pub mod Complete
pub mod Extends
pub mod RoundTrip
pub mod Restored
use nis.Prelude.{ℕ, String, Bool, Option, none, some, List, [], ◌∷◌, ◌++◌, map, if◌then◌else◌}
use nis.Exec.{message, Result, ok, err, ◌>>=◌, ◌>>◌, wrapped}
use nis.Entities.{ℤ, Uuid, Time, Operator, Account, ScopedSigningKey, User, Cluster}
use nis.Repositories.{ClusterRepository}
use nis.Text.{Bytes}
use nis.Services.{Deps}
use nis.Clusters.{no_limit}

pub record ExportedOperatorData : Type 0 where
  pub id : Uuid
  pub name : String
  pub description : String
  pub encrypted_seed : String
  pub public_key : String
  pub jwt : String
  pub system_account_pub_key : String
  pub created_at : Time
  pub updated_at : Time

pub record ExportedAccountData : Type 0 where
  pub id : Uuid
  pub operator_id : Uuid
  pub name : String
  pub description : String
  pub encrypted_seed : String
  pub public_key : String
  pub jwt : String
  pub jet_stream_enabled : Bool
  pub jet_stream_max_memory : ℤ
  pub jet_stream_max_storage : ℤ
  pub jet_stream_max_streams : ℤ
  pub jet_stream_max_consumers : ℤ
  pub created_at : Time
  pub updated_at : Time

pub record ExportedScopedKeyData : Type 0 where
  pub id : Uuid
  pub account_id : Uuid
  pub name : String
  pub description : String
  pub encrypted_seed : String
  pub public_key : String
  pub pub_allow : List String
  pub pub_deny : List String
  pub sub_allow : List String
  pub sub_deny : List String
  pub response_max_msgs : ℤ
  pub response_ttl : ℤ
  pub created_at : Time
  pub updated_at : Time

pub record ExportedUserData : Type 0 where
  pub id : Uuid
  pub account_id : Uuid
  pub name : String
  pub description : String
  pub encrypted_seed : String
  pub public_key : String
  pub jwt : String
  pub scoped_signing_key_id : Option Uuid
  pub created_at : Time
  pub updated_at : Time

pub record ExportedClusterData : Type 0 where
  pub id : Uuid
  pub name : String
  pub description : String
  pub server_urls : List String
  pub operator_id : Uuid
  pub system_account_pub_key : String
  pub encrypted_creds : String
  pub created_at : Time
  pub updated_at : Time

-- A nil pointer to the operator is `none`.
pub record ExportedOperator : Type 0 where
  pub version : String
  pub exported_at : Time
  pub operator : Option ExportedOperatorData
  pub accounts : List ExportedAccountData
  pub scoped_keys : List ExportedScopedKeyData
  pub users : List ExportedUserData
  pub clusters : List ExportedClusterData

pub record ExportJson : Type 0 where
  pub marshal_indent : ExportedOperator → Result Bytes
  pub unmarshal : Bytes → Result ExportedOperator

-- A secret, if secrets are requested, and Go's zero value if not.
unfoldable pub secret : Bool → String → String
secret include_secrets text = if include_secrets then text else ""

unfoldable pub export_operator_data : Bool → Operator → ExportedOperatorData
unfolding secret
export_operator_data include_secrets operator = record {
  id = operator.id;
  name = operator.name;
  description = operator.description;
  encrypted_seed = secret include_secrets operator.encrypted_seed;
  public_key = operator.public_key;
  jwt = operator.jwt;
  system_account_pub_key = operator.system_account_pub_key;
  created_at = operator.created_at;
  updated_at = operator.updated_at;
}

unfoldable pub export_account : Bool → Account → ExportedAccountData
unfolding secret
export_account include_secrets account = record {
  id = account.id;
  operator_id = account.operator_id;
  name = account.name;
  description = account.description;
  encrypted_seed = secret include_secrets account.encrypted_seed;
  public_key = account.public_key;
  jwt = account.jwt;
  jet_stream_enabled = account.jet_stream_enabled;
  jet_stream_max_memory = account.jet_stream_max_memory;
  jet_stream_max_storage = account.jet_stream_max_storage;
  jet_stream_max_streams = account.jet_stream_max_streams;
  jet_stream_max_consumers = account.jet_stream_max_consumers;
  created_at = account.created_at;
  updated_at = account.updated_at;
}

unfoldable pub export_scoped_key : Bool → ScopedSigningKey → ExportedScopedKeyData
unfolding secret
export_scoped_key include_secrets key = record {
  id = key.id;
  account_id = key.account_id;
  name = key.name;
  description = key.description;
  encrypted_seed = secret include_secrets key.encrypted_seed;
  public_key = key.public_key;
  pub_allow = key.pub_allow;
  pub_deny = key.pub_deny;
  sub_allow = key.sub_allow;
  sub_deny = key.sub_deny;
  response_max_msgs = key.response_max_msgs;
  response_ttl = key.response_ttl;
  created_at = key.created_at;
  updated_at = key.updated_at;
}

unfoldable pub export_user : Bool → User → ExportedUserData
unfolding secret
export_user include_secrets user = record {
  id = user.id;
  account_id = user.account_id;
  name = user.name;
  description = user.description;
  encrypted_seed = secret include_secrets user.encrypted_seed;
  public_key = user.public_key;
  jwt = user.jwt;
  scoped_signing_key_id = user.scoped_signing_key_id;
  created_at = user.created_at;
  updated_at = user.updated_at;
}

unfoldable pub export_cluster : Bool → Cluster → ExportedClusterData
unfolding secret
export_cluster include_secrets cluster = record {
  id = cluster.id;
  name = cluster.name;
  description = cluster.description;
  server_urls = cluster.server_urls;
  operator_id = cluster.operator_id;
  system_account_pub_key = cluster.system_account_pub_key;
  encrypted_creds = secret include_secrets cluster.encrypted_creds;
  created_at = cluster.created_at;
  updated_at = cluster.updated_at;
}

-- What the loop over the accounts appends to the three lists.
pub record Parts : Type 0 where
  pub accounts : List ExportedAccountData
  pub scoped_keys : List ExportedScopedKeyData
  pub users : List ExportedUserData

module _ {S KeyPair : Type 0} (d : Deps S KeyPair) (clusters : ClusterRepository S)
    (now : Time) where
  -- The loop over the accounts. Error texts end before the identifiers.
  unfoldable pub export_accounts : Bool → List Account → S → Result Parts
  export_accounts include_secrets [] s = ok (record { accounts = []; scoped_keys = []; users = [] })
  export_accounts include_secrets (a ∷ accounts) s = do
    keys ←
        wrapped "failed to list scoped keys for account "
          (d.scoped_keys.list_by_account a.id no_limit s)
    users ← wrapped "failed to list users for account " (d.users.list_by_account a.id no_limit s)
    rest ← export_accounts include_secrets accounts s
    ok (record {
      accounts = export_account include_secrets a ∷ rest.accounts;
      scoped_keys = map (export_scoped_key include_secrets) keys ++ rest.scoped_keys;
      users = map (export_user include_secrets) users ++ rest.users;
    })

  unfoldable pub export_operator : Uuid → Bool → S → Result ExportedOperator
  export_operator id include_secrets s = do
    operator ← wrapped "failed to get operator" (d.operators.get_by_id id s)
    accounts ← wrapped "failed to list accounts" (d.accounts.list_by_operator id no_limit s)
    parts ← export_accounts include_secrets accounts s
    listed ← wrapped "failed to list clusters" (clusters.list_by_operator id no_limit s)
    ok (record {
      version = "1.0";
      exported_at = now;
      operator = some (export_operator_data include_secrets operator);
      accounts = parts.accounts;
      scoped_keys = parts.scoped_keys;
      users = parts.users;
      clusters = map (export_cluster include_secrets) listed;
    })

  unfoldable pub export_operator_json : ExportJson → Uuid → Bool → S → Result Bytes
  export_operator_json json id include_secrets s = do
    exported ← export_operator id include_secrets s
    wrapped "failed to marshal export" (json.marshal_indent exported)
