-- ===== src/Clusters.antt =====
-- internal/application/services/cluster_service.go. The methods that only pass a lookup on to the
-- repository are the repository's; logging and metrics are left out. A resolver lives in the world
-- behind the connections of `NatsLibrary`.
pub mod Manage
pub mod Resolve
pub mod Credentials
pub mod Prune
pub mod Push
pub mod Report
pub mod Sync
pub mod Health
use nis.Prelude.{
  ℕ, suc, ◌+◌, String, Bool, true, false, ◌&&◌, ◌||◌, not, ◌==◌, Option, none, some, List, [], ◌∷◌,
  ◌++◌, length, codes, keep, str_eq, if◌then◌else◌,
}
use nis.Exec.{
  Error, message, wrap, Result, ok, err, ◌>>=◌, ◌>>◌, wrapped, fail_if, Exec, on_ok, then_do,
  wrapped_call,
}
use nis.Entities.{Uuid, Time, Operator, Account, User, Cluster}
use nis.Repositories.{ListOptions, ClusterRepository}
use nis.Text.{Bytes, bytes_eq}
use nis.Jwt.{get_user_credentials, generate_delete_claim_jwt}
use nis.Services.{Deps, up_to_1000, name_is_free, name_is_free_for, changes_text, or_old, is_given}
use nis.Nats.{
  NatsLibrary, Json, new_client_from_creds, close, push_account_jwt, delete_account_jwt,
  list_accounts_from_resolver,
}

pub record CreateRequest : Type 0 where
  pub name : String
  pub description : String
  pub server_urls : List String
  pub operator_id : Uuid
  pub system_account_pub_key : String
  pub system_account_user_id : Option Uuid
  pub skip_verify_tls : Bool

-- A nil slice of URLs is `none`.
pub record UpdateRequest : Type 0 where
  pub name : Option String
  pub description : Option String
  pub server_urls : Option (List String)
  pub system_account_pub_key : Option String
  pub skip_verify_tls : Option Bool

-- The formatted text of an error is the error here.
pub record SyncError : Type 0 where
  pub account_public_key : String
  pub account_name : String
  pub error : Error

pub record SyncResult : Type 0 where
  pub accounts : List String
  pub accounts_added : ℕ
  pub accounts_removed : ℕ
  pub accounts_updated : ℕ
  pub removed_accounts : List Bytes
  pub errors : List SyncError

abbrev pub no_limit : ListOptions
no_limit = record { limit = 0; offset = 0 }

changes_flag : Option Bool → Bool → Bool
changes_flag none old = false
changes_flag (some true) old = not old
changes_flag (some false) old = old

-- The flag `updated` of `UpdateCluster`.
unfoldable pub is_changed : UpdateRequest → Cluster → Bool
unfolding changes_flag
is_changed req cluster =
    changes_text req.name cluster.name
    || (changes_text req.description cluster.description
        || (is_given req.server_urls
            || (changes_text req.system_account_pub_key cluster.system_account_pub_key
                || changes_flag req.skip_verify_tls cluster.skip_verify_tls)))

unfoldable pub apply_update : UpdateRequest → Time → Cluster → Cluster
apply_update req now cluster = record cluster {
  name = or_old req.name cluster.name;
  description = or_old req.description cluster.description;
  server_urls = or_old req.server_urls cluster.server_urls;
  system_account_pub_key = or_old req.system_account_pub_key cluster.system_account_pub_key;
  skip_verify_tls = or_old req.skip_verify_tls cluster.skip_verify_tls;
  updated_at = now;
}

-- The first user named "system".
unfoldable pub find_system_user : List User → Option User
find_system_user [] = none
find_system_user (u ∷ users) = if str_eq u.name "system" then some u else find_system_user users

abbrev is_none : {A : Type 0} → List A → Bool
is_none [] = true
is_none (x ∷ xs) = false

-- Whether the map `dbAccountsByPubKey` has the key.
unfoldable pub in_database : Bytes → List Account → Bool
in_database key [] = false
in_database key (a ∷ accounts) = bytes_eq (codes a.public_key) key || in_database key accounts

unfoldable pub is_stale : Cluster → List Account → Bytes → Bool
is_stale cluster accounts key =
    not (in_database key accounts) && not (bytes_eq key (codes cluster.system_account_pub_key))

-- The loop that collects `staleAccounts`.
unfoldable pub stale_accounts : Cluster → List Account → List Bytes → List Bytes
stale_accounts cluster accounts keys = keep (is_stale cluster accounts) keys

abbrev pub empty_result : SyncResult
empty_result = record {
  accounts = [];
  accounts_added = 0;
  accounts_removed = 0;
  accounts_updated = 0;
  removed_accounts = [];
  errors = [];
}

unfoldable pub add_error : String → String → Error → SyncResult → SyncResult
add_error key name e result = record result {
  errors =
      result.errors ++ (record { account_public_key = key; account_name = name; error = e }) ∷ [];
}

-- What one push adds to the result.
unfoldable pub after_push : Account → Result (Unit {0}) → SyncResult → SyncResult
unfolding add_error
after_push a (ok _) result = record result {
  accounts = result.accounts ++ a.name ∷ [];
  accounts_updated = suc result.accounts_updated;
}
after_push a (err e) result = add_error a.public_key a.name (wrap "failed to push JWT" e) result

unfoldable pub all_removed : List Bytes → SyncResult → SyncResult
all_removed stale result = record result {
  removed_accounts = result.removed_accounts ++ stale;
  accounts_removed = result.accounts_removed + length stale;
}

unfoldable pub after_delete : List Bytes → Result (Unit {0}) → SyncResult → SyncResult
unfolding add_error all_removed
after_delete stale (ok _) result = all_removed stale result
after_delete stale (err e) result =
    add_error "" "" (wrap "failed to delete stale accounts" e) result

-- The keys on the resolver, or none and an error in the result.
unfoldable pub after_list : Result (List Bytes) → SyncResult → List Bytes × SyncResult
unfolding add_error
after_list (ok keys) result = (keys, result)
after_list (err e) result = ([], add_error "" "" (wrap "failed to list resolver accounts" e) result)
