-- ===== src/Entities.antt =====
-- The entities of internal/domain/entities, as records with the source's fields. A uuid.UUID is
-- the number that its 16 bytes spell, of which the code only tests equality; a pointer is an
-- `Option`; a time.Time is opaque to the code modelled here and is a number; Go's signed integers
-- are `ℤ`, since this code copies and compares them and does no arithmetic on them.
mod Roles
pub use Roles.{Role, admin, operator_admin, account_admin, other, role_eq_iff, role_name-role_of}
unfoldable pub use Roles.{role_of, role_name, role_eq, role_is_valid}
use nis.Prelude.{ℕ, String, Bool, Option, List}

abbrev pub Uuid : Type 0
Uuid = ℕ

abbrev pub Time : Type 0
Time = ℕ

-- `negsuc n` is -(n + 1).
pub data ℤ : Type 0 where
  pos : ℕ → ℤ
  negsuc : ℕ → ℤ

-- operator.go
pub record Operator : Type 0 where
  pub id : Uuid
  pub name : String
  pub description : String
  pub encrypted_seed : String
  pub public_key : String
  pub jwt : String
  pub system_account_pub_key : String
  pub created_at : Time
  pub updated_at : Time

-- account.go
pub record Account : Type 0 where
  pub id : Uuid
  pub operator_id : Uuid
  pub name : String
  pub description : String
  pub encrypted_seed : String
  pub public_key : String
  pub jwt : String
  pub jet_stream_enabled : Bool
  pub jet_stream_max_memory : ℤ
  pub jet_stream_max_storage : ℤ
  pub jet_stream_max_streams : ℤ
  pub jet_stream_max_consumers : ℤ
  pub created_at : Time
  pub updated_at : Time

-- scoped_signing_key.go
pub record ScopedSigningKey : Type 0 where
  pub id : Uuid
  pub account_id : Uuid
  pub name : String
  pub description : String
  pub encrypted_seed : String
  pub public_key : String
  pub pub_allow : List String
  pub pub_deny : List String
  pub sub_allow : List String
  pub sub_deny : List String
  pub response_max_msgs : ℤ
  pub response_ttl : ℤ
  pub created_at : Time
  pub updated_at : Time

-- user.go
pub record User : Type 0 where
  pub id : Uuid
  pub account_id : Uuid
  pub name : String
  pub description : String
  pub encrypted_seed : String
  pub public_key : String
  pub jwt : String
  pub scoped_signing_key_id : Option Uuid
  pub created_at : Time
  pub updated_at : Time

-- cluster.go
pub record Cluster : Type 0 where
  pub id : Uuid
  pub name : String
  pub description : String
  pub server_urls : List String
  pub operator_id : Uuid
  pub system_account_pub_key : String
  pub encrypted_creds : String
  pub skip_verify_tls : Bool
  pub healthy : Bool
  pub last_health_check : Option Time
  pub health_check_error : String
  pub created_at : Time
  pub updated_at : Time

-- The struct APIUser of api_user.go
pub record ApiUser : Type 0 where
  pub id : Uuid
  pub username : String
  pub password_hash : String
  pub role : Role
  pub operator_id : Option Uuid
  pub account_id : Option Uuid
  pub created_at : Time
  pub updated_at : Time
