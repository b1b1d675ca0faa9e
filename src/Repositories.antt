-- ===== src/Repositories.antt =====
-- The interfaces of internal/domain/repositories. The world `S` is a parameter: it holds the
-- database, and a call that writes returns the new world beside its error. A call that reads
-- leaves the world alone. What the services rely on is stated in the modules below.
use nis.Prelude.{ℕ, String, List}
use nis.Exec.{Result, Exec}
use nis.Entities.{Uuid, Operator, Account, ScopedSigningKey, User, Cluster, ApiUser}

-- errors.go; a limit or an offset of zero or less does not restrict the query
pub record ListOptions : Type 0 where
  pub limit : ℕ
  pub offset : ℕ

-- operator.go
pub record OperatorRepository (S : Type 0) : Type 0 where
  pub create : Operator → Exec S (Unit {0})
  pub get_by_id : Uuid → S → Result Operator
  pub get_by_name : String → S → Result Operator
  pub get_by_public_key : String → S → Result Operator
  pub list_all : ListOptions → S → Result (List Operator)
  pub update : Operator → Exec S (Unit {0})
  pub delete : Uuid → Exec S (Unit {0})

-- account.go
pub record AccountRepository (S : Type 0) : Type 0 where
  pub create : Account → Exec S (Unit {0})
  pub get_by_id : Uuid → S → Result Account
  pub get_by_name : Uuid → String → S → Result Account
  pub get_by_public_key : String → S → Result Account
  pub list_all : ListOptions → S → Result (List Account)
  pub list_by_operator : Uuid → ListOptions → S → Result (List Account)
  pub update : Account → Exec S (Unit {0})
  pub delete : Uuid → Exec S (Unit {0})

-- scoped_signing_key.go
pub record ScopedSigningKeyRepository (S : Type 0) : Type 0 where
  pub create : ScopedSigningKey → Exec S (Unit {0})
  pub get_by_id : Uuid → S → Result ScopedSigningKey
  pub get_by_name : Uuid → String → S → Result ScopedSigningKey
  pub get_by_public_key : String → S → Result ScopedSigningKey
  pub list_all : ListOptions → S → Result (List ScopedSigningKey)
  pub list_by_account : Uuid → ListOptions → S → Result (List ScopedSigningKey)
  pub update : ScopedSigningKey → Exec S (Unit {0})
  pub delete : Uuid → Exec S (Unit {0})

-- user.go
pub record UserRepository (S : Type 0) : Type 0 where
  pub create : User → Exec S (Unit {0})
  pub get_by_id : Uuid → S → Result User
  pub get_by_name : Uuid → String → S → Result User
  pub get_by_public_key : String → S → Result User
  pub list_all : ListOptions → S → Result (List User)
  pub list_by_account : Uuid → ListOptions → S → Result (List User)
  pub list_by_scoped_signing_key : Uuid → ListOptions → S → Result (List User)
  pub update : User → Exec S (Unit {0})
  pub delete : Uuid → Exec S (Unit {0})

-- cluster.go
pub record ClusterRepository (S : Type 0) : Type 0 where
  pub create : Cluster → Exec S (Unit {0})
  pub get_by_id : Uuid → S → Result Cluster
  pub get_by_name : String → S → Result Cluster
  pub list_all : ListOptions → S → Result (List Cluster)
  pub list_by_operator : Uuid → ListOptions → S → Result (List Cluster)
  pub update : Cluster → Exec S (Unit {0})
  pub delete : Uuid → Exec S (Unit {0})

-- api_user.go
pub record ApiUserRepository (S : Type 0) : Type 0 where
  pub create : ApiUser → Exec S (Unit {0})
  pub get_by_id : Uuid → S → Result ApiUser
  pub get_by_username : String → S → Result ApiUser
  pub list_all : ListOptions → S → Result (List ApiUser)
  pub update : ApiUser → Exec S (Unit {0})
  pub delete : Uuid → Exec S (Unit {0})
