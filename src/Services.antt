-- ===== src/Services.antt =====
-- What the services of internal/application/services are built from: the repositories, the
-- encryptor and the NATS libraries, and the draws of one call (identifiers, key pairs, the clock).
-- All clock readings of one call are one value: no code compares them.
pub mod Laws
pub mod Updates
use nis.Prelude.{ℕ, String, Bool, true, false, not, Option, none, some, str_eq, if◌then◌else◌}
use nis.Exec.{Error, already_exists, wrap, is_not_found, Result, ok, err}
use nis.Entities.{Uuid, Time}
use nis.Repositories.{
  OperatorRepository, AccountRepository, ScopedSigningKeyRepository, UserRepository, ListOptions,
}
use nis.Text.{Bytes}
use nis.Jwt.{Encryptor, Nkeys}

-- The fields that the constructors of the services share.
pub record Deps (S KeyPair : Type 0) : Type 0 where
  pub operators : OperatorRepository S
  pub accounts : AccountRepository S
  pub scoped_keys : ScopedSigningKeyRepository S
  pub users : UserRepository S
  pub encryptor : Encryptor
  pub nkeys : Nkeys KeyPair

-- `uuid.New()`, and `GenerateNKey` with its seed and public key.
pub record Draw : Type 0 where
  pub id : Uuid
  pub nkey : Result (Bytes × String)

abbrev pub up_to_1000 : ListOptions
up_to_1000 = record { limit = 1000; offset = 0 }

-- The test for a free name: `existing, err := GetByName(...)`, where an error other than
-- ErrNotFound is passed on and an entity that is found is a conflict.
abbrev pub name_is_free {ℓ} : {A : Type ℓ} → String → Result A → Result (Unit {0})
name_is_free text (ok existing) = err already_exists
name_is_free text (err e) = if is_not_found e then ok tt else err (wrap text e)

-- The same on an update, where the entity itself may be the one that is found.
abbrev pub name_is_free_for {ℓ} : {A : Type ℓ} → (A → Bool) → String → Result A → Result (Unit {0})
name_is_free_for is_same text (ok existing) = if is_same existing then ok tt else err already_exists
name_is_free_for is_same text (err e) = if is_not_found e then ok tt else err (wrap text e)

-- `req.Field != nil && *req.Field != entity.Field`
abbrev pub changes_text : Option String → String → Bool
changes_text none old = false
changes_text (some new) old = not (str_eq new old)

-- The field behind an optional request field.
abbrev pub or_old {ℓ} : {A : Type ℓ} → Option A → A → A
or_old none old = old
or_old (some new) old = new

-- `req.Field != nil`
abbrev pub is_given {ℓ} : {A : Type ℓ} → Option A → Bool
is_given none = false
is_given (some _) = true
