-- ===== src/Users/Credentials.antt =====
-- The credentials file of a user, `GetUserCredentials` of internal/application/services/user_service.go,
-- as `parseCredsContent` of internal/infrastructure/nats/client.go reads it.
use nis.Prelude.{◌≡◌, ◌≢◌, [], refl, codes}
use nis.Exec.{ok, ◌>>=◌}
use nis.Entities.{Uuid, Time, User}
use nis.Jwt
use nis.Jwt.{generate_creds_file}
use nis.Services.{Deps}
use nis.Text.{Bytes}
use nis.Nats.{parse_creds_content}
use nis.Nats.Creds.{IsSolid, parse_creds-generate}
use nis.Users.{get_user_credentials}

module _ {S KeyPair : Type 0} (d : Deps S KeyPair) (now : Time) where
  -- The file of a stored user holds its JWT and the decrypted seed.
  get_user_credentials-stored :
      (id : Uuid) (user : User) (seed : Bytes) (s : S)
      → d.users.get_by_id id s ≡ ok user
      → d.encryptor.decrypt user.encrypted_seed ≡ ok seed
      → get_user_credentials d now id s ≡ ok (generate_creds_file user seed)
  unfolding get_user_credentials Jwt.get_user_credentials
  get_user_credentials-stored id user seed s found decrypted = rw (found, decrypted) refl

  -- Reading back the file of a stored user gives its JWT and the decrypted seed, if both are not
  -- empty and without whitespace.
  parse_creds-get_user_credentials :
      (id : Uuid) (user : User) (seed : Bytes) (s : S)
      → d.users.get_by_id id s ≡ ok user
      → d.encryptor.decrypt user.encrypted_seed ≡ ok seed
      → codes user.jwt ≢ []
      → seed ≢ []
      → IsSolid (codes user.jwt)
      → IsSolid seed
      → get_user_credentials d now id s >>= parse_creds_content ≡ ok (codes user.jwt, seed)
  parse_creds-get_user_credentials id user seed s found decrypted jwt_given seed_given jwt_solid
        seed_solid =
      rw (get_user_credentials-stored id user seed s found decrypted)
        (parse_creds-generate user seed jwt_given seed_given jwt_solid seed_solid)
