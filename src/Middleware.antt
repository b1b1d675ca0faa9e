-- ===== src/Middleware.antt =====
-- internal/interfaces/grpc/middleware/auth.go: what stands between a request and its handler.
-- The Casbin library and the handler behind the interceptor are parameters. `WrapUnary` and
-- `WrapStreamingHandler` make the same decisions on the procedure and on the header, so both are
-- `wrap`; metrics are left out.
pub mod Procedure
pub mod Gate
use nis.Prelude.{
  String, Bool, true, false, not, ◌&&◌, ◌||◌, Option, none, some, List, [], ◌∷◌, codes, leb, ltb,
  if◌then◌else◌, str_eq,
}
use nis.Exec.{Result, ok, err, Exec}
use nis.Entities.{ApiUser, Role, role_name}
use nis.Text.{Bytes, bytes_eq, to_lower, has_prefix, contains, trim_suffix, split, last_part, cut}

-- The scheme is compared in lower case; `SplitN(header, " ", 2)` has two parts when there is a
-- space. An empty token stands for no token.
unfoldable pub extract_token : Bytes → Bytes
unfolding to_lower cut bytes_eq
extract_token header = elim (cut b' ' header) [
  | none ↦ []
  | some (scheme, token) ↦ if bytes_eq (to_lower scheme) (codes "bearer") then token else []
]

unfoldable pub extract_action : Bytes → Bytes
unfolding to_lower has_prefix
extract_action method =
    let m = to_lower method in
    if has_prefix m (codes "create")
    then codes "create"
    else if has_prefix m (codes "update")
    then codes "update"
    else if has_prefix m (codes "delete")
    then codes "delete"
    else if has_prefix m (codes "get") || has_prefix m (codes "list")
    then codes "read"
    else codes "read"

-- The special cases among the resource names.
unfoldable pub resource_of : Bytes → Bytes → Bytes
unfolding to_lower trim_suffix contains bytes_eq
resource_of service_name method =
    let resource = to_lower (trim_suffix service_name (codes "Service")) in
    let resource =
      if bytes_eq resource (codes "auth") && contains (to_lower method) (codes "apiuser")
      then codes "api_user"
      else resource in
    if bytes_eq resource (codes "scopedsigningkey") then codes "scoped_key" else resource

-- `parts[len(parts)-1]` is the method and `parts[len(parts)-2]` the service, of three parts or more.
unfoldable pub of_parts : List Bytes → Bytes × Bytes
unfolding resource_of extract_action last_part split
of_parts (a ∷ service ∷ method ∷ []) =
    (resource_of (last_part (split b'.' service)) method, extract_action method)
of_parts (a ∷ b ∷ c ∷ d ∷ parts) = of_parts (b ∷ c ∷ d ∷ parts)
of_parts _ = ([], [])

unfoldable pub extract_resource_and_action : Bytes → Bytes × Bytes
unfolding split of_parts
extract_resource_and_action procedure = of_parts (split b'/' procedure)

-- `connect.Code` as the interceptor uses it.
pub data Code : Type 0 where
  unauthenticated permission_denied internal : Code

-- What a call through the interceptor returns.
pub data Reply (A : Type 0) : Type 0 where
  rejected : Code → Reply A
  handled : Result A → Reply A

abbrev pub login_procedure : Bytes
login_procedure = codes "/nis.v1.AuthService/Login"

-- `validate` is `AuthService.ValidateToken`, `enforce` is `Enforcer.Enforce`, and `next` is the
-- handler, with the user that the context carries to it.
module _ {S A : Type 0} (validate : Bytes → S → Result ApiUser)
    (enforce : Bytes → Bytes → Bytes → Result Bool) (next : Option ApiUser → Exec S A) where
  unfoldable pub authorize : ApiUser → Bytes → S → Reply A × S
  authorize user procedure s =
      let (resource, action) = extract_resource_and_action procedure in
      elim (enforce (codes (role_name user.role)) resource action) [
        | err e ↦ (rejected internal, s)
        | ok allowed ↦
            if allowed
            then (let (r, s') = next (some user) s in (handled r, s'))
            else (rejected permission_denied, s)
      ]

  unfoldable pub authenticate : Bytes → Bytes → S → Reply A × S
  authenticate token procedure s =
      if bytes_eq token [] then (rejected unauthenticated, s) else elim (validate token s) [
        | err e ↦ (rejected unauthenticated, s)
        | ok user ↦ authorize user procedure s
      ]

  unfoldable pub wrap_call : Bytes → Bytes → S → Reply A × S
  wrap_call procedure header s =
      if bytes_eq procedure login_procedure
      then (let (r, s') = next none s in (handled r, s'))
      else authenticate (extract_token header) procedure s
