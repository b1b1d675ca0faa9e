-- ===== src/Auth/Login.antt =====
-- `Login` and `ValidateToken` of internal/application/services/auth_service.go: who gets a token, and
-- whom a token names later.
use nis.Prelude.{
  ℕ, ◌+◌, ◌*◌, ◌/◌, ◌≤◌, ◌<◌, String, ◌≡◌, ◌≢◌, ◌↔◌, refl, false, str_eq, eq_iff, arith,
}
use nis.Exec.{
  Error, wrap, Result, ok, err, bind-eq-ok, wrapped-bind-eq-ok, fail_if, fail_if-eq-ok,
  ok-injective,
}
use nis.Entities.{Uuid, Time}
use nis.Repositories.{ApiUserRepository}
use nis.Auth.{
  AuthClaims, AuthLib, LoginRequest, LoginResponse, hide_not_found, password_matches, claims_of,
  login, validate_token,
}

-- A time cut to whole seconds, as a token carries it.
abbrev pub whole_seconds : Time → Time
whole_seconds t = t / 1_000_000_000 * 1_000_000_000

-- The documented behaviour of golang-jwt and of uuid: a token that was signed is parsed into claims
-- on the same user from the time it starts to be valid until the second in which it expires, and is
-- refused from then on; no token is empty; an identifier is read back from its text.
pub record TokenLaws (lib : AuthLib) : Type 0 where
  pub parse-sign :
      (claims : AuthClaims) (token : String) (t : Time)
      → lib.sign claims ≡ ok token
      → claims.not_before ≤ t
      → t < whole_seconds claims.expires_at
      → (parsed : AuthClaims) × (lib.parse t token ≡ ok parsed) × (parsed.user_id ≡ claims.user_id)
  pub parse-expired :
      (claims : AuthClaims) (token : String) (t : Time)
      → lib.sign claims ≡ ok token
      → whole_seconds claims.expires_at ≤ t
      → (e : Error) × (lib.parse t token ≡ err e)
  pub sign-ne-empty :
      (claims : AuthClaims) (token : String) → lib.sign claims ≡ ok token → token ≢ ""
  pub parse_uuid-uuid_text : (id : Uuid) → lib.parse_uuid (lib.uuid_text id) ≡ ok id

hide_not_found-eq-ok :
    {A : Type 0} (text : String) (r : Result A) {a : A} → hide_not_found text r ≡ ok a → r ≡ ok a
hide_not_found-eq-ok text (ok a) h = h
hide_not_found-eq-ok text (err e) h = ground arith

password_matches-eq-ok : (r : Result (Unit {0})) → password_matches r ≡ ok tt → r ≡ ok tt
password_matches-eq-ok (ok tt) h = refl
password_matches-eq-ok (err e) h = cc

module _ {S : Type 0} (repo : ApiUserRepository S) (lib : AuthLib) (ttl : ℕ) where
  login_sound :
      (now : Time) (req : LoginRequest) (s : S) (response : LoginResponse)
      → login repo lib ttl now req s ≡ ok response
      → (req.username ≢ "")
        × (req.password ≢ "")
        × (repo.get_by_username req.username s ≡ ok response.user)
        × (lib.compare_hash_and_password response.user.password_hash req.password ≡ ok tt)
        × (lib.sign (claims_of repo lib ttl now response.user) ≡ ok response.token)
  unfolding login
  login_sound now req s response h =
      let (_, e1, h1) = bind-eq-ok (fail_if (str_eq req.username "") _) _ h in
      let (_, e2, h2) = bind-eq-ok (fail_if (str_eq req.password "") _) _ h1 in
      let (u, e3, h3) = bind-eq-ok (hide_not_found _ (repo.get_by_username req.username s)) _ h2 in
      let (_, e4, h4) =
        bind-eq-ok (password_matches (lib.compare_hash_and_password u.password_hash req.password)) _
          h3 in
      let (token, e5, h5) =
        wrapped-bind-eq-ok "failed to generate token" (lib.sign (claims_of repo lib ttl now u)) _
          h4 in
      rw (← ok-injective h5) (
        ground (arith, fail_if-eq-ok _ _ e1, eq_iff req.username ""),
        ground (arith, fail_if-eq-ok _ _ e2, eq_iff req.password ""),
        hide_not_found-eq-ok _ _ e3,
        password_matches-eq-ok _ e4,
        e5,
      )

  -- A login succeeds exactly with a name and a password that are not empty, when the user of that
  -- name is stored, the comparison with the user's hash accepts the password and the claims on
  -- the user can be signed; the response is that user and that token.
  pub login_iff :
      (now : Time) (req : LoginRequest) (s : S) (response : LoginResponse)
      → (login repo lib ttl now req s ≡ ok response) ↔ (
          (req.username ≢ "")
          × (req.password ≢ "")
          × (repo.get_by_username req.username s ≡ ok response.user)
          × (lib.compare_hash_and_password response.user.password_hash req.password ≡ ok tt)
          × (lib.sign (claims_of repo lib ttl now response.user) ≡ ok response.token))
  unfolding login
  login_iff now req s response = (
    login_sound now req s response,
    λ (named, given, found, matches, signed).
        rw (different req.username named, different req.password given, found, matches, signed),
  )
    where
      different : (text : String) → text ≢ "" → str_eq text "" ≡ false
      different text ne = ground (arith, eq_iff text "")

  module _ (laws : TokenLaws lib) where
    token_named :
        (t : Time) (token : String) (parsed : AuthClaims) (id : Uuid) (s : S)
        → token ≢ ""
        → lib.parse t token ≡ ok parsed
        → parsed.user_id ≡ lib.uuid_text id
        → validate_token repo lib ttl t token s
          ≡ hide_not_found "user not found" (repo.get_by_id id s)
    unfolding validate_token
    token_named t token parsed id s ne e named =
        rw (different, e, named, laws.parse_uuid-uuid_text id)
      where
        different : str_eq token "" ≡ false
        different = ground (arith, eq_iff token "")

    -- With libraries that have `TokenLaws`, the token of a login, shown in any world from the
    -- time of the login until before the second in which it expires, reads the row that is then
    -- stored for the user who logged in; a user who is no longer stored is refused.
    pub validate_token-login :
        (now t : Time) (req : LoginRequest) (s s' : S) (response : LoginResponse)
        → login repo lib ttl now req s ≡ ok response
        → now ≤ t
        → t < whole_seconds (now + ttl)
        → validate_token repo lib ttl t response.token s'
          ≡ hide_not_found "user not found" (repo.get_by_id response.user.id s')
    unfolding claims_of
    validate_token-login now t req s s' response h from until =
        let (_, _, _, _, signed) = login_sound now req s response h in
        let claims = claims_of repo lib ttl now response.user in
        let (parsed, e, named) = laws.parse-sign claims response.token t signed from until in
        token_named t response.token parsed response.user.id s'
          (laws.sign-ne-empty claims response.token signed) e named

    -- With libraries that have `TokenLaws`, the token of a login is refused in every world once
    -- the second in which it expires has come.
    pub validate_token-expired :
        (now t : Time) (req : LoginRequest) (s s' : S) (response : LoginResponse)
        → login repo lib ttl now req s ≡ ok response
        → whole_seconds (now + ttl) ≤ t
        → (e : Error) × (validate_token repo lib ttl t response.token s' ≡ err e)
    unfolding claims_of validate_token
    validate_token-expired now t req s s' response h late =
        let (_, _, _, _, signed) = login_sound now req s response h in
        let claims = claims_of repo lib ttl now response.user in
        let (e, refused) = laws.parse-expired claims response.token t signed late in
        let different : str_eq response.token "" ≡ false =
          ground
            (arith, eq_iff response.token "", laws.sign-ne-empty claims response.token signed) in
        (wrap "invalid token" e, rw (different, refused) refl)
