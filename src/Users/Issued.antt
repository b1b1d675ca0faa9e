-- ===== src/Users/Issued.antt =====
-- The JWTs of users are made from what is stored.
use nis.Prelude.{
  String, ◌≡◌, refl, ◌≢◌, ◌∙◌, ap, not, ◌==◌, ==_iff, Option, none, some, arith, str_eq, eq_iff,
}
use nis.Exec.{
  ok, message, bind-eq-ok, wrapped-bind-eq-ok, on_ok-eq-ok, wrapped-eq-ok, ok-injective, wrapped,
  fail_if, fail_if-eq-ok,
}
use nis.Entities.{Uuid, Time, Account, ScopedSigningKey, User}
use nis.Jwt.{generate_user_jwt, user_claims}
use nis.Services.{Deps, Draw, name_is_free}
use nis.Users.{
  CreateRequest, signing_key, own_signing_key, check_create, draft_user, sign_new_user, new_user,
  create_user,
}

-- The user's JWT is what the JWT service makes at a time of the user, of the stored account that the
-- user names, and of the stored scoped key that the user names, if any.
pub record IsIssued {S KeyPair : Type 0} (d : Deps S KeyPair) (now : Time) (s : S) (user : User)
    : Type 0 where
  pub account : Account
  pub scoped_key : Option ScopedSigningKey
  pub found : d.accounts.get_by_id user.account_id s ≡ ok account
  pub key_found : signing_key d now user.scoped_signing_key_id s ≡ ok scoped_key
  pub signed : generate_user_jwt d.encryptor d.nkeys now user account scoped_key ≡ ok user.jwt

-- A scoped key, if there is one, belongs to the account.
pub data IsOfAccount (account_id : Uuid) : Option ScopedSigningKey → Type 0 where
  no_key : IsOfAccount account_id none
  own_key :
      (key : ScopedSigningKey) → key.account_id ≡ account_id → IsOfAccount account_id (some key)

module _ {S KeyPair : Type 0} (d : Deps S KeyPair) (now : Time) where
  pub generate-with_jwt :
      (jwt : String) (u : User) (a : Account) (k : Option ScopedSigningKey)
      → generate_user_jwt d.encryptor d.nkeys now (record u { jwt = jwt }) a k
        ≡ generate_user_jwt d.encryptor d.nkeys now u a k
  unfolding generate_user_jwt user_claims
  generate-with_jwt jwt u a none = refl
  generate-with_jwt jwt u a (some k) = refl

  own_signing_key-eq-ok :
      (account_id : Uuid) (p : Option Uuid) (s : S) (k : Option ScopedSigningKey)
      → own_signing_key d now account_id p s ≡ ok k
      → (signing_key d now p s ≡ ok k) × IsOfAccount account_id k
  unfolding own_signing_key signing_key
  own_signing_key-eq-ok account_id none s k h = (h, rw (← ok-injective h) no_key)
  own_signing_key-eq-ok account_id (some id) s k h =
      let (key, e, h₁) =
        wrapped-bind-eq-ok "failed to get scoped signing key" (d.scoped_keys.get_by_id id s) _ h in
      let (_, same, h₂) = bind-eq-ok (fail_if (not (key.account_id == account_id)) _) _ h₁ in
      (
        rw e h₂,
        rw (← ok-injective h₂) (
            own_key key
              ((==_iff key.account_id account_id).0 (ground (arith, fail_if-eq-ok _ _ same)))),
      )

  sign_new_user-eq-ok :
      (draw : Draw) (req : CreateRequest) (a : Account) (k : Option ScopedSigningKey) (u : User)
      → sign_new_user d now draw req a k ≡ ok u
      → (u.account_id ≡ req.account_id)
        × (u.name ≡ req.name)
        × (u.scoped_signing_key_id ≡ req.scoped_signing_key_id)
        × (generate_user_jwt d.encryptor d.nkeys now u a k ≡ ok u.jwt)
  unfolding sign_new_user draft_user
  sign_new_user-eq-ok draw req a k u h =
      let (pair, _, h₁) = wrapped-bind-eq-ok "failed to generate user keys" draw.nkey _ h in
      let (seed, _, h₂) =
        wrapped-bind-eq-ok "failed to encrypt user seed" (d.encryptor.encrypt pair.0) _ h₁ in
      let draft = draft_user d now req draw.id seed pair.1 in
      let (jwt, signed, h₃) =
        wrapped-bind-eq-ok "failed to generate user JWT"
          (generate_user_jwt d.encryptor d.nkeys now draft a k) _ h₂ in
      rw (← ok-injective h₃) (refl, refl, refl, generate-with_jwt jwt draft a k ∙ signed)

  -- What `CreateUser` has saved when it succeeds: a user with a name, issued by what was stored, whose
  -- scoped key belongs to its account.
  pub record IsCreated (s : S) (req : CreateRequest) (user : User) : Type 0 where
    pub issued : IsIssued d now s user
    pub of_account : IsOfAccount user.account_id issued.scoped_key
    pub saved : (d.users.create user s).0 ≡ ok tt
    pub account : user.account_id ≡ req.account_id
    pub name : user.name ≡ req.name
    pub named : req.name ≢ ""

  check_create-eq-ok :
      (req : CreateRequest) (s : S) (a : Account) (k : Option ScopedSigningKey)
      → check_create d now req s ≡ ok (a, k)
      → (req.name ≢ "")
        × (d.accounts.get_by_id req.account_id s ≡ ok a)
        × (own_signing_key d now req.account_id req.scoped_signing_key_id s ≡ ok k)
  unfolding check_create
  check_create-eq-ok req s a k h =
      let (_, named, h₁) =
        bind-eq-ok (fail_if (str_eq req.name "") (message "user name is required")) _ h in
      let (a', found, h₂) =
        wrapped-bind-eq-ok "failed to get account" (d.accounts.get_by_id req.account_id s) _ h₁ in
      let (_, _, h₃) =
        bind-eq-ok
          (name_is_free "failed to check existing user"
            (d.users.get_by_name req.account_id req.name s))
          _ h₂ in
      let (k', own, h₄) =
        bind-eq-ok (own_signing_key d now req.account_id req.scoped_signing_key_id s) _ h₃ in
      let same = ok-injective h₄ in
      (
        ground (arith, fail_if-eq-ok _ _ named, eq_iff req.name ""),
        found ∙ ap (λ x. ok x.0) same,
        own ∙ ap (λ x. ok x.1) same,
      )

  -- A user that `CreateUser` returns was saved under the name and account of the request, and the
  -- name is not empty; its JWT is made from the stored account and the stored scoped key that it
  -- names, and that key belongs to the account.
  pub create_user-IsCreated :
      (draw : Draw) (req : CreateRequest) (s : S) (user : User)
      → (create_user d now draw req s).0 ≡ ok user
      → IsCreated s req user
  unfolding create_user new_user
  create_user-IsCreated draw req s user h =
      let (u, e, h₁) = on_ok-eq-ok (new_user d now draw req s) _ s h in
      let ((a, k), checked, e') = bind-eq-ok (check_create d now req s) _ e in
      let (named, found, own) = check_create-eq-ok req s a k checked in
      let (key_found, of_account) =
        own_signing_key-eq-ok req.account_id req.scoped_signing_key_id s k own in
      let (account, name, key_id, signed) = sign_new_user-eq-ok draw req a k u e' in
      let (_, saved, h₂) =
        on_ok-eq-ok (wrapped "failed to create user" (d.users.create u s).0) _
          (d.users.create u s).1 h₁ in
      rw (← ok-injective h₂) (record {
        issued = record {
          account = a;
          scoped_key = k;
          found = rw account found;
          key_found = rw key_id key_found;
          signed = signed;
        };
        of_account = rw account of_account;
        saved = wrapped-eq-ok "failed to create user" (d.users.create u s).0 saved;
        account = account;
        name = name;
        named = named;
      })
