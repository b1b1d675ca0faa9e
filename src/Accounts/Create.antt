-- ===== src/Accounts/Create.antt =====
-- Creation and deletion of accounts.
use nis.Prelude.{
  String, ◌≡◌, refl, ◌≢◌, sym, ◌∙◌, ap, Bool-cases, inl, inr, ◌⊎◌, [], ◌∷◌, arith, str_eq, eq_iff,
}
use nis.Exec.{
  Error, wrap, not_found, Result, ok, err, message, bind-eq-ok, wrapped-bind-eq-ok, on_ok-eq-ok,
  wrapped-eq-ok, ok-injective, wrapped, fail_if, fail_if-eq-ok,
}
use nis.Entities.{Uuid, Time, Operator, Account, ScopedSigningKey}
use nis.Jwt.{generate_account_jwt}
use nis.Services.{Deps, Draw, name_is_free}
use nis.Services.Laws.{DeleteLaws}
use nis.ScopedKeys.Fresh.{generate-restamped}
use nis.Accounts.{
  CreateRequest, CreateDraws, new_account, check_create, sign_new_account, draft_account,
  build_default_scoped_signing_key, after_key, save_account, create_account, may_delete,
  delete_account,
}

module _ {S KeyPair : Type 0} (d : Deps S KeyPair) (now : Time) where
  -- What `CreateAccount` has saved when it succeeds.
  pub record IsCreated (s : S) (req : CreateRequest) (account : Account) : Type 0 where
    pub operator : Operator
    pub default_key : ScopedSigningKey
    pub owner : d.operators.get_by_id account.operator_id s ≡ ok operator
    pub saved : (d.accounts.create account s).0 ≡ ok tt
    pub key_saved : (d.scoped_keys.create default_key (d.accounts.create account s).1).0 ≡ ok tt
    pub of_account : default_key.account_id ≡ account.id
    pub name : account.name ≡ req.name
    pub named : req.name ≢ ""
    pub signed :
        generate_account_jwt d.encryptor d.nkeys now account operator (default_key ∷ [])
        ≡ ok account.jwt

  after_key-eq-ok :
      (a account : Account) (r : Result (Unit {0})) (s : S)
      → (after_key d now a r s).0 ≡ ok account
      → (r ≡ ok tt) × (a ≡ account)
  unfolding after_key
  after_key-eq-ok a account (ok tt) s h = (refl, ok-injective h)
  after_key-eq-ok a account (err e) s h = cc

  save_account-eq-ok :
      (a : Account) (k : ScopedSigningKey) (s : S) (account : Account)
      → (save_account d now a k s).0 ≡ ok account
      → (a ≡ account)
        × ((d.accounts.create a s).0 ≡ ok tt)
        × ((d.scoped_keys.create k (d.accounts.create a s).1).0 ≡ ok tt)
  unfolding save_account
  save_account-eq-ok a k s account h =
      let (r, s₁) = d.accounts.create a s in
      let (u, saved, h₁) = on_ok-eq-ok (wrapped "failed to create account" r) _ s₁ h in
      let (r', s₂) = d.scoped_keys.create k s₁ in
      let (key_saved, same) =
        after_key-eq-ok a account
          (wrapped "failed to create default scoped signing key for account" r') s₂ h₁ in
      (
        same,
        wrapped-eq-ok "failed to create account" r saved,
        wrapped-eq-ok "failed to create default scoped signing key for account" r' key_saved,
      )

  build_default-account :
      (draw : Draw) (id : Uuid) (k : ScopedSigningKey)
      → build_default_scoped_signing_key d now draw id ≡ ok k
      → k.account_id ≡ id
  unfolding build_default_scoped_signing_key
  build_default-account draw id k h =
      let (pair, _, h₁) =
        wrapped-bind-eq-ok "failed to generate scoped signing key" draw.nkey _ h in
      let (seed, _, h₂) =
        wrapped-bind-eq-ok "failed to encrypt scoped signing key seed" (d.encryptor.encrypt pair.0)
          _ h₁ in
      ap (λ (x : ScopedSigningKey). x.account_id) (sym (ok-injective h₂))

  check_create-eq-ok :
      (req : CreateRequest) (s : S) (o : Operator)
      → check_create d now req s ≡ ok o
      → (d.operators.get_by_id req.operator_id s ≡ ok o) × (req.name ≢ "")
  unfolding check_create
  check_create-eq-ok req s o h =
      let (_, named, h₁) =
        bind-eq-ok (fail_if (str_eq req.name "") (message "account name is required")) _ h in
      let (o', eo, h₂) =
        wrapped-bind-eq-ok "failed to get operator" (d.operators.get_by_id req.operator_id s) _
          h₁ in
      let (_, _, h₃) =
        bind-eq-ok
          (name_is_free "failed to check existing account"
            (d.accounts.get_by_name req.operator_id req.name s))
          _ h₂ in
      let named' = fail_if-eq-ok (str_eq req.name "") (message "account name is required") named in
      (eo ∙ h₃, λ e. ground (arith, eq_iff req.name ""))

  -- What `sign_new_account` has built.
  record IsSigned (req : CreateRequest) (o : Operator) (a : Account) (k : ScopedSigningKey)
      : Type 0 where
    owned : a.operator_id ≡ req.operator_id
    of_account : k.account_id ≡ a.id
    name : a.name ≡ req.name
    signed : generate_account_jwt d.encryptor d.nkeys now a o (k ∷ []) ≡ ok a.jwt

  draft-IsSigned :
      (req : CreateRequest) (o : Operator) (k : ScopedSigningKey) (id : Uuid)
      (seed public_key jwt : String)
      → k.account_id ≡ id
      → generate_account_jwt d.encryptor d.nkeys now
          (draft_account d now req id seed public_key)
          o
          (k ∷ [])
        ≡ ok jwt
      → IsSigned req o (record (draft_account d now req id seed public_key) { jwt = jwt }) k
  unfolding draft_account
  draft-IsSigned req o k id seed public_key jwt of_account signed = record {
    owned = refl;
    of_account = of_account;
    name = refl;
    signed =
        generate-restamped d now now now jwt (draft_account d now req id seed public_key) o (k ∷ [])
        ∙ signed;
  }

  sign_new_account-IsSigned :
      (draws : CreateDraws) (req : CreateRequest) (o : Operator) (new : Account × ScopedSigningKey)
      → sign_new_account d now draws req o ≡ ok new
      → IsSigned req o new.0 new.1
  unfolding sign_new_account
  sign_new_account-IsSigned draws req o new h =
      let (pair, _, h₁) =
        wrapped-bind-eq-ok "failed to generate account keys" draws.account.nkey _ h in
      let (seed, _, h₂) =
        wrapped-bind-eq-ok "failed to encrypt account seed" (d.encryptor.encrypt pair.0) _ h₁ in
      let (k, built, h₃) =
        bind-eq-ok (build_default_scoped_signing_key d now draws.default_key draws.account.id) _
          h₂ in
      let (jwt, signed, h₄) =
        wrapped-bind-eq-ok "failed to generate account JWT"
          (generate_account_jwt d.encryptor d.nkeys now
            (draft_account d now req draws.account.id seed pair.1) o (k ∷ []))
          _ h₃ in
      rw (← ok-injective h₄) (
        draft-IsSigned req o k draws.account.id seed pair.1 jwt
          (build_default-account draws.default_key draws.account.id k built) signed)

  -- An account that `CreateAccount` returns was saved under the name of the request, which is not
  -- empty, and then its default scoped key; the account's JWT is signed by the stored operator
  -- that the account names and declares that key alone.
  pub create_account-IsCreated :
      (draws : CreateDraws) (req : CreateRequest) (s : S) (account : Account)
      → (create_account d now draws req s).0 ≡ ok account
      → IsCreated s req account
  unfolding create_account new_account
  create_account-IsCreated draws req s account h =
      let (new, e, h₁) = on_ok-eq-ok (new_account d now draws req s) _ s h in
      let (o, checked, e') = bind-eq-ok (check_create d now req s) _ e in
      let (eo, named) = check_create-eq-ok req s o checked in
      let signed = sign_new_account-IsSigned draws req o new e' in
      let (same, saved, key_saved) = save_account-eq-ok new.0 new.1 s account h₁ in
      rw (← same) (record {
        operator = o;
        default_key = new.1;
        owner = rw signed.owned eo;
        saved = saved;
        key_saved = key_saved;
        of_account = signed.of_account;
        name = signed.name;
        named = named;
        signed = signed.signed;
      })

  -- Of a stored account whose operator is stored: if it is the operator's system account, its
  -- deletion is refused and nothing changes; if it is not, the deletion is the repository's.
  pub delete_account-guards :
      (id : Uuid) (s : S) (a : Account) (o : Operator)
      → d.accounts.get_by_id id s ≡ ok a
      → d.operators.get_by_id a.operator_id s ≡ ok o
      → ((o.system_account_pub_key ≡ a.public_key)
          × (delete_account d now id s ≡ (err (message "cannot delete system account"), s)))
        ⊎ ((o.system_account_pub_key ≢ a.public_key)
            × (delete_account d now id s ≡ d.accounts.delete id s))
  unfolding delete_account may_delete
  delete_account-guards id s a o found owner =
      elim (Bool-cases (str_eq o.system_account_pub_key a.public_key)) [
        | inl e ↦
            inl ((eq_iff o.system_account_pub_key a.public_key).0 e, rw (found, owner, e) refl)
        | inr e ↦ inr (
          ground (arith, eq_iff o.system_account_pub_key a.public_key),
          rw (found, owner, e) refl,
        )
      ]

  -- On a repository with `DeleteLaws`, when a new account was saved and its default key cannot
  -- be, the call ends in that error, and if the deletion of the account that follows succeeds,
  -- the account is not found afterwards.
  save_account-rolls_back :
      (laws : DeleteLaws d) (a : Account) (k : ScopedSigningKey) (s : S) (e : Error)
      → let (created, s₁) = d.accounts.create a s in
        let (key_created, s₂) = d.scoped_keys.create k s₁ in
        created ≡ ok tt
        → key_created ≡ err e
        → (d.accounts.delete a.id s₂).0 ≡ ok tt
        → ((save_account d now a k s).0
            ≡ err (wrap "failed to create default scoped signing key for account" e))
          × (d.accounts.get_by_id a.id (save_account d now a k s).1 ≡ err not_found)
  unfolding save_account after_key
  save_account-rolls_back laws a k s e created failed deleted =
      rw (created, failed) (refl, laws.get-delete a.id _ deleted)
