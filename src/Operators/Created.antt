-- ===== src/Operators/Created.antt =====
-- What `CreateOperator` leaves behind.
use nis.Prelude.{String, ◌≡◌, refl, sym, ◌∙◌, ap, ◌≢◌, none, arith, str_eq, eq_iff}
use nis.Exec.{
  ok, message, bind-eq-ok, wrapped-bind-eq-ok, on_ok-eq-ok, wrapped-eq-ok, ok-injective, wrapped,
  fail_if, fail_if-eq-ok,
}
use nis.Entities.{Time, Operator, Account, User}
use nis.Jwt.{generate_operator_jwt, operator_claims, generate_user_jwt}
use nis.Services.{Deps, Draw, name_is_free}
use nis.Users.Issued.{generate-with_jwt}
use nis.Accounts
use nis.Operators.{
  CreateRequest, Draws, system_account_request, draft_operator, new_operator, draft_system_user,
  new_system_user, with_system_account, link_system_account, add_system_user, add_system_account,
  create_operator,
}

module _ {S KeyPair : Type 0} (d : Deps S KeyPair) (now : Time) where
  pub generate_operator-with_jwt :
      (jwt : String) (o : Operator)
      → generate_operator_jwt d.encryptor d.nkeys now (record o { jwt = jwt })
        ≡ generate_operator_jwt d.encryptor d.nkeys now o
  unfolding generate_operator_jwt operator_claims
  generate_operator-with_jwt jwt o = refl

  -- The world once the operator, its system account and the user are saved.
  abbrev pub with_user : Draws → S → Operator → User → S
  with_user draws s draft user =
      (d.users.create user
        (Accounts.create_account d now draws.account (system_account_request draft.id)
          (d.operators.create draft s).1).1).1

  -- What the call has saved, in this order: a first state of the operator, its system account, the
  -- system user of that account, and the operator that names the account.
  pub record IsCreated (draws : Draws) (req : CreateRequest) (s : S) (operator : Operator)
      : Type 0 where
    pub draft : Operator
    pub saved : (d.operators.create draft s).0 ≡ ok tt
    pub account : Account
    pub account_created :
        (Accounts.create_account d now draws.account
          (system_account_request draft.id)
          (d.operators.create draft s).1).0
        ≡ ok account
    pub user : User
    pub user_saved :
        (d.users.create user
          (Accounts.create_account d now draws.account
            (system_account_request draft.id)
            (d.operators.create draft s).1).1).0
        ≡ ok tt
    pub user_account : user.account_id ≡ account.id
    pub user_name : user.name ≡ "system"
    pub user_key : user.scoped_signing_key_id ≡ none
    pub user_signed : generate_user_jwt d.encryptor d.nkeys now user account none ≡ ok user.jwt
    pub name : draft.name ≡ req.name
    pub named : req.name ≢ ""
    pub linked : operator ≡ record draft {
      system_account_pub_key = account.public_key;
      updated_at = now;
      jwt = operator.jwt;
    }
    pub signed : generate_operator_jwt d.encryptor d.nkeys now operator ≡ ok operator.jwt
    pub operator_saved : (d.operators.update operator (with_user draws s draft user)).0 ≡ ok tt
    pub world :
        (create_operator d now draws req s).1
        ≡ (d.operators.update operator (with_user draws s draft user)).1

  new_operator-name :
      (draw : Draw) (req : CreateRequest) (s : S) (o : Operator)
      → new_operator d now draw req s ≡ ok o
      → (o.name ≡ req.name) × (req.name ≢ "")
  unfolding new_operator draft_operator
  new_operator-name draw req s o h =
      let (_, named, h₁) =
        bind-eq-ok (fail_if (str_eq req.name "") (message "operator name is required")) _ h in
      let (_, _, h₂) =
        bind-eq-ok
          (name_is_free "failed to check existing operator" (d.operators.get_by_name req.name s)) _
          h₁ in
      let (pair, _, h₃) = wrapped-bind-eq-ok "failed to generate operator keys" draw.nkey _ h₂ in
      let (seed, _, h₄) =
        wrapped-bind-eq-ok "failed to encrypt operator seed" (d.encryptor.encrypt pair.0) _ h₃ in
      let (jwt, _, h₅) =
        wrapped-bind-eq-ok "failed to generate operator JWT"
          (generate_operator_jwt d.encryptor d.nkeys now
            (draft_operator d now req draw.id seed pair.1))
          _ h₄ in
      (
        ap (λ (x : Operator). x.name) (sym (ok-injective h₅)),
        ground (arith, fail_if-eq-ok _ _ named, eq_iff req.name ""),
      )

  new_system_user-eq-ok :
      (draw : Draw) (a : Account) (u : User)
      → new_system_user d now draw a ≡ ok u
      → (u.account_id ≡ a.id)
        × (u.name ≡ "system")
        × (u.scoped_signing_key_id ≡ none)
        × (generate_user_jwt d.encryptor d.nkeys now u a none ≡ ok u.jwt)
  unfolding new_system_user draft_system_user
  new_system_user-eq-ok draw a u h =
      let (pair, _, h₁) = wrapped-bind-eq-ok "failed to generate system user keys" draw.nkey _ h in
      let (seed, _, h₂) =
        wrapped-bind-eq-ok "failed to encrypt system user seed" (d.encryptor.encrypt pair.0) _ h₁ in
      let draft = draft_system_user d now draw.id a.id seed pair.1 in
      let (jwt, signed, h₃) =
        wrapped-bind-eq-ok "failed to generate system user JWT"
          (generate_user_jwt d.encryptor d.nkeys now draft a none) _ h₂ in
      rw (← ok-injective h₃) (refl, refl, refl, generate-with_jwt d now jwt draft a none ∙ signed)

  with_system_account-eq-ok :
      (o : Operator) (a : Account) (linked : Operator)
      → with_system_account d now o a ≡ ok linked
      → (linked
          ≡ record o { system_account_pub_key = a.public_key; updated_at = now; jwt = linked.jwt })
        × (generate_operator_jwt d.encryptor d.nkeys now linked ≡ ok linked.jwt)
  unfolding with_system_account
  with_system_account-eq-ok o a linked h =
      let o' : Operator = record o { system_account_pub_key = a.public_key; updated_at = now } in
      let (jwt, signed, h₁) =
        wrapped-bind-eq-ok "failed to regenerate operator JWT with system account"
          (generate_operator_jwt d.encryptor d.nkeys now o') _ h in
      rw (← ok-injective h₁) (refl, generate_operator-with_jwt jwt o' ∙ signed)

  link_system_account-eq-ok :
      (o : Operator) (a : Account) (s : S) (linked : Operator)
      → (link_system_account d now o a s).0 ≡ ok linked
      → (with_system_account d now o a ≡ ok linked)
        × ((d.operators.update linked s).0 ≡ ok tt)
        × ((link_system_account d now o a s).1 ≡ (d.operators.update linked s).1)
  unfolding link_system_account
  link_system_account-eq-ok o a s linked h =
      let text : String = "failed to update operator with system account" in
      let (x, e, h₁) = on_ok-eq-ok (with_system_account d now o a) _ s h in
      let (_, saved, h₂) =
        on_ok-eq-ok (wrapped text (d.operators.update x s).0) _ (d.operators.update x s).1 h₁ in
      let same : x ≡ linked = ok-injective h₂ in
      let r = wrapped-eq-ok text (d.operators.update x s).0 saved in
      (e ∙ h₂, rw (← same) r, rw (e, ← same, r) refl)

  -- An operator that `CreateOperator` returns was first saved under the name of the request,
  -- which is not empty, and then `CreateAccount` has made its system account; a user "system" of
  -- that account, without a scoped key, was saved with a JWT signed by the account; and the
  -- operator that was saved last and is returned is the first one linked to the account's key,
  -- with a JWT signed over it as it is returned.
  pub create_operator-IsCreated :
      (draws : Draws) (req : CreateRequest) (s : S) (operator : Operator)
      → (create_operator d now draws req s).0 ≡ ok operator
      → IsCreated draws req s operator
  unfolding create_operator add_system_account add_system_user
  create_operator-IsCreated draws req s operator h =
      let (draft, e, h₁) = on_ok-eq-ok (new_operator d now draws.operator req s) _ s h in
      let (r, s₁) = d.operators.create draft s in
      let (_, saved, h₂) = on_ok-eq-ok (wrapped "failed to create operator" r) _ s₁ h₁ in
      let (r₂, s₂) =
        Accounts.create_account d now draws.account (system_account_request draft.id) s₁ in
      let (a, made, h₃) = on_ok-eq-ok (wrapped "failed to create $SYS account" r₂) _ s₂ h₂ in
      let (u, eu, h₄) = on_ok-eq-ok (new_system_user d now draws.user a) _ s₂ h₃ in
      let (r₃, s₃) = d.users.create u s₂ in
      let (_, user_saved, h₅) = on_ok-eq-ok (wrapped "failed to create system user" r₃) _ s₃ h₄ in
      let (link, operator_saved, world) = link_system_account-eq-ok draft a s₃ operator h₅ in
      let linked = with_system_account-eq-ok draft a operator link in
      let new = new_operator-name draws.operator req s draft e in
      let of_user = new_system_user-eq-ok draws.user a u eu in
      record {
        draft = draft;
        saved = wrapped-eq-ok "failed to create operator" r saved;
        account = a;
        account_created = wrapped-eq-ok "failed to create $SYS account" r₂ made;
        user = u;
        user_saved = wrapped-eq-ok "failed to create system user" r₃ user_saved;
        user_account = of_user.0;
        user_name = of_user.1;
        user_key = of_user.2;
        user_signed = of_user.3;
        name = new.0;
        named = new.1;
        linked = linked.0;
        signed = linked.1;
        operator_saved = operator_saved;
        world = rw (e, saved, made, eu, user_saved) world;
      }
