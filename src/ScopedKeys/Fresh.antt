-- ===== src/ScopedKeys/Fresh.antt =====
-- After a successful call the stored account JWT declares the scoped keys that are stored.
use nis.Prelude.{String, ◌≡◌, refl, sym, ◌∙◌, ap, true, false, Bool-cases, inl, inr, ◌⊎◌, List}
use nis.Exec.{
  Result, ok, err, bind-eq-ok, wrapped-bind-eq-ok, on_ok-ensures, on_ok-eq-ok, wrapped-eq-ok,
  ok-injective, wrapped,
}
use nis.Entities.{Uuid, Time, Operator, Account, ScopedSigningKey}
use nis.Jwt.{generate_account_jwt, account_claims}
use nis.Services.{Deps, Draw, up_to_1000}
use nis.Services.Laws.{AccountLaws}
use nis.ScopedKeys.Updates.{IsApplied, apply_update-IsApplied, is_changed-IsApplied}
use nis.ScopedKeys.{
  CreateRequest, UpdateRequest, is_changed, resigned_account, regenerate_account_jwt, new_key,
  after_signing, sign_or_roll_back, key_to_update, check_new_name, save_update, apply_update,
  create_scoped_signing_key, update_scoped_signing_key, delete_scoped_signing_key,
}

-- The account's stored JWT is what the JWT service makes, at some time, of the stored account, its
-- stored operator, and the scoped keys that are listed for it.
pub record IsFresh {S KeyPair : Type 0} (d : Deps S KeyPair) (s : S) (id : Uuid) : Type 0 where
  pub account : Account
  pub operator : Operator
  pub scoped_keys : List ScopedSigningKey
  pub signed_at : Time
  pub found : d.accounts.get_by_id id s ≡ ok account
  pub owner : d.operators.get_by_id account.operator_id s ≡ ok operator
  pub listed : d.scoped_keys.list_by_account id up_to_1000 s ≡ ok scoped_keys
  pub signed :
      generate_account_jwt d.encryptor d.nkeys signed_at account operator scoped_keys
      ≡ ok account.jwt

module _ {S KeyPair : Type 0} (d : Deps S KeyPair) where
  -- The claims do not depend on the JWT or on the times that the account carries.
  pub generate-restamped :
      (at created updated : Time) (jwt : String) (a : Account) (o : Operator)
      (ks : List ScopedSigningKey)
      → generate_account_jwt d.encryptor d.nkeys at
          (record a { jwt = jwt; created_at = created; updated_at = updated })
          o
          ks
        ≡ generate_account_jwt d.encryptor d.nkeys at a o ks
  unfolding generate_account_jwt account_claims
  generate-restamped at created updated jwt a o ks = refl

  module _ (laws : AccountLaws d) (now : Time) where
    -- An account that was signed from what is stored, written back: its JWT is fresh.
    pub update-IsFresh :
        (id : Uuid) (a : Account) (o : Operator) (ks : List ScopedSigningKey) (jwt : String) (s : S)
        → d.operators.get_by_id a.operator_id s ≡ ok o
        → d.scoped_keys.list_by_account id up_to_1000 s ≡ ok ks
        → generate_account_jwt d.encryptor d.nkeys now a o ks ≡ ok jwt
        → a.id ≡ id
        → (d.accounts.update (record a { jwt = jwt; updated_at = now }) s).0 ≡ ok tt
        → IsFresh d (d.accounts.update (record a { jwt = jwt; updated_at = now }) s).1 id
    update-IsFresh id a o ks jwt s owner listed signed same written =
        let a' : Account = record a { jwt = jwt; updated_at = now } in
        let (created, updated, found) = laws.get-update a' s written in
        record {
          account = record a { jwt = jwt; created_at = created; updated_at = updated };
          operator = o;
          scoped_keys = ks;
          signed_at = now;
          found = ap (λ i. d.accounts.get_by_id i (d.accounts.update a' s).1) (sym same) ∙ found;
          owner = laws.operators-update a' s a.operator_id ∙ owner;
          listed = laws.scoped_keys-update a' s id up_to_1000 ∙ listed;
          signed = generate-restamped now created updated jwt a o ks ∙ signed;
        }

    resigned_parts :
        (id : Uuid) (s : S) (a' : Account)
        → resigned_account d now id s ≡ ok a'
        → (a : Account) × (o : Operator) × (ks : List ScopedSigningKey) × (jwt : String)
          × (d.accounts.get_by_id id s ≡ ok a)
          × (d.operators.get_by_id a.operator_id s ≡ ok o)
          × (d.scoped_keys.list_by_account id up_to_1000 s ≡ ok ks)
          × (generate_account_jwt d.encryptor d.nkeys now a o ks ≡ ok jwt)
          × (record a { jwt = jwt; updated_at = now } ≡ a')
    unfolding resigned_account
    resigned_parts id s a' h =
        let (a, ea, h₁) = wrapped-bind-eq-ok _ (d.accounts.get_by_id id s) _ h in
        let (o, eo, h₂) = wrapped-bind-eq-ok _ (d.operators.get_by_id a.operator_id s) _ h₁ in
        let (ks, ek, h₃) =
          wrapped-bind-eq-ok _ (d.scoped_keys.list_by_account id up_to_1000 s) _ h₂ in
        let (jwt, ej, h₄) =
          wrapped-bind-eq-ok _ (generate_account_jwt d.encryptor d.nkeys now a o ks) _ h₃ in
        (a, o, ks, jwt, ea, eo, ek, ej, ok-injective h₄)

    -- On repositories with `AccountLaws`, a successful `regenerateAccountJWT` leaves the
    -- account's JWT fresh.
    pub regenerate-IsFresh :
        (id : Uuid) (s : S)
        → (regenerate_account_jwt d now id s).0 ≡ ok tt
        → IsFresh d (regenerate_account_jwt d now id s).1 id
    unfolding regenerate_account_jwt
    regenerate-IsFresh id s h =
        on_ok-ensures (λ s'. IsFresh d s' id) (resigned_account d now id s) _ s h
          λ a' e h'.
            let (a, o, ks, jwt, ea, eo, ek, ej, same) = resigned_parts id s a' e in
            rw (← same) (
              update-IsFresh id a o ks jwt s eo ek ej (laws.get-id id s a ea) (
                wrapped-eq-ok "failed to persist regenerated account JWT"
                  (d.accounts.update (record a { jwt = jwt; updated_at = now }) s).0 (rw same h')))

    after_signing-eq-ok :
        (k key : ScopedSigningKey) (r : Result (Unit {0})) (s : S)
        → (after_signing d now k r s).0 ≡ ok key
        → (r ≡ ok tt) × (k ≡ key) × ((after_signing d now k r s).1 ≡ s)
    unfolding after_signing
    after_signing-eq-ok k key (ok tt) s h = (refl, ok-injective h, refl)
    after_signing-eq-ok k key (err e) s h = cc

    sign_or_roll_back-IsFresh :
        (k key : ScopedSigningKey) (s : S)
        → (sign_or_roll_back d now k s).0 ≡ ok key
        → IsFresh d (sign_or_roll_back d now k s).1 key.account_id
    unfolding sign_or_roll_back
    sign_or_roll_back-IsFresh k key s h =
        let (r, s') = regenerate_account_jwt d now k.account_id s in
        let (done, same, end) = after_signing-eq-ok k key r s' h in
        rw (end, ← same) (regenerate-IsFresh k.account_id s done)

    -- On repositories with `AccountLaws`, after `CreateScopedSigningKey` returns a key, the JWT
    -- of the key's account is fresh.
    pub create-IsFresh :
        (draw : Draw) (req : CreateRequest) (s : S) (key : ScopedSigningKey)
        → (create_scoped_signing_key d now draw req s).0 ≡ ok key
        → IsFresh d (create_scoped_signing_key d now draw req s).1 key.account_id
    unfolding create_scoped_signing_key
    create-IsFresh draw req s key h =
        on_ok-ensures (λ s'. IsFresh d s' key.account_id) (new_key d now draw req s) _ s h
          λ k e h'.
            on_ok-ensures (λ s'. IsFresh d s' key.account_id)
              (wrapped _ (d.scoped_keys.create k s).0) _ (d.scoped_keys.create k s).1 h'
              λ _ _ h''. sign_or_roll_back-IsFresh k key (d.scoped_keys.create k s).1 h''

    -- On repositories with `AccountLaws`, after `DeleteScopedSigningKey` succeeds on a stored
    -- key, the JWT of the account that the key belonged to is fresh: it is what the JWT service
    -- makes of the stored account, its operator and the scoped keys that are then listed.
    pub delete-IsFresh :
        (id : Uuid) (s : S) (existing : ScopedSigningKey)
        → d.scoped_keys.get_by_id id s ≡ ok existing
        → (delete_scoped_signing_key d now id s).0 ≡ ok tt
        → IsFresh d (delete_scoped_signing_key d now id s).1 existing.account_id
    unfolding delete_scoped_signing_key
    delete-IsFresh id s existing found h =
        on_ok-ensures (λ s'. IsFresh d s' existing.account_id) (d.scoped_keys.get_by_id id s) _ s h
          λ k e h'.
            on_ok-ensures (λ s'. IsFresh d s' existing.account_id) (d.scoped_keys.delete id s).0 _
              (d.scoped_keys.delete id s).1 h'
              λ _ _ h''.
                let same : existing ≡ k = ok-injective (sym found ∙ e) in
                rw same (regenerate-IsFresh k.account_id (d.scoped_keys.delete id s).1 h'')

    key_to_update-eq :
        (id : Uuid) (req : UpdateRequest) (s : S) (old k : ScopedSigningKey)
        → d.scoped_keys.get_by_id id s ≡ ok old
        → key_to_update d now id req s ≡ ok k
        → old ≡ k
    unfolding key_to_update
    key_to_update-eq id req s old k found h =
        let (a, ea, h₁) = bind-eq-ok (d.scoped_keys.get_by_id id s) _ h in
        let (_, _, h₂) = bind-eq-ok (check_new_name d now id req a s) _ h₁ in
        ok-injective (sym found ∙ ea ∙ h₂)

    save_update-IsFresh :
        (req : UpdateRequest) (k key : ScopedSigningKey) (s : S)
        → (save_update d now req k s).0 ≡ ok key
        → IsFresh d (save_update d now req k s).1 k.account_id
    unfolding save_update apply_update
    save_update-IsFresh req k key s h =
        let k' = apply_update req now k in
        let P = λ (s' : S). IsFresh d s' k.account_id in
        let (w, s₁) = d.scoped_keys.update k' s in
        on_ok-ensures P (wrapped "failed to update scoped signing key" w) _ s₁ h λ _ _ h₁.
          let (r, s₂) = regenerate_account_jwt d now k.account_id s₁ in
          on_ok-ensures P r _ s₂ h₁ λ _ e _. regenerate-IsFresh k.account_id s₁ e

    save_update-eq-ok :
        (req : UpdateRequest) (k key : ScopedSigningKey) (s : S)
        → (save_update d now req k s).0 ≡ ok key
        → (apply_update req now k ≡ key) × ((d.scoped_keys.update key s).0 ≡ ok tt)
    unfolding save_update
    save_update-eq-ok req k key s h =
        let k' = apply_update req now k in
        let (w, s₁) = d.scoped_keys.update k' s in
        let (_, saved, h₁) = on_ok-eq-ok (wrapped "failed to update scoped signing key" w) _ s₁ h in
        let (r, s₂) = regenerate_account_jwt d now k'.account_id s₁ in
        let (_, _, h₂) = on_ok-eq-ok r _ s₂ h₁ in
        let same : k' ≡ key = ok-injective h₂ in
        (same, rw (← same) (wrapped-eq-ok "failed to update scoped signing key" w saved))

    update_key-changed :
        (id : Uuid) (req : UpdateRequest) (s : S) (old : ScopedSigningKey)
        → key_to_update d now id req s ≡ ok old
        → is_changed req old ≡ true
        → update_scoped_signing_key d now id req s ≡ save_update d now req old s
    unfolding update_scoped_signing_key
    update_key-changed id req s old e changed = rw (e, changed)

    update_key-unchanged :
        (id : Uuid) (req : UpdateRequest) (s : S) (old : ScopedSigningKey)
        → key_to_update d now id req s ≡ ok old
        → is_changed req old ≡ false
        → update_scoped_signing_key d now id req s ≡ (ok old, s)
    unfolding update_scoped_signing_key
    update_key-unchanged id req s old e unchanged = rw (e, unchanged)

    update_key-loaded :
        (id : Uuid) (req : UpdateRequest) (s : S) (old key : ScopedSigningKey)
        → d.scoped_keys.get_by_id id s ≡ ok old
        → (update_scoped_signing_key d now id req s).0 ≡ ok key
        → key_to_update d now id req s ≡ ok old
    unfolding update_scoped_signing_key
    update_key-loaded id req s old key found h =
        let (k, e, _) = on_ok-eq-ok (key_to_update d now id req s) _ s h in
        e ∙ ap ok (sym (key_to_update-eq id req s old k found e))

    -- On repositories with `AccountLaws`, an `UpdateScopedSigningKey` of a stored key that
    -- succeeds returns the key with every field that the request gives, and all else as stored
    -- but for the time of the update; and either this key was saved and the JWT of its account is
    -- fresh, or the request changes nothing, the stored key is returned and nothing is written.
    pub update_key-IsFresh :
        (id : Uuid) (req : UpdateRequest) (s : S) (old key : ScopedSigningKey)
        → d.scoped_keys.get_by_id id s ≡ ok old
        → (update_scoped_signing_key d now id req s).0 ≡ ok key
        → IsApplied req old key
          × (((is_changed req old ≡ true)
                × ((d.scoped_keys.update key s).0 ≡ ok tt)
                × IsFresh d (update_scoped_signing_key d now id req s).1 old.account_id)
              ⊎ ((is_changed req old ≡ false)
                  × (key ≡ old)
                  × ((update_scoped_signing_key d now id req s).1 ≡ s)))
    update_key-IsFresh id req s old key found h = elim (Bool-cases (is_changed req old)) [
      | inl changed ↦
          let q = update_key-changed id req s old loaded changed in
          let (same, saved) = save_update-eq-ok req old key s (rw q at h) in
          (
            rw (← same) (apply_update-IsApplied req now old),
            inl (changed, saved, rw q (save_update-IsFresh req old key s (rw q at h))),
          )
      | inr unchanged ↦
          let q = update_key-unchanged id req s old loaded unchanged in
          let same : key ≡ old = sym (ok-injective (rw q at h)) in
          (rw same (is_changed-IsApplied req old unchanged), inr (unchanged, same, rw q))
    ]
      where
        loaded : key_to_update d now id req s ≡ ok old
        loaded = update_key-loaded id req s old key found h
