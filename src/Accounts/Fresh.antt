-- ===== src/Accounts/Fresh.antt =====
-- The account service keeps account JWTs fresh: regenerating one never drops a stored scoped key.
use nis.Prelude.{arith, ◌≡◌, refl, sym, ◌∙◌, ap, true, false, Bool-cases, inl, inr, ◌⊎◌}
use nis.Exec.{
  ok, bind-eq-ok, wrapped-bind-eq-ok, on_ok-ensures, on_ok-eq-ok, wrapped-eq-ok, ok-injective,
  wrapped,
}
use nis.Entities.{Uuid, Time, Account}
use nis.Jwt.{generate_account_jwt}
use nis.Services.{Deps, up_to_1000}
use nis.Services.Laws.{AccountLaws}
use nis.Services.Updates.{IsRequested, or_old-IsRequested, changes_text-IsRequested}
use nis.ScopedKeys.Fresh.{IsFresh, update-IsFresh}
use nis.Accounts.{
  UpdateRequest, LimitsRequest, is_changed, apply_update, apply_limits, signed_again, save_signed,
  check_new_name, account_to_update, update_account, update_jet_stream_limits,
}

-- The request's fields are set, and all else is as it was but for the JWT and the time.
pub record IsApplied (req : UpdateRequest) (old account : Account) : Type 0 where
  pub name : IsRequested req.name old.name account.name
  pub description : IsRequested req.description old.description account.description
  pub kept : account ≡ record old {
    name = account.name;
    description = account.description;
    jwt = account.jwt;
    updated_at = account.updated_at;
  }

apply_update-IsApplied :
    (now : Time) (req : UpdateRequest) (old result : Account)
    → result ≡ record (apply_update req old) { jwt = result.jwt; updated_at = now }
    → IsApplied req old result
unfolding apply_update
apply_update-IsApplied now req old result e = record {
  name = rw e (or_old-IsRequested req.name old.name);
  description = rw e (or_old-IsRequested req.description old.description);
  kept = rw e refl;
}

is_changed-IsApplied :
    (req : UpdateRequest) (old : Account) → is_changed req old ≡ false → IsApplied req old old
unfolding is_changed
is_changed-IsApplied req old h = record {
  name = changes_text-IsRequested req.name old.name (ground (arith, h));
  description = changes_text-IsRequested req.description old.description (ground (arith, h));
  kept = refl;
}

module _ {S KeyPair : Type 0} (d : Deps S KeyPair) (laws : AccountLaws d) (now : Time) where
  save_signed-IsFresh :
      (a result : Account) (s : S)
      → (save_signed d now a s).0 ≡ ok result
      → IsFresh d (save_signed d now a s).1 a.id
  unfolding save_signed signed_again
  save_signed-IsFresh a result s h =
      on_ok-ensures (λ s'. IsFresh d s' a.id) (signed_again d now a s) _ s h
        λ a' e h'.
          let (o, eo, h₁) =
            wrapped-bind-eq-ok "failed to get operator" (d.operators.get_by_id a.operator_id s) _
              e in
          let (ks, ek, h₂) =
            wrapped-bind-eq-ok "failed to list scoped signing keys"
              (d.scoped_keys.list_by_account a.id up_to_1000 s) _ h₁ in
          let (jwt, ej, h₃) =
            wrapped-bind-eq-ok "failed to regenerate account JWT"
              (generate_account_jwt d.encryptor d.nkeys now a o ks) _ h₂ in
          let same : record a { jwt = jwt; updated_at = now } ≡ a' = ok-injective h₃ in
          on_ok-ensures (λ s'. IsFresh d s' a.id)
            (wrapped "failed to update account" (d.accounts.update a' s).0) _
            (d.accounts.update a' s).1 h'
            λ u eu _. rw (← same) (
              update-IsFresh d laws now a.id a o ks jwt s eo ek ej refl (
                wrapped-eq-ok "failed to update account"
                  (d.accounts.update (record a { jwt = jwt; updated_at = now }) s).0 (rw same eu)))

  save_signed-eq-ok :
      (a result : Account) (s : S)
      → (save_signed d now a s).0 ≡ ok result
      → (result ≡ record a { jwt = result.jwt; updated_at = now })
        × ((d.accounts.update result s).0 ≡ ok tt)
  unfolding save_signed signed_again
  save_signed-eq-ok a result s h =
      let (a', e, h') = on_ok-eq-ok (signed_again d now a s) _ s h in
      let (o, _, h₁) =
        wrapped-bind-eq-ok "failed to get operator" (d.operators.get_by_id a.operator_id s) _ e in
      let (ks, _, h₂) =
        wrapped-bind-eq-ok "failed to list scoped signing keys"
          (d.scoped_keys.list_by_account a.id up_to_1000 s) _ h₁ in
      let (jwt, _, h₃) =
        wrapped-bind-eq-ok "failed to regenerate account JWT"
          (generate_account_jwt d.encryptor d.nkeys now a o ks) _ h₂ in
      let (w, s₁) = d.accounts.update a' s in
      let (_, saved, h₄) = on_ok-eq-ok (wrapped "failed to update account" w) _ s₁ h' in
      let same : a' ≡ result = ok-injective h₄ in
      let fields : record a { jwt = jwt; updated_at = now } ≡ result = ok-injective h₃ ∙ same in
      (rw (← fields) refl, rw (← same) (wrapped-eq-ok "failed to update account" w saved))

  -- On repositories with `AccountLaws`, after `UpdateJetStreamLimits` succeeds the account's JWT
  -- is fresh.
  pub limits-IsFresh :
      (id : Uuid) (req : LimitsRequest) (s : S) (result : Account)
      → (update_jet_stream_limits d now id req s).0 ≡ ok result
      → IsFresh d (update_jet_stream_limits d now id req s).1 id
  unfolding update_jet_stream_limits apply_limits
  limits-IsFresh id req s result h =
      on_ok-ensures (λ s'. IsFresh d s' id) (d.accounts.get_by_id id s) _ s h
        λ a e h'. rw (← laws.get-id id s a e) (save_signed-IsFresh (apply_limits req a) result s h')

  account_to_update-eq :
      (id : Uuid) (req : UpdateRequest) (s : S) (old k : Account)
      → d.accounts.get_by_id id s ≡ ok old
      → account_to_update d now id req s ≡ ok k
      → old ≡ k
  unfolding account_to_update
  account_to_update-eq id req s old k found h =
      let (a, ea, h₁) = bind-eq-ok (d.accounts.get_by_id id s) _ h in
      let (_, _, h₂) = bind-eq-ok (check_new_name d now id req a s) _ h₁ in
      ok-injective (sym found ∙ ea ∙ h₂)

  update_account-loaded :
      (id : Uuid) (req : UpdateRequest) (s : S) (old result : Account)
      → d.accounts.get_by_id id s ≡ ok old
      → (update_account d now id req s).0 ≡ ok result
      → account_to_update d now id req s ≡ ok old
  unfolding update_account
  update_account-loaded id req s old result found h =
      let (k, e, _) = on_ok-eq-ok (account_to_update d now id req s) _ s h in
      e ∙ ap ok (sym (account_to_update-eq id req s old k found e))

  update_account-changed :
      (id : Uuid) (req : UpdateRequest) (s : S) (old : Account)
      → account_to_update d now id req s ≡ ok old
      → is_changed req old ≡ true
      → update_account d now id req s ≡ save_signed d now (apply_update req old) s
  unfolding update_account
  update_account-changed id req s old e changed = rw (e, changed)

  update_account-unchanged :
      (id : Uuid) (req : UpdateRequest) (s : S) (old : Account)
      → account_to_update d now id req s ≡ ok old
      → is_changed req old ≡ false
      → update_account d now id req s ≡ (ok old, s)
  unfolding update_account
  update_account-unchanged id req s old e unchanged = rw (e, unchanged)

  apply_update-id : (req : UpdateRequest) (a : Account) → (apply_update req a).id ≡ a.id
  unfolding apply_update
  apply_update-id req a = refl

  -- On repositories with `AccountLaws`, an `UpdateAccount` of a stored account that succeeds
  -- returns the account with the name and description that the request gives, and all else as
  -- stored but for the JWT and the time; and either this account was saved and its JWT is fresh,
  -- with every listed scoped key, or the request changes nothing, the stored account is returned
  -- and nothing is written.
  pub update_account-IsFresh :
      (id : Uuid) (req : UpdateRequest) (s : S) (old result : Account)
      → d.accounts.get_by_id id s ≡ ok old
      → (update_account d now id req s).0 ≡ ok result
      → IsApplied req old result
        × (((is_changed req old ≡ true)
              × ((d.accounts.update result s).0 ≡ ok tt)
              × IsFresh d (update_account d now id req s).1 id)
            ⊎ ((is_changed req old ≡ false)
                × (result ≡ old)
                × ((update_account d now id req s).1 ≡ s)))
  update_account-IsFresh id req s old result found h = elim (Bool-cases (is_changed req old)) [
    | inl changed ↦
        let q = update_account-changed id req s old loaded changed in
        let same = apply_update-id req old ∙ laws.get-id id s old found in
        let (fields, saved) = save_signed-eq-ok (apply_update req old) result s (rw q at h) in
        (
          apply_update-IsApplied now req old result fields,
          inl (
            changed,
            saved,
            rw (q, ← same) (save_signed-IsFresh (apply_update req old) result s (rw q at h)),
          ),
        )
    | inr unchanged ↦
        let q = update_account-unchanged id req s old loaded unchanged in
        let same : result ≡ old = sym (ok-injective (rw q at h)) in
        (rw same (is_changed-IsApplied req old unchanged), inr (unchanged, same, rw q))
  ]
    where
      loaded : account_to_update d now id req s ≡ ok old
      loaded = update_account-loaded id req s old result found h
