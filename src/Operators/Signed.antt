-- ===== src/Operators/Signed.antt =====
-- Updates of operators, and the choice of a system account.
use nis.Prelude.{[], ◌∷◌, String, ◌≡◌, refl, ◌∙◌, Bool-cases, inl, inr, ◌⊎◌, true, false, codes}
use nis.Exec.{
  Result, ok, bind-eq-ok, wrapped-bind-eq-ok, on_ok-eq-ok, wrapped-eq-ok, ok-injective, wrapped,
}
use nis.Entities.{Uuid, Time, Operator}
use nis.Jwt.{OperatorClaims, generate_operator_jwt}
use nis.Services.{Deps}
use nis.Text.{Bytes}
use nis.Operators.{
  UpdateRequest, is_changed, apply_update, check_new_name, operator_to_update, signed_again,
  save_operator, update_operator, names_account, set_system_account,
}
use nis.Operators.Created.{generate_operator-with_jwt}

abbrev pub StartsWithA : Bytes → Type 0
StartsWithA key = (rest : Bytes) × (key ≡ b'A' ∷ rest)

module _ {S KeyPair : Type 0} (d : Deps S KeyPair) (now : Time) where
  -- The JWT is the service's, signed over the operator as it is.
  abbrev pub IsSigned : Operator → Type 0
  IsSigned o = generate_operator_jwt d.encryptor d.nkeys now o ≡ ok o.jwt

  signed_again-IsSigned :
      (o signed : Operator)
      → signed_again d now o ≡ ok signed
      → (signed ≡ record o { jwt = signed.jwt }) × IsSigned signed
  unfolding signed_again
  signed_again-IsSigned o signed h =
      let (jwt, e, h₁) =
        wrapped-bind-eq-ok "failed to regenerate operator JWT"
          (generate_operator_jwt d.encryptor d.nkeys now o) _ h in
      rw (← ok-injective h₁) (refl, generate_operator-with_jwt d now jwt o ∙ e)

  save_operator-eq-ok :
      (o operator : Operator) (s : S)
      → (save_operator d now o s).0 ≡ ok operator
      → (o ≡ operator)
        × ((d.operators.update o s).0 ≡ ok tt)
        × ((save_operator d now o s).1 ≡ (d.operators.update o s).1)
  unfolding save_operator
  save_operator-eq-ok o operator s h =
      let (r, s₁) = d.operators.update o s in
      let (_, e, h₁) = on_ok-eq-ok (wrapped "failed to update operator" r) _ s₁ h in
      (ok-injective h₁, wrapped-eq-ok "failed to update operator" r e, rw e refl)

  -- The result of an update: the stored operator unchanged and nothing written, or the operator
  -- with the request's fields, signed as it is and saved.
  pub data IsUpdated (id : Uuid) (req : UpdateRequest) (s : S) (operator : Operator) : Type 0 where
    unchanged :
        d.operators.get_by_id id s ≡ ok operator
        → is_changed req operator ≡ false
        → update_operator d now id req s ≡ (ok operator, s)
        → IsUpdated id req s operator
    changed :
        (stored : Operator)
        → d.operators.get_by_id id s ≡ ok stored
        → is_changed req stored ≡ true
        → operator ≡ record (apply_update req now stored) { jwt = operator.jwt }
        → IsSigned operator
        → (d.operators.update operator s).0 ≡ ok tt
        → (update_operator d now id req s).1 ≡ (d.operators.update operator s).1
        → IsUpdated id req s operator

  operator_to_update-found :
      (id : Uuid) (req : UpdateRequest) (s : S) (o : Operator)
      → operator_to_update d now id req s ≡ ok o
      → d.operators.get_by_id id s ≡ ok o
  unfolding operator_to_update
  operator_to_update-found id req s o h =
      let (o', e, h₁) = bind-eq-ok (d.operators.get_by_id id s) _ h in
      let (_, _, h₂) = bind-eq-ok (check_new_name d now id req o' s) _ h₁ in e ∙ h₂

  -- An operator that `UpdateOperator` returns is the stored one, if the request changes nothing of
  -- it, and the world is as it was; if the request changes something, it is the stored one with the
  -- request's name and description, its JWT signed over it, and the world is the one after it was
  -- saved.
  pub update_operator-IsUpdated :
      (id : Uuid) (req : UpdateRequest) (s : S) (operator : Operator)
      → (update_operator d now id req s).0 ≡ ok operator
      → IsUpdated id req s operator
  unfolding update_operator
  update_operator-IsUpdated id req s operator h =
      let (o, found, h₁) = on_ok-eq-ok (operator_to_update d now id req s) _ s h in
      let stored = operator_to_update-found id req s o found in
      elim (Bool-cases (is_changed req o)) [
        | inl e ↦
            let (signed, es, h₂) =
              on_ok-eq-ok (signed_again d now (apply_update req now o)) _ s (rw e at h₁) in
            let (same, saved, world) = save_operator-eq-ok signed operator s h₂ in
            let (fields, is_signed) = signed_again-IsSigned (apply_update req now o) signed es in
            changed o stored e (rw (← same) fields) (rw (← same) is_signed) (rw (← same) saved)
              (rw (found, e, es, ← same) world)
        | inr e ↦
            let same = ok-injective (rw e at h₁) in
            unchanged (rw (← same) stored) (rw (← same) e) (rw (found, e, same) refl)
      ]

  -- What `SetSystemAccount` has saved.
  pub record IsLinked (decode : String → Result OperatorClaims) (id : Uuid) (key : String) (s : S)
      (operator : Operator) : Type 0 where
    pub stored : Operator
    pub found : d.operators.get_by_id id s ≡ ok stored
    pub accepted : (codes key ≡ []) ⊎ StartsWithA (codes key)
    pub linked :
        operator
        ≡ record stored { system_account_pub_key = key; updated_at = now; jwt = operator.jwt }
    pub token :
        ((names_account d now (decode stored.jwt) key ≡ true) × (operator.jwt ≡ stored.jwt))
        ⊎ IsSigned operator
    pub saved : (d.operators.update operator s).0 ≡ ok tt
    pub world : (set_system_account d now decode id key s).1 ≡ (d.operators.update operator s).1
