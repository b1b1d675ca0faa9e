-- ===== src/Users/Update.antt =====
-- Updates and deletions of users.
use nis.Prelude.{
  String, ◌≡◌, refl, ◌↔◌, sym, ◌∙◌, ap, true, false, ◌&&◌, Bool-cases, inl, inr, ◌⊎◌, arith, str_eq,
  eq_iff,
}
use nis.Exec.{
  ok, err, message, bind-eq-ok, wrapped-bind-eq-ok, on_ok-eq-ok, wrapped-eq-ok, ok-injective,
  wrapped,
}
use nis.Entities.{Uuid, Time, Account, User}
use nis.Jwt.{generate_user_jwt}
use nis.Services.{Deps}
use nis.Services.Updates.{IsRequested, or_old-IsRequested, changes_text-IsRequested}
use nis.Users.{
  UpdateRequest, is_changed, apply_update, signing_key, check_new_name, user_to_update,
  signed_again, save_signed, update_user, may_delete, delete_user,
}
use nis.Users.Issued.{IsIssued, generate-with_jwt}

-- The request's fields are set, and all else is as it was but for the JWT and the time.
pub record IsApplied (req : UpdateRequest) (old user : User) : Type 0 where
  pub name : IsRequested req.name old.name user.name
  pub description : IsRequested req.description old.description user.description
  pub kept : user ≡ record old {
    name = user.name;
    description = user.description;
    jwt = user.jwt;
    updated_at = user.updated_at;
  }

apply_update-IsApplied :
    (now : Time) (req : UpdateRequest) (old result : User)
    → result ≡ record (apply_update req now old) { jwt = result.jwt }
    → IsApplied req old result
unfolding apply_update
apply_update-IsApplied now req old result e = record {
  name = rw e (or_old-IsRequested req.name old.name);
  description = rw e (or_old-IsRequested req.description old.description);
  kept = rw e refl;
}

is_changed-IsApplied :
    (req : UpdateRequest) (old : User) → is_changed req old ≡ false → IsApplied req old old
unfolding is_changed
is_changed-IsApplied req old h = record {
  name = changes_text-IsRequested req.name old.name (ground (arith, h));
  description = changes_text-IsRequested req.description old.description (ground (arith, h));
  kept = refl;
}

module _ {S KeyPair : Type 0} (d : Deps S KeyPair) (now : Time) where
  save_signed-eq-ok :
      (u result : User) (s : S)
      → (save_signed d now u s).0 ≡ ok result
      → (result ≡ record u { jwt = result.jwt })
        × IsIssued d now s result
        × ((d.users.update result s).0 ≡ ok tt)
        × ((save_signed d now u s).1 ≡ (d.users.update result s).1)
  unfolding save_signed signed_again
  save_signed-eq-ok u result s h =
      let (u', e, h₁) = on_ok-eq-ok (signed_again d now u s) _ s h in
      let (a, found, e₁) =
        wrapped-bind-eq-ok "failed to get account" (d.accounts.get_by_id u.account_id s) _ e in
      let (k, key_found, e₂) = bind-eq-ok (signing_key d now u.scoped_signing_key_id s) _ e₁ in
      let (jwt, signed, e₃) =
        wrapped-bind-eq-ok "failed to regenerate user JWT"
          (generate_user_jwt d.encryptor d.nkeys now u a k) _ e₂ in
      let (_, saved, h₂) =
        on_ok-eq-ok (wrapped "failed to update user" (d.users.update u' s).0) _
          (d.users.update u' s).1 h₁ in
      let same : record u { jwt = jwt } ≡ result = ok-injective e₃ ∙ ok-injective h₂ in
      let written = wrapped-eq-ok "failed to update user" (d.users.update u' s).0 saved in
      (
        rw (← same) refl,
        rw (← same) (record {
          account = a;
          scoped_key = k;
          found = found;
          key_found = key_found;
          signed = generate-with_jwt d now jwt u a k ∙ signed;
        }),
        ap (λ x. (d.users.update x s).0) (sym (ok-injective h₂)) ∙ written,
        rw (e, ← ok-injective h₂, written) refl,
      )

  user_to_update-eq :
      (id : Uuid) (req : UpdateRequest) (s : S) (old k : User)
      → d.users.get_by_id id s ≡ ok old
      → user_to_update d now id req s ≡ ok k
      → old ≡ k
  unfolding user_to_update
  user_to_update-eq id req s old k found h =
      let (u, e, h₁) = bind-eq-ok (d.users.get_by_id id s) _ h in
      let (_, _, h₂) = bind-eq-ok (check_new_name d now id req u s) _ h₁ in
      ok-injective (sym found ∙ e ∙ h₂)

  update_user-loaded :
      (id : Uuid) (req : UpdateRequest) (s : S) (old result : User)
      → d.users.get_by_id id s ≡ ok old
      → (update_user d now id req s).0 ≡ ok result
      → user_to_update d now id req s ≡ ok old
  unfolding update_user
  update_user-loaded id req s old result found h =
      let (k, e, _) = on_ok-eq-ok (user_to_update d now id req s) _ s h in
      e ∙ ap ok (sym (user_to_update-eq id req s old k found e))

  update_user-changed :
      (id : Uuid) (req : UpdateRequest) (s : S) (old : User)
      → user_to_update d now id req s ≡ ok old
      → is_changed req old ≡ true
      → update_user d now id req s ≡ save_signed d now (apply_update req now old) s
  unfolding update_user
  update_user-changed id req s old e changed = rw (e, changed)

  update_user-unchanged :
      (id : Uuid) (req : UpdateRequest) (s : S) (old : User)
      → user_to_update d now id req s ≡ ok old
      → is_changed req old ≡ false
      → update_user d now id req s ≡ (ok old, s)
  unfolding update_user
  update_user-unchanged id req s old e unchanged = rw (e, unchanged)

  -- An `UpdateUser` of a stored user that succeeds returns the user with the name and description
  -- that the request gives, and all else as stored but for the JWT and the time; and either this
  -- user was saved last, with a JWT made from the stored account and scoped key, or the request
  -- changes nothing, the stored user is returned and nothing is written.
  pub update_user-IsIssued :
      (id : Uuid) (req : UpdateRequest) (s : S) (old result : User)
      → d.users.get_by_id id s ≡ ok old
      → (update_user d now id req s).0 ≡ ok result
      → IsApplied req old result
        × (((is_changed req old ≡ true)
              × IsIssued d now s result
              × ((d.users.update result s).0 ≡ ok tt)
              × ((update_user d now id req s).1 ≡ (d.users.update result s).1))
            ⊎ ((is_changed req old ≡ false)
                × (result ≡ old)
                × ((update_user d now id req s).1 ≡ s)))
  update_user-IsIssued id req s old result found h = elim (Bool-cases (is_changed req old)) [
    | inl changed ↦
        let q = update_user-changed id req s old loaded changed in
        let (fields, issued, saved, world) =
          save_signed-eq-ok (apply_update req now old) result s (rw q at h) in
        (apply_update-IsApplied now req old result fields, inl (changed, issued, saved, rw q world))
    | inr unchanged ↦
        let q = update_user-unchanged id req s old loaded unchanged in
        let same : result ≡ old = sym (ok-injective (rw q at h)) in
        (rw same (is_changed-IsApplied req old unchanged), inr (unchanged, same, rw q))
  ]
    where
      loaded : user_to_update d now id req s ≡ ok old
      loaded = update_user-loaded id req s old result found h

  is_system_iff :
      (a b : String)
      → ((str_eq a "$SYS" && str_eq b "system") ≡ true) ↔ ((a ≡ "$SYS") × (b ≡ "system"))
  is_system_iff a b = (
    λ h. ground (arith, eq_iff a "$SYS", eq_iff b "system"),
    λ h. ground (arith, eq_iff a "$SYS", eq_iff b "system", h.0, h.1),
  )

  -- Of a stored user whose account is stored: the user "system" of the account "$SYS" is refused
  -- and nothing changes; the deletion of any other user is the repository's.
  pub delete_user-guards :
      (id : Uuid) (s : S) (u : User) (a : Account)
      → d.users.get_by_id id s ≡ ok u
      → d.accounts.get_by_id u.account_id s ≡ ok a
      → ((a.name ≡ "$SYS")
          × (u.name ≡ "system")
          × (delete_user d now id s ≡ (
            err (
                message
                  "cannot delete system user: this user is the system user in the $SYS account"),
            s,
          )))
        ⊎ ((¬ ((a.name ≡ "$SYS") × (u.name ≡ "system")))
            × (delete_user d now id s ≡ d.users.delete id s))
  unfolding delete_user may_delete
  delete_user-guards id s u a found owner =
      elim (Bool-cases (str_eq a.name "$SYS" && str_eq u.name "system")) [
        | inl e ↦
            let (sys, system) = (is_system_iff a.name u.name).0 e in
            inl (sys, system, rw (found, owner, e) refl)
        | inr e ↦
            inr (λ both. cc (e, (is_system_iff a.name u.name).1 both), rw (found, owner, e) refl)
      ]
