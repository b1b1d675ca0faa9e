-- ===== src/Auth/Scoped.antt =====
-- API users keep the scope of their role, whatever calls are made.
use nis.Prelude.{
  ℕ, not, str_eq, String, ◌≡◌, refl, ◌≢◌, ◌⊎◌, inl, inr, sym, ap, List, [], ◌∷◌, arith,
}
use nis.Exec.{
  Error, ok, err, bind-eq-ok, fail_if, fail_if-eq-ok, on_ok-keeps, wrapped-bind-eq-ok, ok-injective,
  Result-cases,
}
use nis.Entities.{Uuid, Time, ApiUser, admin, role_is_valid, role_eq_iff}
use nis.Repositories.{ApiUserRepository}
use nis.Auth.{
  AuthLib, CreateRequest, RoleRequest, validate_scope, admins_only, new_api_user, create_api_user,
  with_password, update_api_user_password, with_role, update_api_user_role, delete_api_user,
  save_user, username_is_free,
}
use nis.Auth.Scope.{IsWellScoped, validate_scope_sound}

-- What the database provides: a row that is found after a write was there before, or is the row
-- written, up to its times.
pub record ApiUserLaws {S : Type 0} (repo : ApiUserRepository S) : Type 0 where
  pub get-create :
      (u : ApiUser) (s : S) (id : Uuid) (x : ApiUser)
      → repo.get_by_id id (repo.create u s).1 ≡ ok x
      → (repo.get_by_id id s ≡ ok x)
        ⊎ ((c : Time) × (t : Time) × (x ≡ record u { created_at = c; updated_at = t }))
  pub get-update :
      (u : ApiUser) (s : S) (id : Uuid) (x : ApiUser)
      → repo.get_by_id id (repo.update u s).1 ≡ ok x
      → (repo.get_by_id id s ≡ ok x)
        ⊎ ((c : Time) × (t : Time) × (x ≡ record u { created_at = c; updated_at = t }))
  pub get-delete :
      (j : Uuid) (s : S) (id : Uuid) (x : ApiUser)
      → repo.get_by_id id (repo.delete j s).1 ≡ ok x
      → repo.get_by_id id s ≡ ok x

-- The calls that write API users, with what each draws.
pub data Call : Type 0 where
  create : Time → Uuid → CreateRequest → Call
  set_password : Time → Uuid → String → Call
  set_role : Time → Uuid → RoleRequest → Call
  delete : Time → Uuid → Call

module _ {S : Type 0} (repo : ApiUserRepository S) (lib : AuthLib) (ttl : ℕ) where
  -- The world after a call by a requesting user.
  abbrev pub after : ApiUser → Call → S → S
  after by (create now id req) s = (create_api_user repo lib ttl now id req by s).1
  after by (set_password now id password) s =
      (update_api_user_password repo lib ttl now id password by s).1
  after by (set_role now id req) s = (update_api_user_role repo lib ttl now id req by s).1
  after by (delete now id) s = (delete_api_user repo lib ttl now id by s).1

  -- The world after calls by any users, in order.
  abbrev pub after_all : List (ApiUser × Call) → S → S
  after_all [] s = s
  after_all ((by, call) ∷ calls) s = after_all calls (after by call s)

  -- A predicate on worlds: every API user that can be found has the scope of its role.
  abbrev pub AllWellScoped : S → Type 0
  AllWellScoped s =
      (id : Uuid) (x : ApiUser)
      → repo.get_by_id id s ≡ ok x
      → IsWellScoped x.role x.operator_id x.account_id

  admins_only_sound :
      (now : Time) (denial : String) (by : ApiUser)
      → admins_only repo lib ttl now denial by ≡ ok tt
      → by.role ≡ admin
  unfolding admins_only
  admins_only_sound now denial by h =
      (role_eq_iff by.role admin).0 (ground (arith, fail_if-eq-ok _ _ h))

  save_user-world :
      (now : Time) (u : ApiUser) (s : S) → (save_user repo lib ttl now u s).1 ≡ (repo.update u s).1
  unfolding save_user
  save_user-world now u s = elim (Result-cases (repo.update u s).0) [
    | inl (_, e) ↦ rw e refl
    | inr (_, e) ↦ rw e refl
  ]

  new_api_user_sound :
      (now : Time) (id : Uuid) (req : CreateRequest) (by : ApiUser) (s : S) {u : ApiUser}
      → new_api_user repo lib ttl now id req by s ≡ ok u
      → (by.role ≡ admin) × IsWellScoped u.role u.operator_id u.account_id
  unfolding new_api_user
  new_api_user_sound now id req by s h =
      let (_, e1, h1) = bind-eq-ok (admins_only repo lib ttl now _ by) _ h in
      let (_, _, h2) = bind-eq-ok (fail_if (str_eq req.username "") _) _ h1 in
      let (_, _, h3) = bind-eq-ok (fail_if (str_eq req.password "") _) _ h2 in
      let (_, e4, h4) = bind-eq-ok (fail_if (not (role_is_valid req.role)) _) _ h3 in
      let (_, e5, h5) = bind-eq-ok (validate_scope req.role req.operator_id req.account_id) _ h4 in
      let (_, _, h6) = bind-eq-ok (username_is_free (repo.get_by_username req.username s)) _ h5 in
      let (_, _, h7) = wrapped-bind-eq-ok "failed to hash password" (lib.hash req.password) _ h6 in
      let scoped =
        validate_scope_sound req.role req.operator_id req.account_id
          (ground (arith, fail_if-eq-ok _ _ e4)) e5 in
      (admins_only_sound now _ by e1, rw (← ok-injective h7) scoped)

  with_password_sound :
      (now : Time) (id : Uuid) (password : String) (by : ApiUser) (s : S) {u : ApiUser}
      → with_password repo lib ttl now id password by s ≡ ok u
      → (by.role ≡ admin)
        × (x : ApiUser) × (repo.get_by_id id s ≡ ok x)
        × (u.role ≡ x.role)
        × (u.operator_id ≡ x.operator_id)
        × (u.account_id ≡ x.account_id)
  unfolding with_password
  with_password_sound now id password by s h =
      let (_, e1, h1) = bind-eq-ok (admins_only repo lib ttl now _ by) _ h in
      let (_, _, h2) = bind-eq-ok (fail_if (str_eq password "") _) _ h1 in
      let (x, e3, h3) = bind-eq-ok (repo.get_by_id id s) _ h2 in
      let (_, _, h4) = wrapped-bind-eq-ok "failed to hash password" (lib.hash password) _ h3 in
      let same = sym (ok-injective h4) in
      (
        admins_only_sound now _ by e1,
        x,
        e3,
        ap (λ y. y.role) same,
        ap (λ y. y.operator_id) same,
        ap (λ y. y.account_id) same,
      )

  with_role_sound :
      (now : Time) (id : Uuid) (req : RoleRequest) (by : ApiUser) (s : S) {u : ApiUser}
      → with_role repo lib ttl now id req by s ≡ ok u
      → (by.role ≡ admin) × IsWellScoped u.role u.operator_id u.account_id
  unfolding with_role
  with_role_sound now id req by s h =
      let (_, e1, h1) = bind-eq-ok (admins_only repo lib ttl now _ by) _ h in
      let (_, e2, h2) = bind-eq-ok (fail_if (not (role_is_valid req.role)) _) _ h1 in
      let (_, e3, h3) = bind-eq-ok (validate_scope req.role req.operator_id req.account_id) _ h2 in
      let (x, _, h4) = bind-eq-ok (repo.get_by_id id s) _ h3 in
      let scoped =
        validate_scope_sound req.role req.operator_id req.account_id
          (ground (arith, fail_if-eq-ok _ _ e2)) e3 in
      (admins_only_sound now _ by e1, rw (← ok-injective h4) scoped)

  -- A call to create, delete or change an API user, made by anyone whose role is not admin,
  -- leaves the world as it was.
  pub after-not_admin : (by : ApiUser) (call : Call) (s : S) → by.role ≢ admin → after by call s ≡ s
  unfolding create_api_user update_api_user_password update_api_user_role delete_api_user
  after-not_admin by (create now id req) s outsider =
      on_ok-keeps (λ w. w ≡ s) (new_api_user repo lib ttl now id req by s) _ s refl
        λ u e. elim (outsider (new_api_user_sound now id req by s e).0) [ ]
  after-not_admin by (set_password now id password) s outsider =
      on_ok-keeps (λ w. w ≡ s) (with_password repo lib ttl now id password by s) _ s refl
        λ u e. elim (outsider (with_password_sound now id password by s e).0) [ ]
  after-not_admin by (set_role now id req) s outsider =
      on_ok-keeps (λ w. w ≡ s) (with_role repo lib ttl now id req by s) _ s refl
        λ u e. elim (outsider (with_role_sound now id req by s e).0) [ ]
  after-not_admin by (delete now id) s outsider =
      on_ok-keeps (λ w. w ≡ s) (admins_only repo lib ttl now _ by) _ s refl
        λ u e. elim (outsider (admins_only_sound now _ by e)) [ ]

  module _ (laws : ApiUserLaws repo) where
    update-AllWellScoped :
        (u : ApiUser) (s : S)
        → AllWellScoped s
        → IsWellScoped u.role u.operator_id u.account_id
        → AllWellScoped (repo.update u s).1
    update-AllWellScoped u s all scoped id x found = elim (laws.get-update u s id x found) [
      | inl before ↦ all id x before
      | inr (c, t, same) ↦ rw same scoped
    ]

    create-AllWellScoped :
        (u : ApiUser) (s : S)
        → AllWellScoped s
        → IsWellScoped u.role u.operator_id u.account_id
        → AllWellScoped (repo.create u s).1
    create-AllWellScoped u s all scoped id x found = elim (laws.get-create u s id x found) [
      | inl before ↦ all id x before
      | inr (c, t, same) ↦ rw same scoped
    ]

    create_api_user-world :
        (now : Time) (id : Uuid) (req : CreateRequest) (by : ApiUser) (u : ApiUser) (s : S)
        → new_api_user repo lib ttl now id req by s ≡ ok u
        → (create_api_user repo lib ttl now id req by s).1 ≡ (repo.create u s).1
    unfolding create_api_user
    create_api_user-world now id req by u s e = elim (Result-cases (repo.create u s).0) [
      | inl (_, e') ↦ rw (e, e') refl
      | inr (_, e') ↦ rw (e, e') refl
    ]

    create_api_user-refused :
        (now : Time) (id : Uuid) (req : CreateRequest) (by : ApiUser) (x : Error) (s : S)
        → new_api_user repo lib ttl now id req by s ≡ err x
        → (create_api_user repo lib ttl now id req by s).1 ≡ s
    unfolding create_api_user
    create_api_user-refused now id req by x s e = rw e refl

    -- One call keeps every API user well scoped.
    after-AllWellScoped :
        (by : ApiUser) (call : Call) (s : S) → AllWellScoped s → AllWellScoped (after by call s)
    unfolding update_api_user_password update_api_user_role delete_api_user
    after-AllWellScoped by (create now id req) s all =
        elim (Result-cases (new_api_user repo lib ttl now id req by s)) [
          | inl (u, e) ↦
              rw (create_api_user-world now id req by u s e)
                (create-AllWellScoped u s all (new_api_user_sound now id req by s e).1)
          | inr (x, e) ↦ rw (create_api_user-refused now id req by x s e) all
        ]
    after-AllWellScoped by (set_password now id password) s all =
        on_ok-keeps AllWellScoped (with_password repo lib ttl now id password by s) _ s all λ u e.
          let (_, x, found, r, o, a) = with_password_sound now id password by s e in
          rw (save_user-world now u s)
            (update-AllWellScoped u s all (rw (r, o, a) (all id x found)))
    after-AllWellScoped by (set_role now id req) s all =
        on_ok-keeps AllWellScoped (with_role repo lib ttl now id req by s) _ s all λ u e.
          rw (save_user-world now u s)
            (update-AllWellScoped u s all (with_role_sound now id req by s e).1)
    after-AllWellScoped by (delete now id) s all =
        on_ok-keeps AllWellScoped (admins_only repo lib ttl now _ by) _ s all
          λ _ e j x found. all j x (laws.get-delete id s j x found)

    after_all-AllWellScoped :
        (calls : List (ApiUser × Call)) (s : S)
        → AllWellScoped s
        → AllWellScoped (after_all calls s)
    after_all-AllWellScoped [] s all = all
    after_all-AllWellScoped ((by, call) ∷ calls) s all =
        after_all-AllWellScoped calls (after by call s) (after-AllWellScoped by call s all)

    -- On a repository with `ApiUserLaws`, whatever calls to create, delete and change API users
    -- are made, by whatever users and in whatever order, if every API user had the scope of their
    -- role before, then an API user that can be found afterwards has the scope of their role.
    pub after_all-IsWellScoped :
        (calls : List (ApiUser × Call)) (s : S) (id : Uuid) (x : ApiUser)
        → AllWellScoped s
        → repo.get_by_id id (after_all calls s) ≡ ok x
        → IsWellScoped x.role x.operator_id x.account_id
    after_all-IsWellScoped calls s id x all found = after_all-AllWellScoped calls s all id x found
