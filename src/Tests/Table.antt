-- ===== src/Tests/Table.antt =====
-- A table of a database in memory, for the tests: rows under their identifiers.
use nis.Prelude.{
  ℕ, zero, suc, ◌≡◌, ◌≢◌, refl, ◌⊎◌, inl, inr, Bool, true, false, not, List, [], ◌∷◌, ◌==◌, ==_iff,
  if◌then◌else◌, keep, take, Bool-cases, arith, ap, ◌∙◌, sym,
}
use nis.Exec.{not_found, already_exists, Result, ok, err, ok-injective}
use nis.Entities.{Uuid}

abbrev pub first : {A : Type 0} → (A → Bool) → List A → Result A
first p [] = err not_found
first p (x ∷ xs) = if p x then ok x else first p xs

-- A positive limit bounds a listing.
abbrev pub at_most : {A : Type 0} → ℕ → List A → List A
at_most zero xs = xs
at_most (suc n) xs = take (suc n) xs

abbrev is_ok : {A : Type 0} → Result A → Bool
is_ok (ok a) = true
is_ok (err e) = false

module _ {A : Type 0} (id_of : A → Uuid) where
  abbrev pub find : Uuid → List A → Result A
  find id [] = err not_found
  find id (x ∷ xs) = if id_of x == id then ok x else find id xs

  abbrev pub replace : A → List A → List A
  replace a [] = []
  replace a (x ∷ xs) = if id_of x == id_of a then a ∷ replace a xs else x ∷ replace a xs

  abbrev pub remove : Uuid → List A → List A
  remove id = keep (λ x. not (id_of x == id))

  abbrev pub insert_row : A → List A → Result (Unit {0}) × List A
  insert_row a xs = if is_ok (find (id_of a) xs) then (err already_exists, xs) else (ok tt, a ∷ xs)

  abbrev pub update_row : A → List A → Result (Unit {0}) × List A
  update_row a xs = if is_ok (find (id_of a) xs) then (ok tt, replace a xs) else (err not_found, xs)

  abbrev pub delete_row : Uuid → List A → Result (Unit {0}) × List A
  delete_row id xs = if is_ok (find id xs) then (ok tt, remove id xs) else (err not_found, xs)

  find-result :
      (id : Uuid) (xs : List A) → (find id xs ≡ err not_found) ⊎ ((x : A) × (find id xs ≡ ok x))
  find-result id [] = inl refl
  find-result id (x ∷ xs) = elim (Bool-cases (id_of x == id)) [
    | inl e ↦ rw e (inr (x, refl))
    | inr e ↦ rw e (find-result id xs)
  ]

  pub find-id : (id : Uuid) (xs : List A) (a : A) → find id xs ≡ ok a → id_of a ≡ id
  find-id id [] a h = cc
  find-id id (x ∷ xs) a h = elim (Bool-cases (id_of x == id)) [
    | inl e ↦ rw (← ok-injective (rw e at h)) ((==_iff (id_of x) id).0 e)
    | inr e ↦ find-id id xs a (rw e at h)
  ]

  found-replace :
      (a : A) (xs : List A)
      → is_ok (find (id_of a) xs) ≡ true
      → find (id_of a) (replace a xs) ≡ ok a
  found-replace a [] h = cc
  found-replace a (x ∷ xs) h = elim (Bool-cases (id_of x == id_of a)) [
    | inl e ↦ rw (e, (==_iff (id_of a) (id_of a)).1 refl) refl
    | inr e ↦ rw (e, e) (found-replace a xs (rw e at h))
  ]

  pub find-update_row :
      (a : A) (xs : List A)
      → (update_row a xs).0 ≡ ok tt
      → find (id_of a) (update_row a xs).1 ≡ ok a
  find-update_row a xs h = elim (Bool-cases (is_ok (find (id_of a) xs))) [
    | inl e ↦ rw e (found-replace a xs e)
    | inr e ↦ absurd (ground (arith, e))
  ]

  find-replace :
      (a : A) (id : Uuid) (x : A) (xs : List A)
      → find id (replace a xs) ≡ ok x
      → (find id xs ≡ ok x) ⊎ (x ≡ a)
  find-replace a id x [] h = cc
  find-replace a id x (y ∷ xs) h = elim (Bool-cases (id_of y == id_of a)) [
    | inl e ↦ elim (Bool-cases (id_of a == id)) [
      | inl q ↦ inr (sym (ok-injective (rw (e, q) at h)))
      | inr q ↦ ground (arith, find-replace a id x xs, ==_iff (id_of y) (id_of a), h)
    ]
    | inr e ↦ elim (Bool-cases (id_of y == id)) [
      | inl q ↦ inl (rw q (rw (e, q) at h))
      | inr q ↦ rw q (find-replace a id x xs (rw (e, q) at h))
    ]
  ]

  pub find-updated :
      (a : A) (id : Uuid) (x : A) (xs : List A)
      → find id (update_row a xs).1 ≡ ok x
      → (find id xs ≡ ok x) ⊎ (x ≡ a)
  find-updated a id x xs h = elim (Bool-cases (is_ok (find (id_of a) xs))) [
    | inl e ↦ find-replace a id x xs (rw e at h)
    | inr e ↦ inl (rw e at h)
  ]

  pub find-inserted :
      (a : A) (id : Uuid) (x : A) (xs : List A)
      → find id (insert_row a xs).1 ≡ ok x
      → (find id xs ≡ ok x) ⊎ (x ≡ a)
  find-inserted a id x xs h = elim (Bool-cases (is_ok (find (id_of a) xs))) [
    | inl e ↦ inl (rw e at h)
    | inr e ↦ elim (Bool-cases (id_of a == id)) [
      | inl q ↦ inr (sym (ok-injective (rw (e, q) at h)))
      | inr q ↦ inl (rw (e, q) at h)
    ]
  ]

  find-removed : (id : Uuid) (xs : List A) → find id (remove id xs) ≡ err not_found
  find-removed id [] = refl
  find-removed id (y ∷ xs) = elim (Bool-cases (id_of y == id)) [
    | inl e ↦ rw e (find-removed id xs)
    | inr e ↦ rw (e, e) (find-removed id xs)
  ]

  find-remove_self : (id : Uuid) (x : A) (xs : List A) → find id (remove id xs) ≢ ok x
  find-remove_self id x xs h = cc (find-removed id xs)

  pub find-delete_row :
      (id : Uuid) (xs : List A)
      → (delete_row id xs).0 ≡ ok tt
      → find id (delete_row id xs).1 ≡ err not_found
  find-delete_row id xs h = elim (Bool-cases (is_ok (find id xs))) [
    | inl e ↦ rw e (find-removed id xs)
    | inr e ↦ absurd (ground (arith, e))
  ]

  find-remove :
      (j id : Uuid) (x : A) (xs : List A) → find id (remove j xs) ≡ ok x → find id xs ≡ ok x
  find-remove j id x [] h = h
  find-remove j id x (y ∷ xs) h = elim (Bool-cases (id_of y == j)) [
    | inl e ↦ elim (Bool-cases (id_of y == id)) [
      | inl q ↦
          let same : id ≡ j = sym ((==_iff (id_of y) id).0 q) ∙ (==_iff (id_of y) j).0 e in
          absurd (find-remove_self j x xs (ap (λ i. find i (remove j xs)) (sym same) ∙ (rw e at h)))
      | inr q ↦ rw q (find-remove j id x xs (rw e at h))
    ]
    | inr e ↦ elim (Bool-cases (id_of y == id)) [
      | inl q ↦ rw q (rw (e, q) at h)
      | inr q ↦ rw q (find-remove j id x xs (rw (e, q) at h))
    ]
  ]

  pub find-deleted :
      (j id : Uuid) (x : A) (xs : List A) → find id (delete_row j xs).1 ≡ ok x → find id xs ≡ ok x
  find-deleted j id x xs h = elim (Bool-cases (is_ok (find j xs))) [
    | inl e ↦ find-remove j id x xs (rw e at h)
    | inr e ↦ rw e at h
  ]

  pub find-insert_row :
      (a : A) (xs : List A)
      → (insert_row a xs).0 ≡ ok tt
      → find (id_of a) (insert_row a xs).1 ≡ ok a
  find-insert_row a xs h = elim (Bool-cases (is_ok (find (id_of a) xs))) [
    | inl e ↦ absurd (ground (arith, e))
    | inr e ↦ rw (e, (==_iff (id_of a) (id_of a)).1 refl) refl
  ]

  -- What was found before an insertion is found after it.
  pub find-kept :
      (a : A) (id : Uuid) (x : A) (xs : List A)
      → find id xs ≡ ok x
      → find id (insert_row a xs).1 ≡ ok x
  find-kept a id x xs h = elim (Bool-cases (is_ok (find (id_of a) xs))) [
    | inl e ↦ rw e h
    | inr e ↦ elim (Bool-cases (id_of a == id)) [
      | inl q ↦
          let same : id_of a ≡ id = (==_iff (id_of a) id).0 q in
          absurd (cc (rw (ap (λ i. find i xs) same ∙ h) at e))
      | inr q ↦ rw (e, q) h
    ]
  ]

  -- No deletion brings a row into being.
  pub find-missing :
      (j id : Uuid) (xs : List A)
      → find id xs ≡ err not_found
      → find id (delete_row j xs).1 ≡ err not_found
  find-missing j id xs h = elim (find-result id (delete_row j xs).1) [
    | inl e ↦ e
    | inr (x, e) ↦ absurd (cc (sym h ∙ find-deleted j id x xs e))
  ]
