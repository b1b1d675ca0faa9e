-- ===== src/Jwt/Claims.antt =====
-- What a NATS server asks of a user JWT that a scoped key signed, and that the claims made by
-- internal/application/services/jwt_service.go have it.
use nis.Prelude.{
  String, ◌≡◌, refl, ◌≢◌, sym, ◌∙◌, ap, true, false, Bool-cases, inl, inr, ◌⊎◌, Option, none, some,
  List, [], ◌∷◌, Has, here, there, str_eq, eq_iff, zero, suc, if◌then◌else◌,
}
use nis.Entities.{ℤ, pos, negsuc, Account, ScopedSigningKey, User}
use nis.Jwt.{
  UserScope, AccountClaims, UserClaims, ResponsePermission, account_claims, user_claims, scope_of,
  is_positive, add_scoped_signer, add_scoped_keys,
}

-- The scope that the map has for a key.
pub scope_under : String → List UserScope → Option UserScope
scope_under key [] = none
scope_under key (x ∷ xs) = if str_eq x.key key then some x else scope_under key xs

abbrev IsPositive : ℤ → Type 0
IsPositive z = (n : _) × (z ≡ pos (suc n))

-- A key that stores a bound for responses has both bounds in its permission; a key that stores none
-- has no permission.
abbrev Responds : ScopedSigningKey → Option ResponsePermission → Type 0
Responds key resp =
    ((IsPositive key.response_max_msgs ⊎ IsPositive key.response_ttl)
      × (resp ≡ some (record { max_msgs = key.response_max_msgs; expires = key.response_ttl })))
    ⊎ ((¬ IsPositive key.response_max_msgs) × (¬ IsPositive key.response_ttl) × (resp ≡ none))

-- An account's claims vouch for a user's claims that a key signed: the user's claims name the account
-- as issuer and carry no permissions of their own, and the account's claims have, under the key, the
-- permissions that the key stores.
pub record IsTrusted (account : AccountClaims) (user : UserClaims) (key : ScopedSigningKey)
    : Type 0 where
  pub scope : UserScope
  pub issuer : user.issuer_account ≡ account.subject
  pub scoped : user.scoped ≡ true
  pub declared : scope_under key.public_key account.signing_keys ≡ some scope
  pub pub_allow : scope.pub_allow ≡ key.pub_allow
  pub pub_deny : scope.pub_deny ≡ key.pub_deny
  pub sub_allow : scope.sub_allow ≡ key.sub_allow
  pub sub_deny : scope.sub_deny ≡ key.sub_deny
  pub responds : Responds key scope.resp

is_positive-cases :
    (z : ℤ) → ((is_positive z ≡ true) × IsPositive z) ⊎ ((is_positive z ≡ false) × (¬ IsPositive z))
unfolding is_positive
is_positive-cases (pos zero) = inr (refl, λ (n, e). cc e)
is_positive-cases (pos (suc n)) = inl (refl, (n, refl))
is_positive-cases (negsuc n) = inr (refl, λ (m, e). cc e)

scope_of-Responds : (key : ScopedSigningKey) → Responds key (scope_of key).resp
unfolding scope_of
scope_of-Responds key = elim (is_positive-cases key.response_max_msgs) [
  | inl (e, p) ↦ inl (inl p, rw e refl)
  | inr (e, p) ↦ elim (is_positive-cases key.response_ttl) [
    | inl (e', p') ↦ inl (inr p', rw (e, e') refl)
    | inr (e', p') ↦ inr (p, p', rw (e, e') refl)
  ]
]

str_eq_self : (x : String) → str_eq x x ≡ true
str_eq_self x = (eq_iff x x).1 refl

str_eq-ne : (x y : String) → x ≢ y → str_eq x y ≡ false
str_eq-ne x y h = elim (Bool-cases (str_eq x y)) [
  | inl e ↦ absurd (h ((eq_iff x y).0 e))
  | inr e ↦ e
]

-- An added scope is the one under its key, and the other keys keep theirs.
scope_under-add_self :
    (x : UserScope) (xs : List UserScope) → scope_under x.key (add_scoped_signer x xs) ≡ some x
unfolding add_scoped_signer scope_under
scope_under-add_self x [] = rw (str_eq_self x.key) refl
scope_under-add_self x (y ∷ ys) = elim (Bool-cases (str_eq y.key x.key)) [
  | inl e ↦ rw (e, str_eq_self x.key) refl
  | inr e ↦ rw (e, e) (scope_under-add_self x ys)
]

scope_under-add_other :
    (key : String) (x : UserScope) (xs : List UserScope)
    → x.key ≢ key
    → scope_under key (add_scoped_signer x xs) ≡ scope_under key xs
unfolding add_scoped_signer scope_under
scope_under-add_other key x [] ne = rw (str_eq-ne x.key key ne) refl
scope_under-add_other key x (y ∷ ys) ne = elim (Bool-cases (str_eq y.key x.key)) [
  | inl e ↦
      let same : y.key ≡ x.key = (eq_iff y.key x.key).0 e in
      rw (e, str_eq-ne x.key key ne, str_eq-ne y.key key (λ q. ne (sym same ∙ q))) refl
  | inr e ↦
      rw e (ap (λ r. if str_eq y.key key then some y else r) (scope_under-add_other key x ys ne))
]

-- The keys of the list with the public key of `key` are `key` itself.
abbrev pub IsOnly : ScopedSigningKey → List (Option ScopedSigningKey) → Type 0
IsOnly key keys =
    (other : ScopedSigningKey)
    → Has (some other) keys
    → other.public_key ≡ key.public_key
    → other ≡ key

add_scoped_keys-kept :
    (key : ScopedSigningKey) (keys : List (Option ScopedSigningKey)) (scopes : List UserScope)
    → IsOnly key keys
    → scope_under key.public_key scopes ≡ some (scope_of key)
    → scope_under key.public_key (add_scoped_keys keys scopes) ≡ some (scope_of key)
unfolding add_scoped_keys scope_of
add_scoped_keys-kept key [] scopes only h = h
add_scoped_keys-kept key (none ∷ keys) scopes only h =
    add_scoped_keys-kept key keys scopes (λ k m. only k (there m)) h
add_scoped_keys-kept key (some x ∷ keys) scopes only h =
    add_scoped_keys-kept key keys (add_scoped_signer (scope_of x) scopes) (λ k m. only k (there m))
      (elim (Bool-cases (str_eq x.public_key key.public_key)) [
        | inl e ↦
            let same : x ≡ key = only x here ((eq_iff x.public_key key.public_key).0 e) in
            rw same (scope_under-add_self (scope_of key) scopes)
        | inr e ↦
            let ne : x.public_key ≢ key.public_key =
              λ q. cc (e, (eq_iff x.public_key key.public_key).1 q) in
            scope_under-add_other key.public_key (scope_of x) scopes ne ∙ h
      ])

add_scoped_keys-declared :
    (key : ScopedSigningKey) (keys : List (Option ScopedSigningKey)) (scopes : List UserScope)
    → Has (some key) keys
    → IsOnly key keys
    → scope_under key.public_key (add_scoped_keys keys scopes) ≡ some (scope_of key)
unfolding add_scoped_keys scope_of
add_scoped_keys-declared key _ scopes (here {xs = keys}) only =
    add_scoped_keys-kept key keys (add_scoped_signer (scope_of key) scopes)
      (λ k m. only k (there m)) (scope_under-add_self (scope_of key) scopes)
add_scoped_keys-declared key _ scopes (there {x = none} {xs = keys} m) only =
    add_scoped_keys-declared key keys scopes m (λ k n. only k (there n))
add_scoped_keys-declared key _ scopes (there {x = some x} {xs = keys} m) only =
    add_scoped_keys-declared key keys (add_scoped_signer (scope_of x) scopes) m
      (λ k n. only k (there n))

-- For a scoped key among those an account's claims are made from, where no other of them has its
-- public key, the claims of a user signed by that key are vouched for by the account's claims:
-- they name the account as issuer and carry no permissions of their own, and the scope that the
-- account's claims have under the key has its stored permissions to publish and subscribe, and a
-- response permission with its stored bounds exactly if one of these is positive.
pub user_claims-IsTrusted :
    (user : User) (account : Account) (key : ScopedSigningKey)
    (scoped_keys : List (Option ScopedSigningKey))
    → Has (some key) scoped_keys
    → IsOnly key scoped_keys
    → IsTrusted (account_claims account scoped_keys) (user_claims user account (some key)) key
unfolding account_claims user_claims scope_of
user_claims-IsTrusted user account key scoped_keys h only = record {
  scope = scope_of key;
  issuer = refl;
  scoped = refl;
  declared = add_scoped_keys-declared key scoped_keys [] h only;
  pub_allow = refl;
  pub_deny = refl;
  sub_allow = refl;
  sub_deny = refl;
  responds = scope_of-Responds key;
}
