-- ===== src/Exec.antt =====
-- Go's error values and fallible calls. `fmt.Errorf("...: %w", err)` is `wrap`, and `errors.Is`
-- walks the chain of wrapped errors. A call that changes the world is a function of the world's
-- state: what was written before an error stays written, so the state comes back beside it.
-- The sentinels are those of internal/domain/repositories/errors.go and of
-- internal/application/services/permission_service.go.
use nis.Prelude.{String, ◌≡◌, refl, ◌⊎◌, inl, inr, Bool, true, false, arith}

pub data Error : Type 0 where
  not_found already_exists permission_denied invalid_scope : Error
  message : String → Error
  wrap : String → Error → Error
  -- A run-time panic of Go.
  runtime_panic : Error

-- `errors.Is(err, repositories.ErrNotFound)`
abbrev pub is_not_found : Error → Bool
is_not_found not_found = true
is_not_found (wrap _ e) = is_not_found e
is_not_found _ = false

pub data Result {ℓ} (A : Type ℓ) : Type ℓ where
  ok : A → Result A
  err : Error → Result A

pub Result-cases {ℓ} :
    {A : Type ℓ} (r : Result A) → ((a : A) × (r ≡ ok a)) ⊎ ((e : Error) × (r ≡ err e))
Result-cases (ok a) = inl (a, refl)
Result-cases (err e) = inr (e, refl)

infixl 5 ◌>>=◌ ◌>>◌
abbrev pub ◌>>=◌ {ℓ κ} : {A : Type ℓ} {B : Type κ} → Result A → (A → Result B) → Result B
err e >>= next = err e
ok a >>= next = next a

abbrev pub ◌>>◌ {ℓ κ} : {A : Type ℓ} {B : Type κ} → Result A → Result B → Result B
m >> next = m >>= λ _. next

-- `if err != nil { return fmt.Errorf("text: %w", err) }`
abbrev pub wrapped {ℓ} : {A : Type ℓ} → String → Result A → Result A
wrapped text (ok a) = ok a
wrapped text (err e) = err (wrap text e)

-- `if test { return e }`
abbrev pub fail_if : Bool → Error → Result (Unit {0})
fail_if true e = err e
fail_if false e = ok tt

-- A call that may change the world `S`.
abbrev pub Exec : Type 0 → Type 0 → Type 0
Exec S A = S → Result A × S

pub ok-injective {ℓ} : {A : Type ℓ} {a b : A} → ok a ≡ ok b → a ≡ b
ok-injective h = ground arith

-- Inversion of chains, by their first part.
module _ {ℓ κ} {A : Type ℓ} {B : Type κ} where
  pub bind-eq-ok :
      (start : Result A) (next : A → Result B) {end : B}
      → (start >>= next) ≡ ok end
      → (x : A) × (start ≡ ok x) × (next x ≡ ok end)
  bind-eq-ok (err _) next e = cc
  bind-eq-ok (ok x) next e = (x, refl, e)

  pub bind-eq-err :
      (start : Result A) (next : A → Result B) {why : Error}
      → (start >>= next) ≡ err why
      → (start ≡ err why) ⊎ ((x : A) × (start ≡ ok x) × (next x ≡ err why))
  bind-eq-err (err _) next e = inl (ground arith)
  bind-eq-err (ok x) next e = inr (x, refl, e)

  pub wrapped-bind-eq-ok :
      (text : String) (start : Result A) (next : A → Result B) {end : B}
      → (wrapped text start >>= next) ≡ ok end
      → (x : A) × (start ≡ ok x) × (next x ≡ ok end)
  wrapped-bind-eq-ok text (err _) next e = cc
  wrapped-bind-eq-ok text (ok x) next e = (x, refl, e)

pub fail_if-eq-ok : (test : Bool) (e : Error) → fail_if test e ≡ ok tt → test ≡ false
fail_if-eq-ok true e h = cc
fail_if-eq-ok false e h = refl

module _ {S A B : Type 0} where
  -- Goes on with the value of a call that only read, or returns its error.
  abbrev pub on_ok : Result A → (A → Exec S B) → Exec S B
  on_ok (ok a) f s = f a s
  on_ok (err e) f s = (err e, s)

  -- Goes on in the world that a call left behind.
  abbrev pub then_do : Exec S A → (A → Exec S B) → Exec S B
  then_do m f s = let (r, s') = m s in on_ok r f s'

  pub on_ok-eq-ok :
      (r : Result A) (f : A → Exec S B) (s : S) {b : B}
      → (on_ok r f s).0 ≡ ok b
      → (a : A) × (r ≡ ok a) × ((f a s).0 ≡ ok b)
  on_ok-eq-ok (ok a) f s h = (a, refl, h)
  on_ok-eq-ok (err e) f s h = cc

-- What the start and every good end of a chain have, its end has.
pub on_ok-keeps {κ} :
    {S A B : Type 0} (P : S → Type κ) (r : Result A) (f : A → Exec S B) (s : S)
    → P s
    → ((a : A) → r ≡ ok a → P (f a s).1)
    → P (on_ok r f s).1
on_ok-keeps P (ok a) f s p k = k a refl
on_ok-keeps P (err e) f s p k = p

-- A chain that ended well ends in a world with `P` if its last part does.
pub on_ok-ensures {κ} :
    {S A B : Type 0} (P : S → Type κ) (r : Result A) (f : A → Exec S B) (s : S) {b : B}
    → (on_ok r f s).0 ≡ ok b
    → ((a : A) → r ≡ ok a → (f a s).0 ≡ ok b → P (f a s).1)
    → P (on_ok r f s).1
on_ok-ensures P (ok a) f s h k = k a refl h
on_ok-ensures P (err e) f s h k = cc

-- The same for a chain that starts with a call that may write.
pub then_do-ensures {κ} :
    {S A B : Type 0} (P : S → Type κ) (m : Exec S A) (f : A → Exec S B) (s : S) {b : B}
    → (then_do m f s).0 ≡ ok b
    → ((a : A) → (m s).0 ≡ ok a → (f a (m s).1).0 ≡ ok b → P (f a (m s).1).1)
    → P (then_do m f s).1
then_do-ensures P m f s h k = on_ok-ensures P (m s).0 f (m s).1 h k

-- `if err := call; err != nil { return fmt.Errorf("text: %w", err) }`
abbrev pub wrapped_call : {S A : Type 0} → String → Exec S A → Exec S A
wrapped_call text m s = let (r, s') = m s in (wrapped text r, s')

pub wrapped-eq-ok {ℓ} :
    {A : Type ℓ} (text : String) (r : Result A) {a : A} → wrapped text r ≡ ok a → r ≡ ok a
wrapped-eq-ok text (ok a) h = h
wrapped-eq-ok text (err e) h = cc
