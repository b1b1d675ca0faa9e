-- ===== src/Services/Updates.antt =====
-- The optional fields of the update requests of internal/application/services: a field that is
-- given is set, and one that is not stays.
use nis.Prelude.{String, ◌≡◌, refl, Option, none, some, false, arith, eq_iff}
use nis.Services.{changes_text, or_old, is_given}

-- The new value of a field is that of the request, if it has one, and else the old value.
abbrev pub IsRequested {ℓ} : {A : Type ℓ} → Option A → A → A → Type ℓ
IsRequested none old new = new ≡ old
IsRequested (some x) old new = new ≡ x

pub or_old-IsRequested {ℓ} :
    {A : Type ℓ} (req : Option A) (old : A) → IsRequested req old (or_old req old)
or_old-IsRequested none old = refl
or_old-IsRequested (some x) old = refl

pub is_given-IsRequested {ℓ} :
    {A : Type ℓ} (req : Option A) (old : A) → is_given req ≡ false → IsRequested req old old
is_given-IsRequested none old h = refl
is_given-IsRequested (some x) old h = absurd (cc h)

pub changes_text-IsRequested :
    (req : Option String) (old : String) → changes_text req old ≡ false → IsRequested req old old
changes_text-IsRequested none old h = refl
changes_text-IsRequested (some x) old h = ground (arith, eq_iff x old, h)
