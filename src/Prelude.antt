-- ===== src/Prelude.antt =====
-- Library names that the other modules share, Boolean tests on the native numbers, and list
-- predicates. No code of the repository is modelled here.
pub use Prim.Native.Nat.{ℕ, zero, suc, ◌+◌, ◌-◌, ◌*◌, ◌/◌, ◌%◌, ◌^◌, ◌≤◌, ◌<◌}
pub use Prim.Native.String.{String}
pub use mathlib.Core.Path.{◌≡◌, refl, sym, ◌∙◌, ap, fun_ext}
pub use mathlib.Core.Logic.{◌≢◌, ◌↔◌, ◌⊎◌, inl, inr}
pub use mathlib.Core.Bool.{Bool, true, false, not, ◌&&◌, ◌||◌}
pub use mathlib.Core.Option.{Option, none, some}
pub use mathlib.Core.List.{List, [], ◌∷◌, ◌++◌, map}
pub use native.Mathlib.Omega.{arith}
pub use text.Mathlib.Text.{◌==◌ as str_eq}
pub use text.Mathlib.TextEquality.{eq_iff}
pub use text.Mathlib.TextPositions.{eq_refl}
use Prim.Native.Nat.{compare, Ordering}
use Prim.Native.Char.{code}

abbrev pub ltb : ℕ → ℕ → Bool
ltb a b = elim (compare a b) [ Ordering.lt ↦ true | _ ↦ false ]

abbrev pub leb : ℕ → ℕ → Bool
leb a b = elim (compare a b) [ Ordering.gt ↦ false | _ ↦ true ]

infix 50 ◌==◌
abbrev pub ◌==◌ : ℕ → ℕ → Bool
a == b = elim (compare a b) [ Ordering.eq ↦ true | _ ↦ false ]

infix 1 if◌then◌else◌
abbrev pub if◌then◌else◌ {ℓ} : {A : Type ℓ} → Bool → A → A → A
if true then x else y = x
if false then x else y = y

pub Bool-cases : (b : Bool) → (b ≡ true) ⊎ (b ≡ false)
Bool-cases true = inl refl
Bool-cases false = inr refl

pub Option-cases {ℓ} : {A : Type ℓ} (o : Option A) → (o ≡ none) ⊎ ((a : A) × (o ≡ some a))
Option-cases none = inl refl
Option-cases (some a) = inr (a, refl)

pub ==_iff : (a b : ℕ) → ((a == b) ≡ true) ↔ (a ≡ b)
==_iff a b = (λ h. ground arith, λ h. ground arith)

-- The code points of a text: its bytes, where it is ASCII.
abbrev pub codes : String → List ℕ
codes String.[] = []
codes (String.◌∷◌ c s) = code c ∷ codes s

-- Concatenation of texts, by clauses.
abbrev pub join : String → String → String
join String.[] t = t
join (String.◌∷◌ c s) t = String.◌∷◌ c (join s t)

module _ {ℓ} {A : Type ℓ} where
  abbrev pub length : List A → ℕ
  length [] = 0
  length (x ∷ xs) = suc (length xs)

  abbrev pub take : ℕ → List A → List A
  take zero xs = []
  take (suc n) [] = []
  take (suc n) (x ∷ xs) = x ∷ take n xs

  abbrev pub drop : ℕ → List A → List A
  drop zero xs = xs
  drop (suc n) [] = []
  drop (suc n) (x ∷ xs) = drop n xs

  -- The elements that pass a Boolean test, in order.
  abbrev pub keep : (A → Bool) → List A → List A
  keep p [] = []
  keep p (x ∷ xs) = if p x then x ∷ keep p xs else keep p xs

  abbrev pub All {κ} : (A → Type κ) → List A → Type κ
  All P [] = Unit
  All P (x ∷ xs) = P x × All P xs

  -- Membership, with the place kept.
  pub data Has (a : A) : List A → Type ℓ where
    here : {xs : List A} → Has a (a ∷ xs)
    there : {x : A} {xs : List A} → Has a xs → Has a (x ∷ xs)

module _ {ℓ} {A : Type ℓ} where
  Has-if-cons :
      (b : Bool) (x a : A) (rest : List A)
      → Has x (if b then a ∷ rest else rest)
      → ((b ≡ true) × (x ≡ a)) ⊎ Has x rest
  Has-if-cons true x _ rest here = inl (refl, refl)
  Has-if-cons true x a rest (there h) = inr h
  Has-if-cons false x a rest h = inr h

  if-cons-there :
      (b : Bool) (x a : A) (rest : List A) → Has x rest → Has x (if b then a ∷ rest else rest)
  if-cons-there true x a rest h = there h
  if-cons-there false x a rest h = h

module _ {ℓ} {A : Type ℓ} (p : A → Bool) where
  Has-keep_sound : (x : A) (xs : List A) → Has x (keep p xs) → Has x xs × (p x ≡ true)
  Has-keep_sound x [] h = elim h [ ]
  Has-keep_sound x (a ∷ xs) h = elim (Has-if-cons (p a) x a (keep p xs) h) [
    | inl (e, same) ↦ (rw same here, rw same e)
    | inr m ↦ let (m', e) = Has-keep_sound x xs m in (there m', e)
  ]

  Has-keep_complete : (x : A) (xs : List A) → Has x xs → p x ≡ true → Has x (keep p xs)
  Has-keep_complete x _ (here {xs}) e = rw e here
  Has-keep_complete x _ (there {x = a} {xs} h) e =
      if-cons-there (p a) x a (keep p xs) (Has-keep_complete x xs h e)

  pub Has-keep : (x : A) (xs : List A) → Has x (keep p xs) ↔ (Has x xs × (p x ≡ true))
  Has-keep x xs = (Has-keep_sound x xs, λ h. Has-keep_complete x xs h.0 h.1)

module _ {ℓ} {A : Type ℓ} where
  pub length-append : (xs ys : List A) → length (xs ++ ys) ≡ length xs + length ys
  length-append [] ys = omega arith
  length-append (x ∷ xs) ys = let e = length-append xs ys in omega arith

  pub Has-append_left : (a : A) (xs ys : List A) → Has a xs → Has a (xs ++ ys)
  Has-append_left a _ ys here = here
  Has-append_left a _ ys (there {xs} h) = there (Has-append_left a xs ys h)

  pub Has-append_right : (a : A) (xs ys : List A) → Has a ys → Has a (xs ++ ys)
  Has-append_right a [] ys h = h
  Has-append_right a (x ∷ xs) ys h = there (Has-append_right a xs ys h)

  pub append_nil : (xs : List A) → xs ++ [] ≡ xs
  append_nil [] = refl
  append_nil (x ∷ xs) = ap (λ y. x ∷ y) (append_nil xs)

  pub Has-append_cases : (a : A) (xs ys : List A) → Has a (xs ++ ys) → Has a xs ⊎ Has a ys
  Has-append_cases a [] ys h = inr h
  Has-append_cases a (x ∷ xs) ys here = inl here
  Has-append_cases a (x ∷ xs) ys (there h) = elim (Has-append_cases a xs ys h) [
    | inl m ↦ inl (there m)
    | inr m ↦ inr m
  ]

module _ {ℓ κ} {A : Type ℓ} {B : Type κ} (f : A → B) where
  pub Has-map : (a : A) (xs : List A) → Has a xs → Has (f a) (map f xs)
  Has-map a _ here = here
  Has-map a _ (there {xs} h) = there (Has-map a xs h)

  pub All-map {μ} : (P : B → Type μ) (xs : List A) → ((a : A) → P (f a)) → All P (map f xs)
  All-map P [] each = tt
  All-map P (x ∷ xs) each = (each x, All-map P xs each)

pub All-append {ℓ κ} :
    {A : Type ℓ} (P : A → Type κ) (xs ys : List A) → All P xs → All P ys → All P (xs ++ ys)
All-append P [] ys all_xs all_ys = all_ys
All-append P (x ∷ xs) ys all_xs all_ys = (all_xs.0, All-append P xs ys all_xs.1 all_ys)

pub All-of_Has {ℓ κ} :
    {A : Type ℓ} {P : A → Type κ} (xs : List A) → ((a : A) → Has a xs → P a) → All P xs
All-of_Has [] each = tt
All-of_Has (x ∷ xs) each = (each x here, All-of_Has xs λ a m. each a (there m))
