-- ===== src/Nats/Creds.antt =====
-- The credentials file that GenerateCredsFile of internal/domain/entities/user.go writes is read by
-- parseCredsContent.
use nis.Prelude.{
  ℕ, suc, not, ◌&&◌, ◌+◌, ◌-◌, leb, String, ◌≡◌, refl, ◌≢◌, ◌∙◌, ap, Bool, true, false, ◌||◌, ◌==◌,
  some, List, [], ◌∷◌, ◌++◌, length, take, drop, codes, arith, All, Bool-cases, inl, inr,
}
use nis.Exec.{ok}
use nis.Entities.{User}
use nis.Text.{Bytes, has_prefix, contains}
use nis.Text.Laws.{Lacks}
use nis.Jwt.{generate_creds_file}
use nis.Nats.{
  is_whitespace, find, trim, trim_start, trim_end, slice, is_empty, index_of, section,
  parse_creds_content,
}

-- A marker without a newline begins before a newline only if it ends there.
has_prefix-line : (x rest m : Bytes) → Lacks 10 m → has_prefix (x ++ 10 ∷ rest) m ≡ has_prefix x m
unfolding has_prefix
has_prefix-line [] rest [] lacks = refl
has_prefix-line [] rest (k ∷ m) lacks = ground arith
has_prefix-line (c ∷ x) rest [] lacks = refl
has_prefix-line (c ∷ x) rest (k ∷ m) lacks = rw (has_prefix-line x rest m lacks.1) refl

-- A line without the marker is passed over.
find-line :
    (x rest m : Bytes) {i : ℕ}
    → Lacks 10 m
    → contains x m ≡ false
    → find rest m ≡ some i
    → find (x ++ 10 ∷ rest) m ≡ some (length x + suc i)
unfolding find contains
find-line [] rest m lacks absent found =
    rw (has_prefix-line [] rest m lacks, absent, found) (ap some (omega arith))
find-line (c ∷ x) rest m lacks absent found = elim (Bool-cases (has_prefix (c ∷ x) m)) [
  | inl e ↦ absurd (ground (arith, e, absent))
  | inr e ↦
      rw (has_prefix-line (c ∷ x) rest m lacks, e, find-line x rest m lacks (rw e at absent) found)
        (ap some (omega arith))
]

-- Lines in front of a text.
abbrev unlines : List Bytes → Bytes → Bytes
unlines [] rest = rest
unlines (x ∷ xs) rest = x ++ 10 ∷ unlines xs rest

abbrev width : List Bytes → ℕ
width [] = 0
width (x ∷ xs) = length x + suc (width xs)

abbrev IsAbsent : Bytes → Bytes → Type 0
IsAbsent m x = contains x m ≡ false

find-lines :
    (xs : List Bytes) (rest m : Bytes) {i : ℕ}
    → Lacks 10 m
    → All (IsAbsent m) xs
    → find rest m ≡ some i
    → find (unlines xs rest) m ≡ some (width xs + i)
find-lines [] rest m lacks absent found = found ∙ ap some (omega arith)
find-lines (x ∷ xs) rest m lacks absent found =
    find-line x (unlines xs rest) m lacks absent.0 (find-lines xs rest m lacks absent.1 found)
    ∙ ap some (omega arith)

has_prefix-append : (m t : Bytes) → has_prefix (m ++ t) m ≡ true
unfolding has_prefix
has_prefix-append [] [] = refl
has_prefix-append [] (c ∷ t) = refl
has_prefix-append (c ∷ m) t = ground (arith, has_prefix-append m t)

find-here : (m t : Bytes) → find (m ++ t) m ≡ some 0
unfolding find has_prefix
find-here [] [] = refl
find-here [] (c ∷ t) = refl
find-here (c ∷ m) t = rw (has_prefix-append (c ∷ m) t) refl

drop-append : (x t : Bytes) (k : ℕ) → drop (length x + k) (x ++ t) ≡ drop k t
drop-append [] t k = ap (λ n. drop n t) (omega arith)
drop-append (c ∷ x) t k =
    let e : suc (length x) + k ≡ suc (length x + k) = omega arith in rw e (drop-append x t k)

take-append : (x t : Bytes) (k : ℕ) → take (length x + k) (x ++ t) ≡ x ++ take k t
take-append [] t k = ap (λ n. take n t) (omega arith)
take-append (c ∷ x) t k =
    let e : suc (length x) + k ≡ suc (length x + k) = omega arith in
    rw e (ap (λ y. c ∷ y) (take-append x t k))

drop-lines :
    (xs : List Bytes) (rest : Bytes) (k : ℕ) → drop (width xs + k) (unlines xs rest) ≡ drop k rest
drop-lines [] rest k = ap (λ n. drop n rest) (omega arith)
drop-lines (x ∷ xs) rest k =
    let e : length x + suc (width xs) + k ≡ length x + suc (width xs + k) = omega arith in
    rw e (drop-append x (10 ∷ unlines xs rest) (suc (width xs + k)) ∙ drop-lines xs rest k)

abbrev pub IsSolid : Bytes → Type 0
IsSolid = All (λ c. is_whitespace c ≡ false)

trim_end-solid : (x : Bytes) → IsSolid x → trim_end (x ++ 10 ∷ []) ≡ x
unfolding trim_end is_whitespace is_empty
trim_end-solid [] solid = refl
trim_end-solid (c ∷ x) solid = rw (trim_end-solid x solid.1, solid.0) refl

-- Newlines around a text without whitespace are trimmed.
pub trim-framed : (x : Bytes) → IsSolid x → trim (10 ∷ (x ++ 10 ∷ [])) ≡ x
unfolding trim trim_start trim_end is_whitespace
trim-framed [] solid = refl
trim-framed (c ∷ x) solid = rw solid.0 (trim_end-solid (c ∷ x) solid)

index_of-eq-ok :
    (text : String) (m s : Bytes) {i : ℕ} → find s m ≡ some i → index_of text m s ≡ ok i
unfolding index_of
index_of-eq-ok text m s found = rw (index_of, found) refl

section-eq-ok :
    (no_start no_end : String) (before after s part : Bytes) {a b : ℕ}
    → find s before ≡ some a
    → find s after ≡ some b
    → slice s (a + length before) b ≡ ok part
    → section no_start no_end before after s ≡ ok (trim part)
unfolding section
section-eq-ok no_start no_end before after s part start end cut =
    rw (index_of-eq-ok no_start before s start, index_of-eq-ok no_end after s end, cut) refl

slice-framed :
    (xs : List Bytes) (before body t : Bytes)
    → slice
        (unlines xs (before ++ 10 ∷ (body ++ 10 ∷ t)))
        (width xs + 0 + length before)
        (width xs + (length before + suc (length body + suc 0)))
      ≡ ok (10 ∷ (body ++ 10 ∷ []))
unfolding slice
slice-framed xs before body t =
    let a = width xs + 0 + length before in
    let b = width xs + (length before + suc (length body + suc 0)) in
    let ordered : leb a b ≡ true = ground arith in
    let long : b - a ≡ suc (length body + 1) = omega arith in
    let start : a ≡ width xs + (length before + 0) = omega arith in
    rw
      (
        ordered,
        long,
        start,
        drop-lines xs (before ++ 10 ∷ (body ++ 10 ∷ t)) (length before + 0),
        drop-append before (10 ∷ (body ++ 10 ∷ t)) 0,
        take-append body (10 ∷ t) 1,
      )
      refl

-- The text between a line that is the first marker and a line that starts with the second one.
section-lem :
    (no_start no_end : String) (xs : List Bytes) (before body after tail : Bytes)
    → Lacks 10 before
    → Lacks 10 after
    → All (IsAbsent before) xs
    → All (IsAbsent after) xs
    → IsAbsent after before
    → IsAbsent after body
    → IsSolid body
    → section no_start no_end before after
        (unlines xs (before ++ 10 ∷ (body ++ 10 ∷ (after ++ tail))))
      ≡ ok body
section-lem no_start no_end xs before body after tail lb la xb xa ab ay solid =
    let rest = after ++ tail in
    let s = before ++ 10 ∷ (body ++ 10 ∷ rest) in
    let start = find-lines xs s before lb xb (find-here before (10 ∷ (body ++ 10 ∷ rest))) in
    let end = find-lines xs s after la xa (
      find-line before (body ++ 10 ∷ rest) after la ab
        (find-line body rest after la ay (find-here after tail))) in
    section-eq-ok no_start no_end before after (unlines xs s) (10 ∷ (body ++ 10 ∷ [])) start end
      (slice-framed xs before body rest)
    ∙ ap ok (trim-framed body solid)

has_space : Bytes → Bool
has_space [] = false
has_space (c ∷ m) = c == 32 || has_space m

has_prefix-space : (x m : Bytes) → IsSolid x → has_space m ≡ true → has_prefix x m ≡ false
unfolding has_prefix has_space is_whitespace
has_prefix-space x [] solid h = cc
has_prefix-space [] (k ∷ m) solid h = refl
has_prefix-space (c ∷ x) (k ∷ m) solid h = ground (arith, has_prefix-space x m solid.1, solid.0, h)

-- A text without whitespace holds no marker with a space.
contains-space : (x m : Bytes) → IsSolid x → has_space m ≡ true → contains x m ≡ false
unfolding contains
contains-space [] m solid h = has_prefix-space [] m solid h
contains-space (c ∷ x) m solid h =
    rw (has_prefix-space (c ∷ x) m solid h, contains-space x m solid.1 h) refl

lacks_newline : Bytes → Bool
lacks_newline [] = true
lacks_newline (c ∷ m) = not (c == 10) && lacks_newline m

lacks_newline-Lacks : (m : Bytes) → lacks_newline m ≡ true → Lacks 10 m
unfolding lacks_newline
lacks_newline-Lacks [] h = tt
lacks_newline-Lacks (c ∷ m) h = (ground (arith, h), lacks_newline-Lacks m (ground (arith, h)))

abbrev jwt_start : Bytes
jwt_start = codes "-----BEGIN NATS USER JWT-----"

abbrev jwt_end : Bytes
jwt_end = codes "------END NATS USER JWT------"

abbrev seed_start : Bytes
seed_start = codes "-----BEGIN USER NKEY SEED-----"

abbrev seed_end : Bytes
seed_end = codes "------END USER NKEY SEED------"

abbrev warning_lines : List Bytes
warning_lines =
    []
    ∷ codes "************************* IMPORTANT *************************"
    ∷ codes "NKEY Seed printed below can be used to sign and prove identity."
    ∷ codes "NKEYs are sensitive and should be treated as secrets."
    ∷ []
    ∷ []

-- What follows the seed.
abbrev last_lines : Bytes
last_lines = codes "\n\n*************************************************************\n"

-- The end of the file, from the line after the JWT's end marker.
abbrev seed_part : Bytes → Bytes
seed_part seed = unlines warning_lines (seed_start ++ 10 ∷ (seed ++ 10 ∷ (seed_end ++ last_lines)))

creds_lines :
    (user : User) (seed : Bytes)
    → generate_creds_file user seed
      ≡ unlines (jwt_start ∷ codes user.jwt ∷ jwt_end ∷ []) (seed_part seed)
unfolding generate_creds_file
creds_lines user seed = refl

module _ (user : User) (seed : Bytes) (jwt_solid : IsSolid (codes user.jwt))
    (seed_solid : IsSolid seed) where
  first_section :
      (no_start no_end : String)
      → section no_start no_end jwt_start jwt_end
          (unlines (jwt_start ∷ codes user.jwt ∷ jwt_end ∷ []) (seed_part seed))
        ≡ ok (codes user.jwt)
  unfolding lacks_newline has_space contains has_prefix
  first_section no_start no_end =
      section-lem no_start no_end [] jwt_start (codes user.jwt) jwt_end (10 ∷ seed_part seed)
        (lacks_newline-Lacks jwt_start refl) (lacks_newline-Lacks jwt_end refl) tt tt refl
        (contains-space (codes user.jwt) jwt_end jwt_solid refl) jwt_solid

  second_section :
      (no_start no_end : String)
      → section no_start no_end seed_start seed_end
          (unlines (jwt_start ∷ codes user.jwt ∷ jwt_end ∷ []) (seed_part seed))
        ≡ ok seed
  unfolding lacks_newline has_space contains has_prefix
  second_section no_start no_end =
      section-lem no_start no_end (jwt_start ∷ codes user.jwt ∷ jwt_end ∷ warning_lines) seed_start
        seed seed_end last_lines (lacks_newline-Lacks seed_start refl)
        (lacks_newline-Lacks seed_end refl)
        (
          refl,
          (
            contains-space (codes user.jwt) seed_start jwt_solid refl,
            (refl, (refl, (refl, (refl, (refl, (refl, tt)))))),
          ),
        )
        (
          refl,
          (
            contains-space (codes user.jwt) seed_end jwt_solid refl,
            (refl, (refl, (refl, (refl, (refl, (refl, tt)))))),
          ),
        )
        refl (contains-space seed seed_end seed_solid refl) seed_solid

is_empty-given : (s : Bytes) → s ≢ [] → is_empty s ≡ false
unfolding is_empty
is_empty-given [] given = absurd (given refl)
is_empty-given (c ∷ s) given = refl

-- What `parseCredsContent` reads from the credentials file of a user is the user's JWT and the
-- seed, if both are not empty and without whitespace.
pub parse_creds-generate :
    (user : User) (seed : Bytes)
    → codes user.jwt ≢ []
    → seed ≢ []
    → IsSolid (codes user.jwt)
    → IsSolid seed
    → parse_creds_content (generate_creds_file user seed) ≡ ok (codes user.jwt, seed)
unfolding parse_creds_content
parse_creds-generate user seed jwt_given seed_given jwt_solid seed_solid =
    ap parse_creds_content (creds_lines user seed)
    ∙ rw
        (
          first_section user seed jwt_solid seed_solid "JWT start marker not found"
              "JWT end marker not found",
          second_section user seed jwt_solid seed_solid "seed start marker not found"
              "seed end marker not found",
          is_empty-given (codes user.jwt) jwt_given,
          is_empty-given seed seed_given,
        )
        refl
