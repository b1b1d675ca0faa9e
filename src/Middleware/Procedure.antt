-- ===== src/Middleware/Procedure.antt =====
-- Tokens, and what the interceptor reads off a procedure name.
use nis.Prelude.{
  ◌≡◌, ◌≢◌, ◌↔◌, sym, ◌∙◌, Bool, true, false, List, [], ◌∷◌, ◌++◌, arith, codes, Bool-cases,
  Option-cases, inl, inr, if◌then◌else◌,
}
use nis.Text.{Bytes, bytes_eq, to_lower, split, cut}
use nis.Text.Laws.{bytes_eq_iff, Lacks, cut-append, cut-eq-some}
use nis.Middleware.{extract_token, extract_action, extract_resource_and_action, of_parts}

Lacks-to_lower : (s : Bytes) → Lacks b' ' (to_lower s) → Lacks b' ' s
unfolding to_lower
Lacks-to_lower [] h = tt
Lacks-to_lower (c ∷ s) h = (λ e. h.0 (rw e), Lacks-to_lower s h.1)

bearer_Lacks : (scheme : Bytes) → to_lower scheme ≡ codes "bearer" → Lacks b' ' scheme
bearer_Lacks scheme e = Lacks-to_lower scheme (rw e (omega arith))

extract_token_sound :
    (header token : Bytes)
    → token ≢ []
    → extract_token header ≡ token
    → (scheme : Bytes) × (header ≡ scheme ++ b' ' ∷ token) × (to_lower scheme ≡ codes "bearer")
unfolding extract_token
extract_token_sound header token ne h = elim (Option-cases (cut b' ' header)) [
  | inl e ↦ absurd (ne (sym h ∙ rw (e, extract_token)))
  | inr ((scheme, rest), e) ↦ elim (Bool-cases (bytes_eq (to_lower scheme) (codes "bearer"))) [
    | inl same ↦
        let q : rest ≡ token = rw (e, same, extract_token) at h in
        (scheme, rw (← q) (cut-eq-some b' ' header scheme rest e).0, (bytes_eq_iff _ _).0 same)
    | inr other ↦ absurd (ne (sym (rw (e, other, extract_token) at h)))
  ]
]

extract_token_complete :
    (scheme token : Bytes)
    → to_lower scheme ≡ codes "bearer"
    → extract_token (scheme ++ b' ' ∷ token) ≡ token
unfolding extract_token
extract_token_complete scheme token low = rw (
  cut-append b' ' scheme token (bearer_Lacks scheme low),
  (bytes_eq_iff (to_lower scheme) (codes "bearer")).1 low,
  extract_token,
)

-- A token that is not empty is extracted exactly from a header that is a scheme which reads
-- "bearer" in any case, a space, and that token.
pub extract_token_iff :
    (header token : Bytes)
    → token ≢ []
    → (extract_token header ≡ token)
      ↔ ((scheme : Bytes) × (header ≡ scheme ++ b' ' ∷ token) × (to_lower scheme ≡ codes "bearer"))
extract_token_iff header token ne =
    (extract_token_sound header token ne, λ h. rw h.1 (extract_token_complete h.0 token h.2))

no_sync :
    (a b c d : Bool)
    → (if a
        then codes "create"
        else if b
        then codes "update"
        else if c
        then codes "delete"
        else if d
        then codes "read"
        else codes "read")
      ≢ codes "sync"
no_sync true b c d h = ground arith
no_sync false true c d h = ground arith
no_sync false false true d h = ground arith
no_sync false false false true h = ground arith
no_sync false false false false h = ground arith

extract_action-ne-sync : (m : Bytes) → (extract_action m ≢ codes "sync")
unfolding extract_action
extract_action-ne-sync m = no_sync _ _ _ _

of_parts-ne-sync : (parts : List Bytes) → (of_parts parts).1 ≢ codes "sync"
unfolding of_parts
of_parts-ne-sync [] h = ground arith
of_parts-ne-sync (a ∷ []) h = ground arith
of_parts-ne-sync (a ∷ b ∷ []) h = ground arith
of_parts-ne-sync (a ∷ b ∷ c ∷ []) h = extract_action-ne-sync c h
of_parts-ne-sync (a ∷ b ∷ c ∷ d ∷ parts) h = of_parts-ne-sync (b ∷ c ∷ d ∷ parts) h

-- The interceptor never asks Casbin about the action "sync", whatever the procedure.
pub extract_resource_and_action-ne-sync :
    (procedure : Bytes) → (extract_resource_and_action procedure).1 ≢ codes "sync"
unfolding extract_resource_and_action
extract_resource_and_action-ne-sync procedure = of_parts-ne-sync (split b'/' procedure)
