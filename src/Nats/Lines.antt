-- ===== src/Nats/Lines.antt =====
-- The resolver's answers in the old format, one key on each line.
use nis.Prelude.{◌≡◌, refl, ◌≢◌, ap, false, ◌==◌, List, [], ◌∷◌, ◌++◌, All, arith}
use nis.Text.{Bytes}
use nis.Nats.{
  is_whitespace, trim, trim_start, trim_end, is_empty, split_lines, keys_of_lines, extend_first,
}
use nis.Nats.Creds.{IsSolid}

abbrev pub unlines : List Bytes → Bytes
unlines [] = []
unlines (x ∷ xs) = x ++ 10 ∷ unlines xs

split_lines-line :
    (x : Bytes) (rest : Bytes) → IsSolid x → split_lines (x ++ 10 ∷ rest) ≡ x ∷ split_lines rest
unfolding split_lines extend_first is_whitespace
split_lines-line [] rest solid = refl
split_lines-line (c ∷ x) rest solid =
    let other : (c == 10) ≡ false = ground (arith, solid.0) in
    rw (split_lines-line x rest solid.1, other) refl

trim_end-IsSolid : (x : Bytes) → IsSolid x → trim_end x ≡ x
unfolding trim_end is_whitespace is_empty
trim_end-IsSolid [] solid = refl
trim_end-IsSolid (c ∷ x) solid = rw (solid.0, trim_end-IsSolid x solid.1) refl

trim-IsSolid : (x : Bytes) → IsSolid x → trim x ≡ x
unfolding trim trim_start is_whitespace
trim-IsSolid [] solid = trim_end-IsSolid [] solid
trim-IsSolid (c ∷ x) solid = rw solid.0 (trim_end-IsSolid (c ∷ x) solid)

abbrev pub IsKey : Bytes → Type 0
IsKey x = (x ≢ []) × IsSolid x

keys_of_lines-cons :
    (x : Bytes) (lines : List Bytes) → IsKey x → keys_of_lines (x ∷ lines) ≡ x ∷ keys_of_lines lines
unfolding keys_of_lines is_empty
keys_of_lines-cons [] lines key = absurd (key.0 refl)
keys_of_lines-cons (c ∷ x) lines key = rw (trim-IsSolid (c ∷ x) key.1) refl

-- Keys that are not empty and without whitespace, each followed by a newline, are read back from the
-- answer in the old format, in their order.
pub keys_of_lines-unlines :
    (keys : List Bytes) → All IsKey keys → keys_of_lines (split_lines (unlines keys)) ≡ keys
unfolding split_lines keys_of_lines
keys_of_lines-unlines [] all = refl
keys_of_lines-unlines (x ∷ keys) all =
    rw
      (
        split_lines-line x (unlines keys) all.0.1,
        keys_of_lines-cons x (split_lines (unlines keys)) all.0,
      )
      (ap (λ y. x ∷ y) (keys_of_lines-unlines keys all.1))
