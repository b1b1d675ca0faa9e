-- ===== src/Policy.antt =====
-- The Casbin side of the authorization: the loader of internal/application/services/casbin_embed.go,
-- the model of internal/application/services/casbin_model.conf as a function of the rules, and in
-- Policy/Table the rules of internal/application/services/casbin_policy.csv. The Casbin library
-- itself is a parameter of Middleware; `allows` is what the model's matcher and effect ask of it.
pub mod Table
pub mod Laws
use nis.Prelude.{
  Bool, true, false, ◌&&◌, ◌||◌, Option, none, some, List, [], ◌∷◌, map, codes, if◌then◌else◌,
}
use nis.Text.{Bytes, bytes_eq, has_prefix, split, trim_space}

-- A `p` line: `p, role, resource, action`.
pub record Rule : Type 0 where
  pub sub : Bytes
  pub obj : Bytes
  pub act : Bytes

-- `m = g(r.sub, p.sub) && r.obj == p.obj && r.act == p.act`, where `g` is equality since the policy
-- has no `g` rule
unfoldable pub matches : Rule → Bytes → Bytes → Bytes → Bool
unfolding bytes_eq
matches p sub obj act = bytes_eq sub p.sub && bytes_eq obj p.obj && bytes_eq act p.act

-- `e = some(where (p.eft == allow))`
unfoldable pub allows : List Rule → Bytes → Bytes → Bytes → Bool
unfolding matches
allows [] sub obj act = false
allows (p ∷ rules) sub obj act = matches p sub obj act || allows rules sub obj act

rule_of_parts : List Bytes → Option Rule
unfolding bytes_eq
rule_of_parts (p ∷ sub ∷ obj ∷ act ∷ _) =
    if bytes_eq p (codes "p") then some (record { sub = sub; obj = obj; act = act }) else none
rule_of_parts _ = none

-- One turn of the loader's loop; `none` is a `continue`.
unfoldable pub load_line : Bytes → Option Rule
unfolding rule_of_parts trim_space bytes_eq has_prefix split
load_line raw =
    let line = trim_space raw in
    if bytes_eq line [] || has_prefix line (codes "#")
    then none
    else rule_of_parts (map trim_space (split b',' line))

abbrev add_rule : Option Rule → List Rule → List Rule
add_rule none rules = rules
add_rule (some p) rules = p ∷ rules

unfoldable pub load_lines : List Bytes → List Rule
unfolding load_line
load_lines [] = []
load_lines (raw ∷ lines) = add_rule (load_line raw) (load_lines lines)

-- The rules that `NewCasbinEnforcer` hands to `AddPolicies`.
unfoldable pub load_policies : Bytes → List Rule
unfolding load_lines split
load_policies text = load_lines (split b'\n' text)
