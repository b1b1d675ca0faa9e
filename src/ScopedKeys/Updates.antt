-- ===== src/ScopedKeys/Updates.antt =====
-- What UpdateScopedSigningKey makes of a key.
use nis.Prelude.{Option, none, some, ◌≡◌, refl, ap, sym, true, false, arith}
use nis.Entities.{ℤ, pos, negsuc, Time, ScopedSigningKey}
use nis.Services.Updates.{
  IsRequested, or_old-IsRequested, is_given-IsRequested, changes_text-IsRequested,
}
use nis.ScopedKeys.{UpdateRequest, is_changed, apply_update, ℤ_eq, changes_int}

-- Every field of the request is set, and all else is as it was but for the time of the update.
pub record IsApplied (req : UpdateRequest) (old key : ScopedSigningKey) : Type 0 where
  pub name : IsRequested req.name old.name key.name
  pub description : IsRequested req.description old.description key.description
  pub pub_allow : IsRequested req.pub_allow old.pub_allow key.pub_allow
  pub pub_deny : IsRequested req.pub_deny old.pub_deny key.pub_deny
  pub sub_allow : IsRequested req.sub_allow old.sub_allow key.sub_allow
  pub sub_deny : IsRequested req.sub_deny old.sub_deny key.sub_deny
  pub response_max_msgs :
      IsRequested req.response_max_msgs old.response_max_msgs key.response_max_msgs
  pub response_ttl : IsRequested req.response_ttl old.response_ttl key.response_ttl
  pub id : key.id ≡ old.id
  pub account_id : key.account_id ≡ old.account_id
  pub encrypted_seed : key.encrypted_seed ≡ old.encrypted_seed
  pub public_key : key.public_key ≡ old.public_key
  pub created_at : key.created_at ≡ old.created_at

pub apply_update-IsApplied :
    (req : UpdateRequest) (now : Time) (old : ScopedSigningKey)
    → IsApplied req old (apply_update req now old)
unfolding apply_update
apply_update-IsApplied req now old = record {
  name = or_old-IsRequested req.name old.name;
  description = or_old-IsRequested req.description old.description;
  pub_allow = or_old-IsRequested req.pub_allow old.pub_allow;
  pub_deny = or_old-IsRequested req.pub_deny old.pub_deny;
  sub_allow = or_old-IsRequested req.sub_allow old.sub_allow;
  sub_deny = or_old-IsRequested req.sub_deny old.sub_deny;
  response_max_msgs = or_old-IsRequested req.response_max_msgs old.response_max_msgs;
  response_ttl = or_old-IsRequested req.response_ttl old.response_ttl;
  id = refl;
  account_id = refl;
  encrypted_seed = refl;
  public_key = refl;
  created_at = refl;
}

ℤ_eq_sound : (a b : ℤ) → ℤ_eq a b ≡ true → a ≡ b
unfolding ℤ_eq
ℤ_eq_sound (pos a) (pos b) h = ap pos (ground (arith, h))
ℤ_eq_sound (pos a) (negsuc b) h = absurd (cc h)
ℤ_eq_sound (negsuc a) (pos b) h = absurd (cc h)
ℤ_eq_sound (negsuc a) (negsuc b) h = ap negsuc (ground (arith, h))

changes_int-IsRequested :
    (req : Option ℤ) (old : ℤ) → changes_int req old ≡ false → IsRequested req old old
unfolding changes_int
changes_int-IsRequested none old h = refl
changes_int-IsRequested (some x) old h = sym (ℤ_eq_sound x old (ground (arith, h)))

pub is_changed-IsApplied :
    (req : UpdateRequest) (old : ScopedSigningKey)
    → is_changed req old ≡ false
    → IsApplied req old old
unfolding is_changed
is_changed-IsApplied req old h = record {
  name = changes_text-IsRequested req.name old.name (ground (arith, h));
  description = changes_text-IsRequested req.description old.description (ground (arith, h));
  pub_allow = is_given-IsRequested req.pub_allow old.pub_allow (ground (arith, h));
  pub_deny = is_given-IsRequested req.pub_deny old.pub_deny (ground (arith, h));
  sub_allow = is_given-IsRequested req.sub_allow old.sub_allow (ground (arith, h));
  sub_deny = is_given-IsRequested req.sub_deny old.sub_deny (ground (arith, h));
  response_max_msgs =
      changes_int-IsRequested req.response_max_msgs old.response_max_msgs (ground (arith, h));
  response_ttl = changes_int-IsRequested req.response_ttl old.response_ttl (ground (arith, h));
  id = refl;
  account_id = refl;
  encrypted_seed = refl;
  public_key = refl;
  created_at = refl;
}
