-- ===== src/Clusters/Report.antt =====
-- What the result of SyncCluster says.
use nis.Prelude.{
  refl, ◌≡◌, ◌≢◌, true, false, List, [], ◌∷◌, length, codes, arith, Has, here, there, All,
  All-of_Has, length-append, Has-append_left, Has-append_right,
}
use nis.Exec.{Error, wrap, Result, ok, err}
use nis.Entities.{Account, Cluster}
use nis.Text.{Bytes}
use nis.Text.Laws.{bytes_eq_iff}
use nis.Clusters.{
  SyncResult, in_database, is_stale, add_error, after_push, all_removed, after_delete,
}

-- The key of no account, and not that of the cluster's system account.
pub record IsStale (cluster : Cluster) (accounts : List Account) (key : Bytes) : Type 0 where
  pub unknown : All (λ a. codes a.public_key ≢ key) accounts
  pub not_system : key ≢ codes cluster.system_account_pub_key

in_database_complete :
    (key : Bytes) (a : Account) (accounts : List Account)
    → in_database key accounts ≡ false
    → Has a accounts
    → codes a.public_key ≢ key
unfolding in_database
in_database_complete key a _ h (here {xs}) e = ground (arith, bytes_eq_iff (codes a.public_key) key)
in_database_complete key a _ h (there {x = b} {xs} m) e =
    in_database_complete key a xs (ground (arith, h)) m e

pub is_stale-IsStale :
    (cluster : Cluster) (accounts : List Account) (key : Bytes)
    → is_stale cluster accounts key ≡ true
    → IsStale cluster accounts key
unfolding is_stale
is_stale-IsStale cluster accounts key h = record {
  unknown = All-of_Has accounts λ a m. in_database_complete key a accounts (ground (arith, h)) m;
  not_system = λ e. ground (arith, bytes_eq_iff key (codes cluster.system_account_pub_key), h);
}

in_database_sound :
    (key : Bytes) (accounts : List Account)
    → ((a : Account) → Has a accounts → codes a.public_key ≢ key)
    → in_database key accounts ≡ false
unfolding in_database
in_database_sound key [] h = refl
in_database_sound key (a ∷ accounts) h =
    let first = h a here in
    let rest = in_database_sound key accounts (λ b m. h b (there m)) in
    ground (arith, first, rest, bytes_eq_iff (codes a.public_key) key)

pub IsStale-is_stale :
    (cluster : Cluster) (accounts : List Account) (key : Bytes)
    → ((a : Account) → Has a accounts → codes a.public_key ≢ key)
    → key ≢ codes cluster.system_account_pub_key
    → is_stale cluster accounts key ≡ true
unfolding is_stale
IsStale-is_stale cluster accounts key unknown not_system =
    let e = in_database_sound key accounts unknown in
    ground (arith, e, not_system, bytes_eq_iff key (codes cluster.system_account_pub_key))

-- The counters of a result are the lengths of its lists.
pub record IsCounted (result : SyncResult) : Type 0 where
  pub updated : result.accounts_updated ≡ length result.accounts
  pub removed : result.accounts_removed ≡ length result.removed_accounts

pub after_push-IsCounted :
    (a : Account) (r : Result (Unit {0})) (result : SyncResult)
    → IsCounted result
    → IsCounted (after_push a r result)
unfolding after_push add_error
after_push-IsCounted a (ok _) result counted = record {
  updated =
      let e = length-append result.accounts (a.name ∷ []) in let u = counted.updated in omega arith;
  removed = counted.removed;
}
after_push-IsCounted a (err e) result counted = record {
  updated = counted.updated;
  removed = counted.removed;
}

pub after_delete-IsCounted :
    (stale : List Bytes) (r : Result (Unit {0})) (result : SyncResult)
    → IsCounted result
    → IsCounted (after_delete stale r result)
unfolding after_delete add_error all_removed
after_delete-IsCounted stale (ok _) result counted = record {
  updated = counted.updated;
  removed =
      let e = length-append result.removed_accounts stale in let u = counted.removed in omega arith;
}
after_delete-IsCounted stale (err e) result counted = record {
  updated = counted.updated;
  removed = counted.removed;
}

-- What a result says of an account: it was pushed, or there is an error with its key and name.
pub data IsReported (a : Account) (result : SyncResult) : Type 0 where
  pushed : Has a.name result.accounts → IsReported a result
  failed :
      (e : Error)
      → Has
          (record { account_public_key = a.public_key; account_name = a.name; error = e })
          result.errors
      → IsReported a result

pub after_push-IsReported :
    (a b : Account) (r : Result (Unit {0})) (result : SyncResult)
    → IsReported a result
    → IsReported a (after_push b r result)
unfolding after_push add_error
after_push-IsReported a b (ok _) result (pushed m) = pushed (Has-append_left a.name _ _ m)
after_push-IsReported a b (ok _) result (failed e m) = failed e m
after_push-IsReported a b (err _) result (pushed m) = pushed m
after_push-IsReported a b (err _) result (failed e m) = failed e (Has-append_left _ _ _ m)

pub after_push_self :
    (a : Account) (r : Result (Unit {0})) (result : SyncResult)
    → IsReported a (after_push a r result)
unfolding after_push add_error
after_push_self a (ok _) result = pushed (Has-append_right a.name result.accounts _ here)
after_push_self a (err e) result =
    failed (wrap "failed to push JWT" e) (Has-append_right _ result.errors _ here)

pub after_delete-IsReported :
    (a : Account) (stale : List Bytes) (r : Result (Unit {0})) (result : SyncResult)
    → IsReported a result
    → IsReported a (after_delete stale r result)
unfolding after_delete add_error all_removed
after_delete-IsReported a stale (ok _) result (pushed m) = pushed m
after_delete-IsReported a stale (ok _) result (failed e m) = failed e m
after_delete-IsReported a stale (err _) result (pushed m) = pushed m
after_delete-IsReported a stale (err _) result (failed e m) = failed e (Has-append_left _ _ _ m)

pub add_error-IsReported :
    (a : Account) (e : Error) (result : SyncResult)
    → IsReported a result
    → IsReported a (add_error "" "" e result)
unfolding add_error
add_error-IsReported a e result (pushed m) = pushed m
add_error-IsReported a e result (failed why m) = failed why (Has-append_left _ _ _ m)
