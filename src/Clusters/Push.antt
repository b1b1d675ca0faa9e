-- ===== src/Clusters/Push.antt =====
-- The loop of SyncCluster that pushes accounts.
use nis.Prelude.{
  ◌≡◌, ◌≢◌, false, Bool-cases, inl, inr, List, [], ◌∷◌, arith, str_eq, eq_iff, Has, here, there,
}
use nis.Exec.{Result}
use nis.Entities.{Time, Account}
use nis.Repositories.{ClusterRepository}
use nis.Services.{Deps}
use nis.Nats.{NatsLibrary, Json, push_account_jwt}
use nis.Clusters.{SyncResult, after_push}
use nis.Clusters.Report.{IsReported, after_push-IsReported, after_push_self}
use nis.Clusters.Resolve.{push_turn, push_accounts}

module _ {S KeyPair Conn : Type 0} (d : Deps S KeyPair) (clusters : ClusterRepository S)
    (library : NatsLibrary S Conn) (json : Json) (now : Time) where
  push_turn-keeps :
      (P : SyncResult → Type 0) (nc : Conn) (a : Account) (result : SyncResult) (s : S)
      → ((r : Result (Unit {0})) → P (after_push a r result))
      → P result
      → P (push_turn d clusters library json now nc a result s).0
  unfolding push_turn
  push_turn-keeps P nc a result s step p = elim (Bool-cases (str_eq a.jwt "")) [
    | inl e ↦ rw (push_turn, e) p
    | inr e ↦ rw (push_turn, e) (step (push_account_jwt library json nc a s).0)
  ]

  -- What every push keeps, the loop keeps.
  pub push_accounts-keeps :
      (P : SyncResult → Type 0) (nc : Conn) (accounts : List Account) (result : SyncResult) (s : S)
      → ((a : Account) (r : Result (Unit {0})) (x : SyncResult) → P x → P (after_push a r x))
      → P result
      → P (push_accounts d clusters library json now nc accounts result s).0
  unfolding push_accounts
  push_accounts-keeps P nc [] result s step p = p
  push_accounts-keeps P nc (a ∷ accounts) result s step p =
      let (result', s') = push_turn d clusters library json now nc a result s in
      push_accounts-keeps P nc accounts result' s' step
        (push_turn-keeps P nc a result s (λ r. step a r result p) p)

  push_turn-IsReported :
      (nc : Conn) (a : Account) (result : SyncResult) (s : S)
      → a.jwt ≢ ""
      → IsReported a (push_turn d clusters library json now nc a result s).0
  unfolding push_turn
  push_turn-IsReported nc a result s given =
      let e : str_eq a.jwt "" ≡ false = ground (arith, eq_iff a.jwt "") in
      rw (push_turn, e) (after_push_self a (push_account_jwt library json nc a s).0 result)

  pub push_accounts-IsReported :
      (nc : Conn) (a : Account) (accounts : List Account) (result : SyncResult) (s : S)
      → Has a accounts
      → a.jwt ≢ ""
      → IsReported a (push_accounts d clusters library json now nc accounts result s).0
  unfolding push_accounts
  push_accounts-IsReported nc a _ result s (here {xs = accounts}) given =
      let (result', s') = push_turn d clusters library json now nc a result s in
      push_accounts-keeps (IsReported a) nc accounts result' s' (after_push-IsReported a)
        (push_turn-IsReported nc a result s given)
  push_accounts-IsReported nc a _ result s (there {x = b} {xs = accounts} m) given =
      let (result', s') = push_turn d clusters library json now nc b result s in
      push_accounts-IsReported nc a accounts result' s' m given
