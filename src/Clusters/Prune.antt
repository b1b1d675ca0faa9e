-- ===== src/Clusters/Prune.antt =====
-- The deletion of stale accounts from a resolver by SyncCluster.
use nis.Prelude.{String, ◌≡◌, refl, inl, inr, ◌⊎◌, List, [], ◌∷◌, codes}
use nis.Exec.{wrapped-bind-eq-ok, Error, Result, ok, err, Result-cases, wrapped-eq-ok}
use nis.Entities.{Operator, Time, Cluster}
use nis.Repositories.{ClusterRepository}
use nis.Text.{Bytes}
use nis.Jwt.{generate_delete_claim_jwt}
use nis.Services.{Deps}
use nis.Nats.{NatsLibrary, Json, delete_account_jwt}
use nis.Clusters.{SyncResult, add_error, all_removed, after_delete}
use nis.Clusters.Resolve.{delete_claim, remove_stale}

module _ {S KeyPair Conn : Type 0} (d : Deps S KeyPair) (clusters : ClusterRepository S)
    (library : NatsLibrary S Conn) (json : Json) (now : Time) where
  -- What the deletion of stale accounts keeps, whether they are deleted or not.
  pub remove_stale-keeps :
      (P : SyncResult → Type 0) (nc : Conn) (cluster : Cluster) (keys : List Bytes)
      (result : SyncResult) (s : S)
      → ((r : Result (Unit {0})) (x : SyncResult) → P x → P (after_delete keys r x))
      → ((e : Error) (x : SyncResult) → P x → P (add_error "" "" e x))
      → P result
      → P (remove_stale d clusters library json now nc cluster keys result s).0
  unfolding remove_stale
  remove_stale-keeps P nc cluster [] result s deleted failed p = p
  remove_stale-keeps P nc cluster (key ∷ keys) result s deleted failed p =
      elim (Result-cases (
        delete_claim d clusters library json now "failed to get operator for delete claim" cluster
          (key ∷ keys) s)) [
            | inl (jwt, e) ↦
                rw (remove_stale, e)
                  (deleted (delete_account_jwt library json nc (codes jwt) s).0 result p)
            | inr (why, e) ↦ rw (remove_stale, e) (failed why result p)
          ]

  -- What a prune has done about the stale keys. No claim was sent, if there was nothing to delete or
  -- no claim could be made; or the claim that was sent deletes exactly the stale keys, signed by the
  -- stored operator, and they count as removed if the server has accepted it.
  pub data IsPruned (nc : Conn) (cluster : Cluster) (stale removed : List Bytes) (s s' : S)
      : Type 0 where
    nothing : stale ≡ [] → removed ≡ [] → s' ≡ s → IsPruned nc cluster stale removed s s'
    unsigned :
        (text : String) (e : Error)
        → delete_claim d clusters library json now text cluster stale s ≡ err e
        → removed ≡ []
        → s' ≡ s
        → IsPruned nc cluster stale removed s s'
    sent :
        (operator : Operator) (jwt : String)
        → d.operators.get_by_id cluster.operator_id s ≡ ok operator
        → generate_delete_claim_jwt d.encryptor d.nkeys now operator stale ≡ ok jwt
        → (let (r, s₁) = delete_account_jwt library json nc (codes jwt) s in
            (s' ≡ s₁)
            × (((r ≡ ok tt) × (removed ≡ stale)) ⊎ ((e : Error) × (r ≡ err e) × (removed ≡ []))))
        → IsPruned nc cluster stale removed s s'

  delete_claim-eq-ok :
      (text : String) (cluster : Cluster) (keys : List Bytes) (s : S) (jwt : String)
      → delete_claim d clusters library json now text cluster keys s ≡ ok jwt
      → (operator : Operator) × (d.operators.get_by_id cluster.operator_id s ≡ ok operator)
        × (generate_delete_claim_jwt d.encryptor d.nkeys now operator keys ≡ ok jwt)
  unfolding delete_claim
  delete_claim-eq-ok text cluster keys s jwt h =
      let (operator, found, h₁) =
        wrapped-bind-eq-ok text (d.operators.get_by_id cluster.operator_id s) _ h in
      (operator, found, wrapped-eq-ok "failed to generate delete claim JWT" _ h₁)

  after_delete-removed :
      (stale : List Bytes) (r : Result (Unit {0})) (result : SyncResult)
      → result.removed_accounts ≡ []
      → ((r ≡ ok tt) × ((after_delete stale r result).removed_accounts ≡ stale))
        ⊎ ((e : Error) × (r ≡ err e) × ((after_delete stale r result).removed_accounts ≡ []))
  unfolding after_delete add_error all_removed
  after_delete-removed stale (ok _) result none = inl (refl, rw none refl)
  after_delete-removed stale (err e) result none = inr (e, refl, none)

  pub remove_stale-IsPruned :
      (nc : Conn) (cluster : Cluster) (stale : List Bytes) (result : SyncResult) (s : S)
      → result.removed_accounts ≡ []
      → (let (pruned, s') = remove_stale d clusters library json now nc cluster stale result s in
          IsPruned nc cluster stale pruned.removed_accounts s s')
  unfolding remove_stale add_error
  remove_stale-IsPruned nc cluster [] result s none = nothing refl none refl
  remove_stale-IsPruned nc cluster (key ∷ keys) result s none =
      let text : String = "failed to get operator for delete claim" in
      elim (Result-cases (delete_claim d clusters library json now text cluster (key ∷ keys) s)) [
        | inl (jwt, e) ↦
            let (operator, found, signed) = delete_claim-eq-ok text cluster (key ∷ keys) s jwt e in
            rw (remove_stale, e)
              (sent operator jwt found signed (
                refl,
                after_delete-removed (key ∷ keys)
                    (delete_account_jwt library json nc (codes jwt) s).0 result none,
              ))
        | inr (why, e) ↦ rw (remove_stale, e) (unsigned text why e none refl)
      ]
