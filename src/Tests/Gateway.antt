-- ===== src/Tests/Gateway.antt =====
-- The interceptor of internal/interfaces/grpc/middleware/auth.go before a handler that counts.
use nis.Prelude.{
  ℕ, suc, ◌≡◌, ◌≢◌, refl, ◌↔◌, Bool, Option, none, some, [], codes, keep, if◌then◌else◌, arith,
}
use nis.Exec.{message, Result, ok, err, Exec}
use nis.Entities.{ApiUser, role_name, operator_admin}
use nis.Text.{Bytes, bytes_eq}
use nis.Policy.{allows}
use nis.Policy.Laws.{policy, not_sync_rule}
use nis.Middleware.{
  extract_token, extract_resource_and_action, Code, rejected, handled, authenticate, wrap_call,
}
use nis.Middleware.Gate.{Permits, wrap_call-handled, wrap_call-without_sync}

abbrev lead : ApiUser
lead = record {
  id = 50;
  username = "lead";
  password_hash = "h";
  role = operator_admin;
  operator_id = some 1;
  account_id = none;
  created_at = 0;
  updated_at = 0;
}

-- One token is valid.
abbrev validate : Bytes → ℕ → Result ApiUser
validate token s = if bytes_eq token (codes "T1") then ok lead else err (message "invalid token")

abbrev enforce : Bytes → Bytes → Bytes → Result Bool
enforce sub obj act = ok (allows policy sub obj act)

abbrev enforce_without_sync : Bytes → Bytes → Bytes → Result Bool
enforce_without_sync sub obj act = ok (allows (keep not_sync_rule policy) sub obj act)

-- The handler counts its calls.
abbrev next : Option ApiUser → Exec ℕ ℕ
next user s = (ok s, suc s)

abbrev get_account : Bytes
get_account = codes "/nis.v1.AccountService/GetAccount"

abbrev sync_cluster : Bytes
sync_cluster = codes "/nis.v1.ClusterService/SyncCluster"

abbrev header : Bytes
header = codes "Bearer T1"

wrap_call-handled_example :
    (wrap_call validate enforce next get_account header 7 ≡ (handled (ok 7), 8)) ↔ (
      (user : ApiUser) × (extract_token header ≢ [])
      × (validate (extract_token header) 7 ≡ ok user)
      × Permits policy user.role get_account
      × (next (some user) 7 ≡ (ok 7, 8)))
wrap_call-handled_example =
    wrap_call-handled validate enforce next policy get_account header 7 8 (ok 7)
      (λ sub obj act. refl) (λ e. ground (arith, e))

abbrev start : ℕ
start = 7

no_token : wrap_call validate enforce next get_account [] 7 ≡ (rejected Code.unauthenticated, 7)
unfolding wrap_call authenticate extract_token
no_token = refl

wrap_call-without_sync_example :
    wrap_call validate enforce next sync_cluster header 7
    ≡ wrap_call validate enforce_without_sync next sync_cluster header 7
wrap_call-without_sync_example =
    wrap_call-without_sync validate enforce enforce_without_sync next policy (λ sub obj act. refl)
      (λ sub obj act. refl) sync_cluster header 7

lead_permitted : Permits policy operator_admin get_account
unfolding extract_resource_and_action role_name policy allows
lead_permitted = refl
