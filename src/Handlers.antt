-- ===== src/Handlers.antt =====
-- internal/interfaces/grpc/handlers/util.go and cluster_handler.go: the handlers of the cluster
-- service, behind the interceptor. The request's user is the one that the interceptor has put into
-- the context, if any. `parse` is `uuid.Parse`. A reply holds the entity; its conversion to a message
-- is left out.
pub mod Guards
use nis.Prelude.{
  String, Bool, true, false, Option, none, some, List, [], ◌∷◌, str_eq, codes, if◌then◌else◌,
}
use nis.Exec.{Error, already_exists, wrap, is_not_found, Result, ok, err, Exec}
use nis.Entities.{Uuid, Time, Cluster, ApiUser}
use nis.Repositories.{ListOptions, ClusterRepository}
use nis.Text.{Bytes}
use nis.Permission.{can_read_operator, can_update_operator, can_delete_operator}
use nis.Services.{Deps}
use nis.Nats.{NatsLibrary, Json}
use nis.Clusters
use nis.Clusters.{SyncResult}
use nis.Clusters.Manage
use nis.Clusters.Resolve

-- The codes of Connect that the handlers use.
pub data Code : Type 0 where
  code_unauthenticated code_invalid_argument code_permission_denied code_not_found : Code
  code_already_exists code_unimplemented : Code

-- `uncoded` is an error that is returned as it is.
pub data Reply (A : Type 0) : Type 0 where
  reply : A → Reply A
  refused : Code → Option Error → Reply A
  uncoded : Error → Reply A

-- `errors.Is(err, ErrAlreadyExists)`
is_already_exists : Error → Bool
is_already_exists already_exists = true
is_already_exists (wrap _ e) = is_already_exists e
is_already_exists _ = false

unfoldable pub repo_err_to_connect : {A : Type 0} → Error → Reply A
unfolding is_already_exists
repo_err_to_connect e =
    if is_not_found e
    then refused code_not_found (some e)
    else (if is_already_exists e then refused code_already_exists (some e) else uncoded e)

-- The reply to a call of a service, with the repository's errors translated, or as they are.
unfoldable pub translated : {A : Type 0} → Result A → Reply A
translated (ok a) = reply a
translated (err e) = repo_err_to_connect e

unfoldable pub untranslated : {A : Type 0} → Result A → Reply A
untranslated (ok a) = reply a
untranslated (err e) = uncoded e

module _ {S A B : Type 0} where
  -- `if err != nil { return nil, connect.NewError(code, err) }`
  unfoldable pub or_refuse : Code → Result A → (A → S → Reply B × S) → S → Reply B × S
  or_refuse code (ok a) next s = next a s
  or_refuse code (err e) next s = (refused code (some e), s)

  -- `if err != nil { return nil, repoErrToConnect(err) }`
  unfoldable pub or_translate : Result A → (A → S → Reply B × S) → S → Reply B × S
  or_translate (ok a) next s = next a s
  or_translate (err e) next s = (repo_err_to_connect e, s)

  unfoldable pub answer : (Result A → Reply B) → Exec S A → S → Reply B × S
  answer finish m s = let (r, s') = m s in (finish r, s')

-- `authedUser`
unfoldable pub authed_user :
    {S B : Type 0} → Option ApiUser → (ApiUser → S → Reply B × S) → S → Reply B × S
authed_user none next s = (refused code_unauthenticated none, s)
authed_user (some u) next s = next u s

-- `mappers.StringPtr`
unfoldable pub string_ptr : String → Option String
string_ptr text = if str_eq text "" then none else some text

-- The fields of a message that the handler of `UpdateCluster` reads.
pub record UpdateMessage : Type 0 where
  pub id : Bytes
  pub name : String
  pub description : String
  pub server_urls : Option (List String)
  pub skip_verify_tls : Option Bool

unfoldable pub update_request : UpdateMessage → Clusters.UpdateRequest
unfolding string_ptr
update_request msg = record {
  name = string_ptr msg.name;
  description = string_ptr msg.description;
  server_urls = msg.server_urls;
  system_account_pub_key = none;
  skip_verify_tls = msg.skip_verify_tls;
}

unfoldable pub ok_or_none : {A : Type 0} → Result A → Option A
ok_or_none (ok a) = some a
ok_or_none (err e) = none

module _ {S KeyPair Conn : Type 0} (d : Deps S KeyPair) (clusters : ClusterRepository S)
    (library : NatsLibrary S Conn) (json : Json) (now : Time) (parse : Bytes → Result Uuid)
    (user : Option ApiUser) where
  -- The optional user of a new cluster; what cannot be parsed is dropped.
  unfoldable pub system_user_id : Bytes → Option Uuid
  unfolding ok_or_none
  system_user_id [] = none
  system_user_id (c ∷ text) = ok_or_none (parse (c ∷ text))

  abbrev pub Check : Type 0
  Check = ApiUser → Uuid → S → Result (Unit {0})

  -- The checks of the permission service that the handlers ask, of a cluster's operator.
  abbrev pub may_read : Check
  may_read u operator_id s = can_read_operator d.accounts (some u) operator_id s

  abbrev pub may_update : Check
  may_update u operator_id s = can_update_operator (some u) operator_id

  abbrev pub may_delete : Check
  may_delete u operator_id s = can_delete_operator (some u) operator_id

  -- A handler on one cluster: the user, the identifier, the cluster, the check, and then its body.
  unfoldable pub on_cluster :
      {B : Type 0} → Check → Bytes → (Uuid → Cluster → S → Reply B × S) → S → Reply B × S
  on_cluster check text body = authed_user user (λ u.
      or_refuse code_invalid_argument (parse text) (λ id s.
        or_translate (clusters.get_by_id id s)
          (λ cluster s'.
            or_refuse code_permission_denied (check u cluster.operator_id s') (λ _. body id cluster)
              s')
          s))

  unfoldable pub create_cluster :
      Uuid → Bytes → Bytes → (Uuid → Option Uuid → Clusters.CreateRequest) → S → Reply Cluster × S
  create_cluster new_id operator_text user_text request = authed_user user (λ u.
      or_refuse code_invalid_argument (parse operator_text) (λ operator_id s.
        or_refuse code_permission_denied (may_read u operator_id s)
          (λ _. answer untranslated (
            Manage.create_cluster d clusters now new_id
              (request operator_id (system_user_id user_text))))
          s))

  unfoldable pub get_cluster : Bytes → S → Reply Cluster × S
  get_cluster text = on_cluster may_read text (λ id cluster s. (reply cluster, s))

  unfoldable pub get_cluster_by_name : String → S → Reply Cluster × S
  get_cluster_by_name name = authed_user user (λ u s.
      or_translate (clusters.get_by_name name s)
        (λ cluster s'.
          or_refuse code_permission_denied (may_read u cluster.operator_id s')
            (λ _ s''. (reply cluster, s'')) s')
        s)

  -- The clusters whose operator the user may read.
  unfoldable pub readable : ApiUser → List Cluster → S → List Cluster
  readable u [] s = []
  readable u (c ∷ listed) s =
      let rest = readable u listed s in
      elim (may_read u c.operator_id s) [ ok _ ↦ c ∷ rest | err e ↦ rest ]

  unfoldable pub list_of_operator : ApiUser → Bytes → ListOptions → S → Reply (List Cluster) × S
  list_of_operator u text options = or_refuse code_invalid_argument (parse text) (λ id s.
      or_refuse code_permission_denied (may_read u id s)
        (λ _ s'. (untranslated (clusters.list_by_operator id options s'), s')) s)

  unfoldable pub list_readable : ApiUser → Result (List Cluster) → S → Reply (List Cluster)
  list_readable u (ok listed) s = reply (readable u listed s)
  list_readable u (err e) s = uncoded e

  unfoldable pub list_clusters : Bytes → ListOptions → S → Reply (List Cluster) × S
  list_clusters [] options =
      authed_user user (λ u s. (list_readable u (clusters.list_all options s) s, s))
  list_clusters (c ∷ text) options = authed_user user (λ u. list_of_operator u (c ∷ text) options)

  unfoldable pub update_cluster : UpdateMessage → S → Reply Cluster × S
  update_cluster msg = on_cluster may_update msg.id (λ id cluster.
      answer translated (Manage.update_cluster d clusters now id (update_request msg)))

  unfoldable pub update_cluster_credentials : Bytes → Bytes → S → Reply Cluster × S
  update_cluster_credentials text user_text = on_cluster may_update text (λ id cluster.
      or_refuse code_invalid_argument (parse user_text) (λ user_id.
        answer translated (Manage.update_cluster_credentials d clusters now id user_id)))

  unfoldable pub delete_cluster : Bytes → S → Reply (Unit {0}) × S
  delete_cluster text =
      on_cluster may_delete text
        (λ id cluster. answer translated (Manage.delete_cluster d clusters now id))

  unfoldable pub get_cluster_credentials : Bytes → S → Reply Bytes × S
  get_cluster_credentials text =
      on_cluster may_read text
        (λ id cluster s. (translated (Manage.get_cluster_credentials d clusters now id s), s))

  unfoldable pub generate_server_config : Reply (Unit {0})
  generate_server_config = refused code_unimplemented none

  unfoldable pub sync_cluster : Bytes → Bool → S → Reply SyncResult × S
  sync_cluster text prune = on_cluster may_update text (λ id cluster.
      answer untranslated (Resolve.sync_cluster d clusters library json now id prune))

  unfoldable pub list_resolver_accounts : Bytes → S → Reply (List Bytes) × S
  list_resolver_accounts text = on_cluster may_read text (λ id cluster.
      answer untranslated (Resolve.list_resolver_accounts d clusters library json now id))

  unfoldable pub delete_resolver_account : Bytes → Bytes → S → Reply (Unit {0}) × S
  delete_resolver_account text key = on_cluster may_update text (λ id cluster.
      answer untranslated (Resolve.delete_resolver_account d clusters library json now id key))
