-- ===== src/Tests/Calls.antt =====
-- The cluster handlers on the fleet.
use nis.Prelude.{◌≡◌, refl, ◌⊎◌, true, none, some, [], ◌∷◌}
use nis.Exec.{Result, ok}
use nis.Entities.{Uuid, ApiUser, operator_admin}
use nis.Text.{Bytes}
use nis.Jwt.{generate_creds_file}
use nis.Permission
use nis.Clusters.Manage
use nis.Handlers
use nis.Handlers.{reply}
use nis.Handlers.Guards.{
  after, sync, IsAdmin, after-IsAdmin, IsRead, get_cluster_credentials-IsRead,
}
use nis.Tests.World.{cluster_table}
use nis.Tests.Fleet.{sealed_deps, library, json, fleet, carol, seed}

-- Every text names the one cluster.
abbrev parse : Bytes → Result Uuid
parse text = ok 70

abbrev owner : ApiUser
owner = record {
  id = 1;
  username = "owner";
  password_hash = "";
  role = operator_admin;
  operator_id = some 1;
  account_id = none;
  created_at = 0;
  updated_at = 0;
}

after-IsAdmin_example :
    (after sealed_deps cluster_table library json 5 parse
        (some owner)
        (sync (b'7' ∷ []) true)
        (fleet "open")
      ≡ fleet "open")
    ⊎ IsAdmin sealed_deps cluster_table library json 5 parse (some owner)
after-IsAdmin_example =
    after-IsAdmin sealed_deps cluster_table library json 5 parse (some owner)
      (sync (b'7' ∷ []) true) (fleet "open")

reads :
    (Handlers.get_cluster_credentials sealed_deps cluster_table library json 5 parse
      (some owner)
      (b'7' ∷ [])
      (fleet "sealed")).0
    ≡ reply (generate_creds_file carol seed)
unfolding Handlers.get_cluster_credentials Handlers.on_cluster Handlers.authed_user
    Handlers.or_refuse Handlers.or_translate Permission.can_read_operator Permission.owns_operator
    Handlers.translated Manage.get_cluster_credentials
reads = refl

get_cluster_credentials-IsRead_example :
    IsRead sealed_deps cluster_table library json 5 parse
      (some owner)
      (b'7' ∷ [])
      (fleet "sealed")
      (generate_creds_file carol seed)
get_cluster_credentials-IsRead_example =
    get_cluster_credentials-IsRead sealed_deps cluster_table library json 5 parse (some owner)
      (b'7' ∷ []) (fleet "sealed") (generate_creds_file carol seed) reads
