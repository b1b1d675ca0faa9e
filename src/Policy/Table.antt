-- ===== src/Policy/Table.antt =====
-- The lines of internal/application/services/casbin_policy.csv that state rules; its comments and
-- blank lines are left out.
use nis.Prelude.{String, List, [], ◌∷◌}

abbrev pub policy_lines : List String
policy_lines =
    "p, admin, operator,   create" ∷ "p, admin, operator,   read" ∷ "p, admin, operator,   update"
    ∷ "p, admin, operator,   delete" ∷ "p, admin, account,    create" ∷ "p, admin, account,    read"
    ∷ "p, admin, account,    update" ∷ "p, admin, account,    delete"
    ∷ "p, admin, user,       create" ∷ "p, admin, user,       read" ∷ "p, admin, user,       update"
    ∷ "p, admin, user,       delete" ∷ "p, admin, scoped_key, create" ∷ "p, admin, scoped_key, read"
    ∷ "p, admin, scoped_key, update" ∷ "p, admin, scoped_key, delete"
    ∷ "p, admin, cluster,    create" ∷ "p, admin, cluster,    read" ∷ "p, admin, cluster,    update"
    ∷ "p, admin, cluster,    delete" ∷ "p, admin, export,     create" ∷ "p, admin, export,     read"
    ∷ "p, admin, api_user,   create" ∷ "p, admin, api_user,   read" ∷ "p, admin, api_user,   update"
    ∷ "p, admin, api_user,   delete" ∷ "p, operator-admin, operator,   read"
    ∷ "p, operator-admin, account,    create" ∷ "p, operator-admin, account,    read"
    ∷ "p, operator-admin, account,    update" ∷ "p, operator-admin, user,       create"
    ∷ "p, operator-admin, user,       read" ∷ "p, operator-admin, user,       update"
    ∷ "p, operator-admin, user,       delete" ∷ "p, operator-admin, scoped_key, create"
    ∷ "p, operator-admin, scoped_key, read" ∷ "p, operator-admin, scoped_key, update"
    ∷ "p, operator-admin, cluster,    read" ∷ "p, operator-admin, cluster,    sync"
    ∷ "p, operator-admin, export,     read" ∷ "p, account-admin, operator, read"
    ∷ "p, account-admin, account,  read" ∷ "p, account-admin, user,     create"
    ∷ "p, account-admin, user,     read" ∷ "p, account-admin, user,     update"
    ∷ "p, account-admin, cluster,  read" ∷ []
