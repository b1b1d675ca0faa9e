-- ===== src/Tests/World.antt =====
-- A database in memory, stand-ins for the encryptor and the NATS libraries, and a proof that the
-- database has the laws that the theorems ask of one.
use nis.Prelude.{
  String, refl, Bool, false, none, some, List, [], ◌∷◌, ◌==◌, ◌&&◌, str_eq, if◌then◌else◌, keep,
  codes, join,
}
use nis.Exec.{message, ok, err}
use nis.Entities.{pos, negsuc, Uuid, Operator, Account, ScopedSigningKey, User, Cluster}
use nis.Repositories.{
  OperatorRepository, AccountRepository, ScopedSigningKeyRepository, UserRepository,
  ClusterRepository,
}
use nis.Text.{Bytes}
use nis.Jwt.{Encryptor, Nkeys, UserScope}
use nis.Services.{Deps, Draw}
use nis.Services.Laws.{AccountLaws, DeleteLaws}
use nis.Storage.{stored_account}
use nis.Tests.Table.{
  first, at_most, find, insert_row, update_row, delete_row, find-id, find-update_row,
  find-delete_row,
}

-- `read_only` makes every insertion of a scoped key fail.
pub record World : Type 0 where
  pub operators : List Operator
  pub accounts : List Account
  pub scoped_keys : List ScopedSigningKey
  pub users : List User
  pub clusters : List Cluster
  pub resolver : List Bytes
  pub read_only : Bool

abbrev pub operator_table : OperatorRepository World
operator_table = record {
  create = λ o s.
      let (r, rows) = insert_row (λ o. o.id) o s.operators in (r, record s { operators = rows });
  get_by_id = λ id s. find (λ o. o.id) id s.operators;
  get_by_name = λ name s. first (λ o. str_eq o.name name) s.operators;
  get_by_public_key = λ key s. first (λ o. str_eq o.public_key key) s.operators;
  list_all = λ options s. ok (at_most options.limit s.operators);
  update = λ o s.
      let (r, rows) = update_row (λ o. o.id) o s.operators in (r, record s { operators = rows });
  delete = λ id s.
      let (r, rows) = delete_row (λ o. o.id) id s.operators in (r, record s { operators = rows });
}

abbrev pub account_table : AccountRepository World
account_table = record {
  create = λ a s.
      let (r, rows) = insert_row (λ a. a.id) (stored_account a) s.accounts in
      (r, record s { accounts = rows });
  get_by_id = λ id s. find (λ a. a.id) id s.accounts;
  get_by_name = λ operator_id name s.
      first (λ a. (a.operator_id == operator_id) && str_eq a.name name) s.accounts;
  get_by_public_key = λ key s. first (λ a. str_eq a.public_key key) s.accounts;
  list_all = λ options s. ok (at_most options.limit s.accounts);
  list_by_operator =
      λ id options s. ok (at_most options.limit (keep (λ a. a.operator_id == id) s.accounts));
  update = λ a s.
      let (r, rows) = update_row (λ a. a.id) a s.accounts in (r, record s { accounts = rows });
  delete = λ id s.
      let (r, rows) = delete_row (λ a. a.id) id s.accounts in (r, record s { accounts = rows });
}

abbrev pub scoped_key_table : ScopedSigningKeyRepository World
scoped_key_table = record {
  create = λ k s.
      if s.read_only
      then (err (message "database is read-only"), s)
      else (let (r, rows) = insert_row (λ k. k.id) k s.scoped_keys in
          (r, record s { scoped_keys = rows }));
  get_by_id = λ id s. find (λ k. k.id) id s.scoped_keys;
  get_by_name = λ account_id name s.
      first (λ k. (k.account_id == account_id) && str_eq k.name name) s.scoped_keys;
  get_by_public_key = λ key s. first (λ k. str_eq k.public_key key) s.scoped_keys;
  list_all = λ options s. ok (at_most options.limit s.scoped_keys);
  list_by_account =
      λ id options s. ok (at_most options.limit (keep (λ k. k.account_id == id) s.scoped_keys));
  update = λ k s.
      let (r, rows) = update_row (λ k. k.id) k s.scoped_keys in
      (r, record s { scoped_keys = rows });
  delete = λ id s.
      let (r, rows) = delete_row (λ k. k.id) id s.scoped_keys in
      (r, record s { scoped_keys = rows });
}

abbrev pub has_scoped_key : Uuid → User → Bool
has_scoped_key id u = elim u.scoped_signing_key_id [ none ↦ false | some j ↦ j == id ]

abbrev pub user_table : UserRepository World
user_table = record {
  create =
      λ u s. let (r, rows) = insert_row (λ u. u.id) u s.users in (r, record s { users = rows });
  get_by_id = λ id s. find (λ u. u.id) id s.users;
  get_by_name =
      λ account_id name s. first (λ u. (u.account_id == account_id) && str_eq u.name name) s.users;
  get_by_public_key = λ key s. first (λ u. str_eq u.public_key key) s.users;
  list_all = λ options s. ok (at_most options.limit s.users);
  list_by_account =
      λ id options s. ok (at_most options.limit (keep (λ u. u.account_id == id) s.users));
  list_by_scoped_signing_key =
      λ id options s. ok (at_most options.limit (keep (has_scoped_key id) s.users));
  update =
      λ u s. let (r, rows) = update_row (λ u. u.id) u s.users in (r, record s { users = rows });
  delete =
      λ id s. let (r, rows) = delete_row (λ u. u.id) id s.users in (r, record s { users = rows });
}

abbrev pub cluster_table : ClusterRepository World
cluster_table = record {
  create = λ c s.
      let (r, rows) = insert_row (λ c. c.id) c s.clusters in (r, record s { clusters = rows });
  get_by_id = λ id s. find (λ c. c.id) id s.clusters;
  get_by_name = λ name s. first (λ c. str_eq c.name name) s.clusters;
  list_all = λ options s. ok (at_most options.limit s.clusters);
  list_by_operator =
      λ id options s. ok (at_most options.limit (keep (λ c. c.operator_id == id) s.clusters));
  update = λ c s.
      let (r, rows) = update_row (λ c. c.id) c s.clusters in (r, record s { clusters = rows });
  delete = λ id s.
      let (r, rows) = delete_row (λ c. c.id) id s.clusters in (r, record s { clusters = rows });
}

abbrev keys_text : List UserScope → String
keys_text [] = ""
keys_text (k ∷ ks) = join "," (join k.key (keys_text ks))

-- A text with a letter for each byte.
abbrev sealed : Bytes → String
sealed [] = ""
sealed (c ∷ s) = join "x" (sealed s)

abbrev pub encryptor : Encryptor
encryptor = record { encrypt = λ seed. ok (sealed seed); decrypt = λ text. ok (codes text) }

-- A key pair is its seed; the seed must not be empty. A token spells the claims that tests compare.
abbrev pub nkeys : Nkeys Bytes
nkeys = record {
  from_seed = λ seed. elim seed [ [] ↦ err (message "nkeys: invalid seed") | c ∷ s ↦ ok (c ∷ s) ];
  public_key = λ kp. ok (sealed kp);
  encode_operator = λ at claims kp. ok (join "operator:" claims.subject);
  encode_account = λ at claims kp.
      ok (join claims.subject (join ":" (join claims.name (keys_text claims.signing_keys))));
  encode_user = λ at claims kp. ok (join claims.subject claims.issuer_account);
  encode_generic = λ at claims kp. ok (join "delete:" claims.subject);
}

abbrev pub deps : Deps World Bytes
deps = record {
  operators = operator_table;
  accounts = account_table;
  scoped_keys = scoped_key_table;
  users = user_table;
  encryptor = encryptor;
  nkeys = nkeys;
}

pub deps_laws : AccountLaws deps
deps_laws = record {
  get-id = λ id s a h. find-id (λ a. a.id) id s.accounts a h;
  get-update = λ a s h. (a.created_at, a.updated_at, find-update_row (λ a. a.id) a s.accounts h);
  operators-update = λ a s id. refl;
  scoped_keys-update = λ a s id o. refl;
}

pub deps-DeleteLaws : DeleteLaws deps
deps-DeleteLaws = record { get-delete = λ id s h. find-delete_row (λ a. a.id) id s.accounts h }

abbrev pub acme : Operator
acme = record {
  id = 1;
  name = "acme";
  description = "";
  encrypted_seed = "SO";
  public_key = "OACME";
  jwt = "";
  system_account_pub_key = "ASYS";
  created_at = 0;
  updated_at = 0;
}

abbrev pub account_of : Uuid → String → String → Account
account_of id name public_key = record {
  id = id;
  operator_id = 1;
  name = name;
  description = "";
  encrypted_seed = "SA";
  public_key = public_key;
  jwt = "";
  jet_stream_enabled = false;
  jet_stream_max_memory = pos 0;
  jet_stream_max_storage = pos 0;
  jet_stream_max_streams = negsuc 0;
  jet_stream_max_consumers = negsuc 0;
  created_at = 0;
  updated_at = 0;
}

abbrev pub key_of : Uuid → String → String → ScopedSigningKey
key_of id name public_key = record {
  id = id;
  account_id = 10;
  name = name;
  description = "";
  encrypted_seed = "SK";
  public_key = public_key;
  pub_allow = ">" ∷ [];
  pub_deny = [];
  sub_allow = [];
  sub_deny = [];
  response_max_msgs = pos 0;
  response_ttl = pos 0;
  created_at = 0;
  updated_at = 0;
}

abbrev pub bob : User
bob = record {
  id = 30;
  account_id = 10;
  name = "bob";
  description = "";
  encrypted_seed = "SU";
  public_key = "UBOB";
  jwt = "";
  scoped_signing_key_id = some 20;
  created_at = 0;
  updated_at = 0;
}

-- One operator with its system account and another account, which has two scoped keys and a user.
abbrev pub world : World
world = record {
  operators = acme ∷ [];
  accounts = account_of 9 "SYS" "ASYS" ∷ account_of 10 "orders" "AORD" ∷ [];
  scoped_keys = key_of 20 "default" "AKDEF" ∷ key_of 21 "reader" "AKREAD" ∷ [];
  users = bob ∷ [];
  clusters = [];
  resolver = [];
  read_only = false;
}

abbrev pub draw : Uuid → String → Draw
draw id public_key = record { id = id; nkey = ok (b'S' ∷ b'A' ∷ [], public_key) }
