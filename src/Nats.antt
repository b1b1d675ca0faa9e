-- ===== src/Nats.antt =====
-- internal/infrastructure/nats/client.go: the client of a cluster's resolver. A connection of the
-- library nats.go is the parameter `NatsLibrary`, with the deadlines of its requests, and the
-- decoding of a JSON answer is `Json`. Texts from the network are bytes. An error text into which Go
-- formats a value ends before the value.
pub mod Creds
pub mod Lines
use nis.Prelude.{
  ℕ, suc, ◌+◌, ◌-◌, String, Bool, true, false, ◌&&◌, ◌||◌, not, ◌==◌, leb, Option, none, some, List,
  [], ◌∷◌, ◌++◌, length, take, drop, codes, if◌then◌else◌,
}
use nis.Exec.{
  Error, message, runtime_panic, Result, ok, err, ◌>>=◌, ◌>>◌, wrapped, fail_if, Exec, on_ok,
  then_do, wrapped_call,
}
use nis.Entities.{ℤ, Account}
use nis.Text.{Bytes, has_prefix}

-- The options that differ between calls; `user_jwt_and_seed` is `nats.UserJWTAndSeed`.
pub record ConnectOptions : Type 0 where
  pub insecure_skip_verify : Bool
  pub user_jwt_and_seed : Option (Bytes × Bytes)

pub record NatsLibrary (S Conn : Type 0) : Type 0 where
  pub connect : String → ConnectOptions → Exec S Conn
  pub is_connected : Conn → S → Bool
  pub is_closed : Conn → S → Bool
  pub request : Conn → Bytes → Bytes → Exec S Bytes
  pub publish : Conn → Bytes → Bytes → Exec S (Unit {0})
  pub close : Conn → S → S

pub record ResponseError : Type 0 where
  pub code : ℤ
  pub description : Bytes

pub record ClaimsListResponse : Type 0 where
  pub data_keys : List Bytes
  pub error : Option ResponseError

-- `json.Unmarshal` into the two response types.
pub record Json : Type 0 where
  pub decode_claims_list : Bytes → Result ClaimsListResponse
  pub decode_error : Bytes → Result (Option ResponseError)

unfoldable pub is_whitespace : ℕ → Bool
is_whitespace c = c == 32 || c == 9 || c == 10 || c == 13

-- The index of the first occurrence; Go's -1 is `none`.
unfoldable pub find : Bytes → Bytes → Option ℕ
find [] substr = if has_prefix [] substr then some 0 else none
find (c ∷ s) substr =
    let rest = find s substr in
    if has_prefix (c ∷ s) substr then some 0 else elim rest [ none ↦ none | some i ↦ some (suc i) ]

trim_start : Bytes → Bytes
trim_start [] = []
trim_start (c ∷ s) = let rest = trim_start s in if is_whitespace c then rest else c ∷ s

is_empty : Bytes → Bool
is_empty [] = true
is_empty (c ∷ s) = false

trim_end : Bytes → Bytes
trim_end [] = []
trim_end (c ∷ s) =
    let rest = trim_end s in if is_whitespace c && is_empty rest then [] else c ∷ rest

unfoldable pub trim : Bytes → Bytes
unfolding trim_start trim_end is_empty is_whitespace
trim s = trim_end (trim_start s)

-- `s[start:end]` for an `end` within `s`
unfoldable pub slice : Bytes → ℕ → ℕ → Result Bytes
slice s start end =
    if leb start end then ok (take (end - start) (drop start s)) else err runtime_panic

unfoldable pub index_of : String → Bytes → Bytes → Result ℕ
index_of text marker s = elim (find s marker) [ none ↦ err (message text) | some i ↦ ok i ]

-- The trimmed text between two markers, each the first of its kind, with the two errors' texts.
unfoldable pub section : String → String → Bytes → Bytes → Bytes → Result Bytes
section no_start no_end start_marker end_marker s = do
  start ← index_of no_start start_marker s
  end ← index_of no_end end_marker s
  part ← slice s (start + length start_marker) end
  ok (trim part)

unfoldable pub parse_creds_content : Bytes → Result (Bytes × Bytes)
unfolding is_empty
parse_creds_content s = do
  jwt ←
      section "JWT start marker not found" "JWT end marker not found"
        (codes "-----BEGIN NATS USER JWT-----") (codes "------END NATS USER JWT------") s
  seed ←
      section "seed start marker not found" "seed end marker not found"
        (codes "-----BEGIN USER NKEY SEED-----") (codes "------END USER NKEY SEED------") s
  fail_if (is_empty jwt || is_empty seed) (message "failed to extract JWT or seed from credentials")
  ok (jwt, seed)

extend_first : ℕ → List Bytes → List Bytes
extend_first c [] = (c ∷ []) ∷ []
extend_first c (line ∷ lines) = (c ∷ line) ∷ lines

-- A newline ends a line; what follows the last one is a line if it is not empty.
unfoldable pub split_lines : Bytes → List Bytes
unfolding extend_first
split_lines [] = []
split_lines (c ∷ s) =
    let lines = split_lines s in if c == 10 then [] ∷ lines else extend_first c lines

-- The loop over the lines of an answer in the old format.
unfoldable pub keys_of_lines : List Bytes → List Bytes
unfolding is_empty
keys_of_lines [] = []
keys_of_lines (line ∷ lines) =
    let rest = keys_of_lines lines in if is_empty (trim line) then rest else trim line ∷ rest

unfoldable pub check_pushed : Bytes → Result (Unit {0})
check_pushed [] = ok tt
check_pushed (c ∷ s) = fail_if (c == b'-') (message "resolver error: ")

module _ (json : Json) where
  unfoldable pub check_deleted : Bytes → Result (Unit {0})
  check_deleted [] = ok tt
  check_deleted (c ∷ s) = do
    fail_if (c == b'-') (message "resolver error: ")
    if c == b'{'
        then elim (json.decode_error (c ∷ s)) [
          | ok (some e) ↦ err (message "resolver error ")
          | ok none ↦ ok tt
          | err e ↦ ok tt
        ]
        else ok tt

  -- The keys in the answer to `$SYS.REQ.CLAIMS.LIST`.
  unfoldable pub listed_keys : Bytes → Result (List Bytes)
  listed_keys [] = ok []
  listed_keys (c ∷ s) = do
    fail_if (c == b'-') (message "resolver error: ")
    if c == b'{'
        then (do
          response ←
              wrapped "failed to parse claims list response" (json.decode_claims_list (c ∷ s))
          elim response.error [
            | none ↦ ok response.data_keys
            | some e ↦ err (message "resolver error ")
          ])
        else ok (keys_of_lines (split_lines (c ∷ s)))

unfoldable pub account_jwt_of : Bytes → Result Bytes
account_jwt_of [] = err (message "empty response from resolver")
account_jwt_of (c ∷ s) = do fail_if (c == b'-') (message "resolver error: "); ok (c ∷ s)

-- The credentials behind `NewClientFromCreds`; without a text there are none.
unfoldable pub credentials_of : Bytes → Result (Option (Bytes × Bytes))
credentials_of [] = ok none
credentials_of (c ∷ s) = do
  pair ← wrapped "failed to parse credentials" (parse_creds_content (c ∷ s))
  ok (some pair)

module _ {S Conn : Type 0} (library : NatsLibrary S Conn) (json : Json) where
  unfoldable pub new_client_from_creds : List String → Bytes → Bool → Exec S Conn
  new_client_from_creds [] creds skip_verify_tls s =
      (err (message "at least one server URL is required"), s)
  new_client_from_creds (url ∷ urls) creds skip_verify_tls s =
      on_ok (credentials_of creds)
        (λ pair. wrapped_call "failed to connect to NATS" (
          library.connect url
            (record { insecure_skip_verify = skip_verify_tls; user_jwt_and_seed = pair })))
        s

  unfoldable pub close : Conn → S → S
  close nc s = if library.is_closed nc s then s else library.close nc s

  -- A request, after the test for a connection.
  unfoldable pub request : Conn → Bytes → Bytes → Exec S Bytes
  request nc subject payload s =
      if library.is_connected nc s
      then library.request nc subject payload s
      else (err (message "not connected to NATS"), s)

  unfoldable pub publish : Conn → Bytes → Bytes → Exec S (Unit {0})
  publish nc subject payload s =
      if library.is_connected nc s
      then library.publish nc subject payload s
      else (err (message "not connected to NATS"), s)

  -- A request whose own errors are wrapped, and the reading of its answer.
  unfoldable pub ask {ℓ} :
      {A : Type ℓ} → Conn → String → Bytes → Bytes → (Bytes → Result A) → S → Result A × S
  ask nc text subject payload read s =
      if library.is_connected nc s
      then (let (r, s') = library.request nc subject payload s in (wrapped text r >>= read, s'))
      else (err (message "not connected to NATS"), s)

  unfoldable pub push_account_jwt : Conn → Account → Exec S (Unit {0})
  push_account_jwt nc account =
      ask nc "failed to push account JWT" (codes "$SYS.REQ.CLAIMS.UPDATE") (codes account.jwt)
        check_pushed

  unfoldable pub delete_account_jwt : Conn → Bytes → Exec S (Unit {0})
  delete_account_jwt nc delete_claim_jwt =
      ask nc "failed to delete account JWT" (codes "$SYS.REQ.CLAIMS.DELETE") delete_claim_jwt
        (check_deleted json)

  unfoldable pub get_account_jwt : Conn → Bytes → Exec S Bytes
  get_account_jwt nc public_key =
      ask nc "failed to get account JWT"
        (codes "$SYS.REQ.ACCOUNT." ++ (public_key ++ codes ".CLAIMS.LOOKUP")) [] account_jwt_of

  unfoldable pub list_accounts_from_resolver : Conn → Exec S (List Bytes)
  list_accounts_from_resolver nc =
      ask nc "failed to list accounts from resolver" (codes "$SYS.REQ.CLAIMS.LIST") []
        (listed_keys json)
