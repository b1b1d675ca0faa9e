-- ===== src/Lib.antt =====
-- NIS keeps the operators, accounts, scoped signing keys and users of NATS servers, and signs the
-- JWTs by which the servers trust them. This library models the core of its server.
--
-- A request passes the interceptor (Middleware), which reads a token off the header, asks the auth
-- service whose it is (Auth) and asks Casbin whether that role may call the procedure (Policy). The
-- handler then asks the permission service whether the entity is in the user's scope (Permission),
-- and calls a service. The services on operators (Operators), accounts (Accounts), scoped keys
-- (ScopedKeys) and users (Users) read and write through the repositories, sign with the JWT service
-- (Jwt) and seal seeds with the encryptor (Encryption). The service on clusters (Clusters) pushes the
-- signed accounts to the resolver of a NATS server through the client (Nats), with the credentials of
-- a system user. The export service (Transfer) moves an operator from one database to another.
--
-- The files, with the code that they model under internal/:
--   Entities, Entities/Roles      domain/entities
--   Repositories                  domain/repositories, as records of operations on a world
--   Storage                       infrastructure/persistence/sql/models.go: the column defaults of an
--                                 account that is inserted
--   Permission                    application/services/permission_service.go; Permission/Scope has
--                                 the scope relations, Permission/Access the checks,
--                                 Permission/Clusters those on clusters, Permission/Filters the
--                                 list filters
--   Middleware                    interfaces/grpc/middleware/auth.go: `wrap_call` is WrapUnary and
--                                 WrapStreamingHandler; Middleware/Procedure has the parsing,
--                                 Middleware/Gate who reaches a handler
--   Policy, Policy/Table          application/services/casbin_embed.go, casbin_model.conf and
--                                 casbin_policy.csv; Policy/Laws has what the rules allow
--   Jwt, Jwt/Claims               application/services/jwt_service.go, and the interface of
--                                 infrastructure/encryption/encryptor.go
--   Services, Services/Laws,      what the services share, the laws of the repositories, and the
--   Services/Updates              optional fields of the requests
--   ScopedKeys, ScopedKeys/Fresh, application/services/scoped_signing_key_service.go
--   ScopedKeys/Updates
--   Accounts, Accounts/Fresh,     application/services/account_service.go
--   Accounts/Create
--   Users, Users/Issued,          application/services/user_service.go
--   Users/Update, Users/Credentials
--   Operators, Operators/Created, application/services/operator_service.go: creation, the cascading
--   Operators/Cascade,            deletion, updates and the system account
--   Operators/Signed
--   Nats, Nats/Creds, Nats/Lines  infrastructure/nats/client.go; Nats/Creds reads the credentials
--                                 file of a user, Nats/Lines the resolver's older answers
--   Clusters                      application/services/cluster_service.go: the data and the parts
--                                 that only compute; Clusters/Manage has the stored clusters and
--                                 their credentials, Clusters/Resolve the resolver and the health
--                                 checks; Clusters/Credentials, Clusters/Report, Clusters/Push,
--                                 Clusters/Prune, Clusters/Sync and Clusters/Health have the
--                                 proofs
--   Encryption                    infrastructure/encryption/chacha_encryptor.go;
--                                 Encryption/RoundTrip, Encryption/Keys (rotation) and
--                                 Encryption/Setup have the proofs
--   Transfer, Transfer/Import     application/services/export_service.go, ExportOperator and
--                                 ImportOperator; Transfer/Secrets, Transfer/Complete,
--                                 Transfer/Extends, Transfer/RoundTrip and Transfer/Restored have
--                                 the proofs
--   Handlers, Handlers/Guards     interfaces/grpc/handlers/util.go and cluster_handler.go;
--                                 Handlers/Guards shows who gets past the checks
--   Auth, Auth/Scope, Auth/Scoped, application/services/auth_service.go
--   Auth/Login
--   Prelude, Exec, Text           names and lemmas, Go's errors and calls, Go's package strings
--   Tests                         an in-memory database and stand-ins for the libraries, on which
--                                 the theorems are applied
-- A function carries the name of its Go function in snake case. A long method is cut into a part
-- that checks and builds, which only reads, and a part that writes.
--
-- A method that writes is a function from a world to its result and the next world, so what was
-- written before an error stays written. An error is a value with the chain that `errors.Is` walks.
-- Random draws, key pairs and the clock are arguments. bcrypt, golang-jwt, uuid, nkeys, the NATS jwt
-- library, nats.go, chacha20poly1305, base64, encoding/json, Casbin and the database are parameters,
-- with the laws that a theorem needs as named hypotheses. There is no fuel: the loops of this code run
-- over finite lists and texts. The bounds of the listings are the code's: 1000 scoped keys of an
-- account, 1000 accounts in a sync, 10000 rows in the deletion of an operator.
--
-- Not modelled: the import of NSC archives (application/services/export_service.go and archive.go),
-- which reads files; the handlers of the other services, the queries of the SQL repositories, the
-- rendering of a server configuration in infrastructure/nats/config_generator.go, and logging,
-- metrics, configuration and the command line, which are I/O and glue. Calls of one service by two requests at a time are not interleaved.
pub mod Prelude
pub mod Exec
pub mod Entities
pub mod Repositories
pub mod Storage
pub mod Permission
pub mod Text
pub mod Middleware
pub mod Policy
pub mod Jwt
pub mod Services
pub mod ScopedKeys
pub mod Accounts
pub mod Users
pub mod Operators
pub mod Nats
pub mod Clusters
pub mod Encryption
pub mod Transfer
pub mod Handlers
pub mod Auth
pub mod Tests
