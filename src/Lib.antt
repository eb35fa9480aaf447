-- ===== src/Lib.antt =====
-- The Go Notes API: an HTTP service for notes with accounts, refresh tokens, roles and idempotent
-- requests over MySQL, with limits in Redis. This library models the code under internal/ and cmd/
-- that decides what the service stores and answers, from the configuration and the router down to
-- the statements of SQL, and proves what makes it correct.
--
-- The parts, and where they are:
--   Schema              migrations/: the tables, a record for a row and a list for a table
--   Sql                 the calls of database/sql: a statement is a function of the tables, which the
--                       connection may fail; BeginTx, Commit and Rollback
--   Redis, Net          the calls of go-redis and of the package net; internal/redisx/redisx.go (options)
--   Brute, Jti          internal/security/brute.go and internal/jti/store.go, on Redis
--   Jwt, Jwt/Keys       internal/jwtauth (Load, loadFromEnv, Secret) and the calls of golang-jwt
--   Repos/Notes         internal/repos/notes.go (ListFiltered is list_filtered, Create is create, …)
--   Repos/RefreshTokens internal/repos/refresh_tokens.go (UseAndRotate is use_and_rotate, Use is
--                       use_token, …)
--   Repos/Idempotency, Repos/IdempotencyGeneric
--                       internal/repos/idempotency.go and idempotency_generic.go (Claim, Complete)
--   Repos/Users, Repos/Roles, Repos/Audit, Repos/Limiters
--                       internal/repos/users.go, roles.go, audit.go and limiters.go
--   Http, Errors        the requests and responses of net/http; internal/errors/errors.go (Write)
--   Handlers/Notes      internal/handlers/notes.go, on the repositories of notes and keys
--   Handlers/Auth       internal/handlers/auth.go, on the repositories of accounts, roles and refresh
--                       tokens, the attempt counter and the keys. Login is the limits, then sign_in.
--   Handlers/Admin      internal/handlers/admin_users.go, admin_roles.go, admin_audit.go, admin_jti.go
--   World               the state that handlers share: a database, a Redis server, and the observations
--                       of the metrics with the records of the log
--   Middleware          internal/middleware/auth.go and roles.go, which wrap a handler
--   Middleware/Headers, Allow, Audit, RedisLimit, Limiter
--                       the other wrappers: security.go and requestid.go, allowlist.go, audit.go,
--                       rlredis.go, ratelimit.go
--   Middleware/Metrics, Logger
--                       internal/metrics/metrics.go (MW is observe) and internal/middleware/logger.go
--   Routes              what router of internal/server/server.go registers with chi, a constructor for
--                       each route, and Routes of internal/handlers/notes.go
--   Config              internal/config/config.go: Load over an environment; a panic is an error
--   Router              internal/server/server.go: `handle` for the handler of a route with the
--                       middleware of its group, `serve` for the whole server, and `serve_all` for
--                       requests one after another;
--                       internal/handlers/health.go and internal/openapi/server.go
--   Connection          internal/db/db.go (OpenAndMigrate) over the answers of the driver
--   Commands/Api        cmd/api/main.go, and New of internal/server/server.go
--   Commands/SeedAdmin, Commands/Keygen
--                       cmd/seed-admin/main.go and cmd/jwtkeygen/main.go
--   Repos/Frames        the tables that each operation of the repositories leaves alone
--   Repos/Closed        the interface between the repositories and the server: a property of the tables
--                       that every operation keeps. Handlers/*/Keeping and Router/Keeping carry such a
--                       property through the handlers and the middleware, and Router/Runs through
--                       `serve_all`; Router/Invariant, Isolation, Deletion, Lasting, Sessions and
--                       Escalation are its uses.
--   Repos/Steps         the operations of the repositories as a step relation on the tables, `Step`, and
--                       its paths, `Later`; Router/Invariant says that the server follows it
--   Repos/Sound         what holds of the tables whatever operations come in whatever order
--   Base                results, lists as tables, 64-bit integers, text, permutations; Base/Text/Numbers
--                       on printed numbers, Base/Text/Parts on lists in a text
--   Fixtures            small concrete data, on which each module of tests runs its component
--
-- A request goes through `serve`: its id, the address of RealIP, the headers, the limit of the body
-- and the counter in Redis, then the metrics, the log and the audit log around `dispatch`, which
-- calls the handler of the route that chi finds among `routes`. State is passed explicitly: a call
-- is a function of the database (and of a Redis server, where it needs one) into its answer and the
-- new state. `fails` says of each statement to come whether the connection fails it, and `kept`
-- whether the server has carried out a failed one all the same, also a COMMIT; a theorem that does
-- not restrict them holds however statements fail. What happens between two calls is a relation
-- `Later` of any number of steps, each an operation of the component or a step that leaves its
-- table alone. A transaction is one step, since it locks the row that it is about. In `serve_all` a
-- request is served before the next one begins; requests that overlap are in the relations `Later`
-- only, of which Repos/Steps has the one with all operations. It lets a role be given or taken at
-- any time, since the check of the role is an earlier statement. Times are seconds, and `now` is
-- the time of a call. An AUTO_INCREMENT that a failed statement has used up is not counted; a text
-- that is too long for its column counts as a statement that fails; only for the audit log, which
-- takes texts as clients send them, are the lengths of the columns written out.
--
-- Integers are the 64-bit ones of Go, with their wrap-around (Base/Int). The loops of the code run
-- over lists; the only fuel is that of `digits` in Base/Text, twenty rounds for the digits of a
-- number, and Base/Text/Numbers shows that they are enough for 64 bits: ParseInt reads the number
-- back.
--
-- Parameters, since their code is not in the repository: the collation, LIKE and the order of ORDER
-- BY of MySQL (record Mysql: each statement may order ties otherwise, and an order that ends by the
-- id has none), Redis, golang-jwt (record Jwt, with IsVerified for what Parse promises), the
-- package net (record Net), the token bucket of golang.org/x/time/rate (record Bucket),
-- encoding/json and csv, the hashes, bcrypt and the validator (records Codec, AuthCodec and
-- AdminCodec), time.ParseDuration and strconv.ParseFloat, database/sql and golang-migrate at the
-- start (record Driver, with what Up makes of the tables), the matching of paths and RealIP of chi
-- (record Site), random bytes, and, for Login, the answer of the email limiter. What is assumed of
-- Redis is named where it is used: IsCounter for INCR and IsExpiring for SETEX.
--
-- Not modelled: the set-up of logs and traces, which the program only writes to, the registry of the
-- metrics and the times of statements, and RecoverJSON, since no handler here panics; the answers of
-- chi to requests without a route; the fields of HTTPServer, which are for net/http.
pub mod Base
pub mod Schema
pub mod Sql
pub mod Redis
pub mod Net
pub mod World
pub mod Brute
pub mod Config
pub mod Jti
pub mod Jwt
pub mod Repos
pub mod Http
pub mod Errors
pub mod Fixtures
pub mod Handlers
pub mod Middleware
pub mod Routes
pub mod Router
pub mod Connection
pub mod Commands
