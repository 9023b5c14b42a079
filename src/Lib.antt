-- ===== src/Lib.antt =====
-- A model of the core of this service (a NestJS boilerplate with users, roles and permissions) and
-- the theorems that state what it guarantees. Paths are from the root of the repository.
--
-- The program. A request passes the authorization guard (src/middlewares/guards), which reads the
-- token, the cache of tokens that were logged out, and the user's permissions. A controller then
-- parses query parameters (src/utils/sort.ts, search.ts, pagination.ts) and calls a use case
-- (src/core/*/use-cases). A use case runs behind the schema of its input, reads entities from a
-- repository, builds them (src/core/*/entity over src/utils/entity.ts), and writes, logs, mails and
-- traces. A repository (src/modules/*/repository.ts) extends one of the two in
-- src/infra/repository, over TypeORM or Mongoose, and its list method is decorated
-- (src/utils/decorators).
--
-- The files.
--   Base            names of the libraries; strings as lists of UTF-16 code units, with `split`,
--                   `trim` and `===`; lists measured by native numbers; objects as lists of entries
--   Number          JavaScript numbers, up to what comparisons with integers see
--   Value           JavaScript values, as a filter of the database layer holds them
--   Exception       src/utils/exception.ts, and results that are a value or an exception
--   Exec            how a use case runs: over the database and the list of its effects; the
--                   decorator `ValidateSchema`; rules for failing cleanly; inversion of chains
--   Platform        the runtime and the libraries: formats, case mappings, sha256, JSON web tokens
--   Repository      the interface of src/infra/repository/adapter.ts, as far as it is called
--   Entity          `BaseEntity` of src/utils/entity.ts, for any entity class given by its `Shape`;
--                   `Entity.Events` is its list of domain events
--   Token           src/libs/token/service.ts
--   Permission, Role, User, ResetPassword, Cat, Bird
--                   src/core/*: the entity with its schema, and the use cases. A class
--                   `XCreateUsecase` is `create_execute`, and `create` behind its schema; so for
--                   the other operations. `User.Password` is user-password.ts, `User.Sessions` is
--                   login, refresh-token and logout.
--   Guard           src/middlewares/guards/authorization.guard.ts
--   Failure         the statuses in src/middlewares/interceptors/exception-handler.interceptor.ts
--                   and src/middlewares/filters/exception-handler.filter.ts
--   Http            src/infra/http/http-builder.ts, the conversion of a failure to an exception;
--                   `Http.Builder` is the builder and its two ways to send a request
--   Identifier      src/utils/id-generator.ts, `uuid` and `nanoid`
--   Pagination      src/utils/pagination.ts
--   Query           src/utils/sort.ts and src/utils/search.ts
--   Store           src/infra/repository: `Filter` is the decorator of the Mongo repository
--                   (src/utils/decorators/filter/mongoose/convert-mongoose-filter-to-query.decorator.ts),
--                   `Transaction` is `runInTransaction`, `Commands` the searches by commands,
--                   `Document` what the Mongo repository is given, `Mongo` and `Postgres` the two
--                   repositories, and their `Port` modules make them the interface that the use
--                   cases call
--   Listing         the decorators of a list method, in src/utils/decorators/sort and
--                   src/utils/decorators/filter/typeorm; `Listing.Usecases` is the list use cases
--                   over src/modules/*/repository.ts, `Listing.Mongoose` and `Listing.Cats` are
--                   the list of cats, with src/utils/mongoose.ts
--   Breaker         src/utils/decorators/circuit-breaker.decorator.ts
--   Collection      src/utils/collection.ts
--   Tests           a small host, and the theorems at concrete inputs
--
-- State. A use case is a function from a `World`, the database of the host and the effects so far,
-- to a result and a `World`. The guard's state is the request that it changes, and that of the
-- circuit breaker is its three maps. What a write did before a later throw stays done. The time of a
-- call and the identifiers that are drawn in it are arguments. Objects that the program shares are
-- modelled as values: where it changes a copy, the model changes the copy.
--
-- Libraries are parameters: TypeORM's repository and Mongoose's model, the cache, the breaker,
-- axios, zod's checks of a format, hashing and tokens. What a theorem relies on is a record of laws
-- (`CaseLaws`, `JwtLaws`, `TokenLaws`, `CacheLaws`, `RunnerLaws`, `TableLaws`, `ReadLaws`,
-- `RemoveLaws`), and the tests give each a concrete instance. `UpdateLaws` is what the use cases on
-- birds rely on, and `Store.Postgres.Port.Laws` fills it. The expiry of tokens is in `TokenLaws`, over
-- a runtime for each time, and that of the cache's keys in `CacheLaws`, over the time of each call.
-- Loops are recursion on the list or the object that they run over; no fuel is used.
--
-- Not modelled: the roles of a user being `undefined` inside the array, the parameters and stacks of
-- an exception, the options that a caller of a repository may give, the names of tables and columns,
-- ulid and objectid, the retries of src/utils/axios.ts, the metrics of circuit breakers, inherited
-- members of objects other than in `groupBy` and in a search, and the adapters and modules that only
-- set libraries up.
pub mod Base
pub mod Bird
pub mod Breaker
pub mod Cat
pub mod Collection
pub mod Entity
pub mod Exception
pub mod Exec
pub mod Failure
pub mod Guard
pub mod Http
pub mod Identifier
pub mod Listing
pub mod Number
pub mod Pagination
pub mod Permission
pub mod Platform
pub mod Query
pub mod Repository
pub mod ResetPassword
pub mod Role
pub mod Store
pub mod Tests
pub mod Token
pub mod User
pub mod Value
