-- ===== src/Store/Transaction.antt =====
-- `runInTransaction` of infra/repository/postgres/repository.ts and infra/repository/mongo/repository.ts.
-- `D` is the state of the client and of the database together.
pub mod Laws
use nestjs_microservice_boil.Exception.{Result, ok}
use nestjs_microservice_boil.Exec.{Exec, ◌>>=◌, ◌>>◌, command, pure, throw}
use nestjs_microservice_boil.Store.{handle_database_error, try_catch, try_finally}

-- The calls of a query runner or a session. A query runner is created and connected to in one
-- step here; `commit`, `rollback` and `release` are `commitTransaction`, `rollbackTransaction` or
-- `abortTransaction`, and `release` or `endSession`.
pub record Runner (D : Type 0) : Type 0 where
  pub connect : D → Result (Unit {0}) × D
  pub start : D → Result (Unit {0}) × D
  pub commit : D → Result (Unit {0}) × D
  pub rollback : D → Result (Unit {0}) × D
  pub release : D → Result (Unit {0}) × D

module _ {D R : Type 0} (runner : Runner D) where
  -- the `try`
  unfoldable pub committed : Exec D R → Exec D R
  committed fn = do result ← fn; command runner.commit; pure result

  -- the `try` and the `catch`
  unfoldable pub guarded : Exec D R → Exec D R
  unfolding committed
  guarded fn =
      try_catch (committed fn)
        λ error. do command runner.rollback; throw (handle_database_error error)

  -- TypeORM: connecting and starting are outside the `try`.
  unfoldable pub run_in_transaction : Exec D R → Exec D R
  unfolding guarded
  run_in_transaction fn = do
    command runner.connect
    command runner.start
    try_finally (guarded fn) (command runner.release)

  -- Mongoose: `startTransaction` throws where it fails; `endSession` is not awaited, so a failure of
  -- it is lost.
  unfoldable pub run_in_session : Exec D R → Exec D R
  unfolding guarded
  run_in_session fn = do
    command runner.connect
    command runner.start
    try_finally (guarded fn) (command (λ d. (ok tt, (runner.release d).1)))
