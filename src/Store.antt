-- ===== src/Store.antt =====
-- infra/repository/util.ts: the error that the database layer throws for any other.
pub mod Commands
pub mod Document
pub mod Filter
pub mod Models
pub mod Mongo
pub mod Page
pub mod Postgres
pub mod Transaction
use nestjs_microservice_boil.Base.{Bool, true, false}
use nestjs_microservice_boil.Exception.{
  Exception, api, api_database, foreign, zod_error, literal, issues, Result, ok, err,
}
use nestjs_microservice_boil.Exec.{Exec}

-- `handleDatabaseError`: the class is `ApiDatabaseException` whatever the error was; the message is
-- that of the error.
unfoldable pub handle_database_error : Exception → Exception
handle_database_error (api c m) = api api_database m
handle_database_error (foreign s) = api api_database (literal s)
handle_database_error zod_error = api api_database issues

module _ {D A : Type 0} where
  -- `try { ... } catch (error) { ... }`
  unfoldable pub try_catch : Exec D A → (Exception → Exec D A) → Exec D A
  try_catch m handler w = let (r, w') = m w in elim r [ ok a ↦ (ok a, w') | err e ↦ handler e w' ]

  -- `try { ... } finally { ... }`: what the last block throws replaces what was thrown before.
  unfoldable pub try_finally : Exec D A → Exec D (Unit {0}) → Exec D A
  try_finally m last w =
      let (r, w') = m w in
      let (s, w'') = last w' in elim s [ ok _ ↦ (r, w'') | err e ↦ (err e, w'') ]
