-- ===== src/Exec.antt =====
-- How a use case runs: over the database and the list of the effects that it has had on the other
-- services, with exceptions. What was written before a throw stays written.
pub mod Clean
pub mod Chain
use nestjs_microservice_boil.Base.{
  ℕ, String, Text, Bool, true, false, Option, none, some, List, [], ◌∷◌, ◌++◌,
}
use nestjs_microservice_boil.Exception.{
  ExceptionClass, bad_request, Message, literal, issues, Exception, api, Result, ok, err,
}

-- `SendEmailInput` of infra/email, with the payload's `name` and `link`.
pub record Email : Type 0 where
  pub email : Text
  pub subject : String
  pub template : String
  pub name : Text
  pub link : Option Text

-- A call of the logger, of the event adapter and of the request's tracing; `finish_tracing` is the
-- attribute, the error status and the end of the request's span together.
pub data Effect : Type 0 where
  info : (message : String) → Effect
  emit : Email → Effect
  log_event : (event action : String) (actor entity : Text) → Effect
  finish_tracing : (status : ℕ) (message : String) → Effect

pub record World (D : Type 0) : Type 0 where
  pub db : D
  pub effects : List Effect

abbrev pub Exec : Type 0 → Type 0 → Type 0
Exec D A = World D → Result A × World D

module _ {D A : Type 0} where
  unfoldable pub pure : A → Exec D A
  pure a w = (ok a, w)

  unfoldable pub throw : Exception → Exec D A
  throw e w = (err e, w)

  unfoldable pub lift : Result A → Exec D A
  lift r w = (r, w)

  -- An awaited query leaves the database as it is; a command may change it.
  unfoldable pub query : (D → Result A) → Exec D A
  query f w = (f w.db, w)

  unfoldable pub command : (D → Result A × D) → Exec D A
  command f w = ((f w.db).0, record w { db = (f w.db).1 })

  -- `if (!x) throw new ...`
  unfoldable pub or_throw : Option A → ExceptionClass → String → Exec D A
  unfolding pure throw
  or_throw none c m = throw (api c (literal m))
  or_throw (some a) c m = pure a

unfoldable pub perform : {D : Type 0} → Effect → Exec D (Unit {0})
perform e w = (ok tt, record w { effects = w.effects ++ e ∷ [] })

unfoldable pub throw_if : {D : Type 0} → Bool → ExceptionClass → Message → Exec D (Unit {0})
unfolding pure throw
throw_if true c m = throw (api c m)
throw_if false c m = pure tt

-- The decorator of utils/decorators/validate-schema.decorator.ts, on a method whose first argument
-- has one schema: the method gets the parsed value, and any failure is one 400.
unfoldable pub validate_schema : {D I A : Type 0} → Result I → (I → Exec D A) → Exec D A
unfolding throw
validate_schema (ok input) method = method input
validate_schema (err e) method = throw (api bad_request issues)

-- Opening this opens every action above.
infixl 5 ◌>>=◌ ◌>>◌
unfoldable pub ◌>>=◌ : {D A B : Type 0} → Exec D A → (A → Exec D B) → Exec D B
unfolding pure throw lift query command or_throw perform throw_if validate_schema
◌>>=◌ m f w = let (r, w') = m w in elim r [ ok a ↦ f a w' | err e ↦ (err e, w') ]

abbrev pub ◌>>◌ : {D A B : Type 0} → Exec D A → Exec D B → Exec D B
m >> k = m >>= λ _. k
