-- ===== src/Exception.antt =====
-- src/utils/exception.ts: the exception classes, their statuses, and the value that a call of the
-- program returns or throws.
use nestjs_microservice_boil.Base.{
  ◌≡◌, refl, arith, ℕ, String, Text, List, Option, none, some, ◌==◌, if◌then◌else◌,
}

-- The classes that extend `BaseException`; `api_database` is that of infra/repository/util.ts.
pub data ExceptionClass : Type 0 where
  internal_server not_found conflict unprocessable_entity : ExceptionClass
  unauthorized bad_request forbidden timeout api_database : ExceptionClass

-- The static `STATUS` of each class.
abbrev pub status : ExceptionClass → ℕ
status internal_server = 500
status not_found = 404
status conflict = 409
status unprocessable_entity = 422
status unauthorized = 401
status bad_request = 400
status forbidden = 403
status timeout = 408
status api_database = 500

-- `HTTP_STATUS_EXCEPTION_MAP`; a later key of a literal replaces an earlier equal one, and the
-- eight keys are distinct.
unfoldable pub exception_map : ℕ → Option ExceptionClass
exception_map s =
    if s == 400
    then some bad_request
    else if s == 401
    then some unauthorized
    else if s == 403
    then some forbidden
    else if s == 404
    then some not_found
    else if s == 408
    then some timeout
    else if s == 409
    then some conflict
    else if s == 422
    then some unprocessable_entity
    else if s == 500
    then some internal_server
    else none

-- The class that `createExceptionFromStatus` instantiates.
abbrev or_internal : Option ExceptionClass → ExceptionClass
or_internal none = internal_server
or_internal (some c) = c

unfoldable pub create_exception_from_status : ℕ → ExceptionClass
unfolding exception_map
create_exception_from_status s = or_internal (exception_map s)

-- A message: a literal of the source, a literal prefix and names joined by a separator, or a text
-- that was put together.
pub data Message : Type 0 where
  literal : String → Message
  listing : (prefix separator : String) (names : List Text) → Message
  issues : Message
  composed : Text → Message

-- What is thrown: an exception of the program, a `ZodError` (its issues are zod's and are left
-- out), or an error of a library or of the runtime.
pub data Exception : Type 0 where
  api : ExceptionClass → Message → Exception
  zod_error : Exception
  foreign : String → Exception

pub data Result {ℓ} (A : Type ℓ) : Type ℓ where
  ok : A → Result A
  err : Exception → Result A

-- `safeParse(...).data`
abbrev pub data_of {ℓ} : {A : Type ℓ} → Result A → Option A
data_of (ok a) = some a
data_of (err _) = none

infixl 5 ◌>>=◌ ◌>>◌
abbrev pub ◌>>=◌ {ℓ κ} : {T : Type ℓ} {U : Type κ} → Result T → (T → Result U) → Result U
err thrown >>= f = err thrown
ok value >>= next = next value

abbrev pub ◌>>◌ {ℓ κ} : {A : Type ℓ} {B : Type κ} → Result A → Result B → Result B
m >> k = m >>= λ _. k

-- Inversion of a chain that returned.
pub bind-eq-ok :
    {T U : Type 0} (first : Result T) (next : T → Result U) {u : U}
    → (first >>= next) ≡ ok u
    → (t : T) × (first ≡ ok t) × (next t ≡ ok u)
bind-eq-ok (ok t) next h = (t, refl, h)
bind-eq-ok (err e) next h = absurd (ground arith)
