-- ===== src/Http.antt =====
-- infra/http/http-builder.ts: the exception that a failed request is turned into.
pub mod Builder
pub mod Statuses
use nestjs_microservice_boil.Base.{ℕ, Option, none, some, ◌==◌, if◌then◌else◌}
use nestjs_microservice_boil.Entity.{or_else}
use nestjs_microservice_boil.Exception.{
  ExceptionClass, bad_request, unauthorized, forbidden, not_found, timeout, conflict,
  unprocessable_entity, internal_server,
}

-- the `switch`
unfoldable pub class_of_status : ℕ → ExceptionClass
class_of_status s =
    if s == 400
    then bad_request
    else if s == 401
    then unauthorized
    else if s == 403
    then forbidden
    else if s == 404
    then not_found
    else if s == 408
    then timeout
    else if s == 409
    then conflict
    else if s == 422
    then unprocessable_entity
    else internal_server

-- The class that `convertToApiException` instantiates, for an error whose response, if it has one,
-- has the given status.
unfoldable pub convert_to_api_exception : Option ℕ → ExceptionClass
unfolding class_of_status
convert_to_api_exception response_status = class_of_status (or_else 500 response_status)
