-- ===== src/Failure.antt =====
-- middlewares/interceptors/exception-handler.interceptor.ts and
-- middlewares/filters/exception-handler.filter.ts: the status that a failure is answered with.
pub mod Replies
use nestjs_microservice_boil.Base.{
  ℕ, Text, Bool, true, false, Option, none, some, List, [], ◌∷◌, ◌===◌, ◌==◌, ◌||◌, codes,
  if◌then◌else◌,
}
use nestjs_microservice_boil.Entity.{or_else}

-- What the two handlers read of an error: its class, its `code`, the codes in the response that it
-- carries, and its own `status`.
pub record Failure : Type 0 where
  pub is_zod_error : Bool
  pub is_http_exception : Bool
  pub code : Option Text
  pub nested_code : Option ℕ
  pub data_code : Option ℕ
  pub response_status : Option ℕ
  pub status : Option ℕ

-- `ObjectUtil.firstDefined`
unfoldable pub first_defined : {A : Type 0} → List (Option A) → Option A
first_defined [] = none
first_defined (some a ∷ values) = some a
first_defined (none ∷ values) = first_defined values

-- `error?.code === text`
abbrev pub has_code : Option Text → Text → Bool
has_code none text = false
has_code (some code) text = code === text

-- `getStatusCode` of the interceptor
unfoldable pub get_status_code : Failure → ℕ
unfolding first_defined
get_status_code error =
    if error.is_zod_error
    then 400
    else if has_code error.code (codes "ECONNABORTED") || has_code error.code (codes "ECONNRESET")
    then 408
    else or_else 500 (
        first_defined
          (error.nested_code ∷ error.data_code ∷ error.response_status ∷ error.status ∷ []))

-- `error.status = this.getStatusCode(error)`
unfoldable pub intercept : Failure → Failure
unfolding get_status_code
intercept error = record error { status = some (get_status_code error) }

-- `exception['status'] || 500`
abbrev or_500 : Option ℕ → ℕ
or_500 none = 500
or_500 (some s) = if s == 0 then 500 else s

-- `getStatus` of the filter; `getStatus()` of an `HttpException` reads its field `status`.
unfoldable pub get_status : Failure → ℕ
get_status exception =
    if exception.is_zod_error
    then 400
    else if exception.is_http_exception
    then or_else 500 exception.status
    else or_500 exception.status
