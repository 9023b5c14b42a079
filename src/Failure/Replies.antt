-- ===== src/Failure/Replies.antt =====
-- The interceptor and the filter, one after the other.
use nestjs_microservice_boil.Base.{◌≡◌, ◌≢◌, arith, true, false, none, some}
use nestjs_microservice_boil.Exception.{ExceptionClass}
use nestjs_microservice_boil.Exception
use nestjs_microservice_boil.Failure.{
  Failure, first_defined, get_status_code, intercept, get_status,
}

-- An exception of the program, as the two handlers see it.
abbrev failure_of : ExceptionClass → Failure
failure_of c = record {
  is_zod_error = false;
  is_http_exception = true;
  code = none;
  nested_code = none;
  data_code = none;
  response_status = none;
  status = some (Exception.status c);
}

-- An error that was intercepted is answered with the status that the interceptor chose, if that is
-- not 0. For an exception of the program the answer has the status of its class.
get_status-intercept :
    (error : Failure) (c : ExceptionClass)
    → get_status_code error ≢ 0
    → (get_status (intercept error) ≡ get_status_code error)
      × (get_status (intercept (failure_of c)) ≡ Exception.status c)
unfolding get_status intercept first_defined
get_status-intercept error c h = (ground (arith, h), ground arith)
