-- ===== src/Http/Statuses.antt =====
-- The HTTP client and the exceptions of the program agree on statuses.
use nestjs_microservice_boil.Base.{ℕ, Option, none, ◌≡◌, arith, ◌⊎◌}
use nestjs_microservice_boil.Entity.{or_else}
use nestjs_microservice_boil.Exception.{status, create_exception_from_status, exception_map}
use nestjs_microservice_boil.Http.{convert_to_api_exception, class_of_status}

classes_agree : (s : ℕ) → class_of_status s ≡ create_exception_from_status s
unfolding class_of_status create_exception_from_status exception_map
classes_agree s = ground arith

-- A failed request is turned into the class that `createExceptionFromStatus` gives for the status
-- of its response, 500 where there is no response. That class has this status, or the table has no
-- class for it and the class is that of status 500.
convert_to_api_exception-status :
    (response_status : Option ℕ)
    → (convert_to_api_exception response_status
        ≡ create_exception_from_status (or_else 500 response_status))
      × ((status (convert_to_api_exception response_status) ≡ or_else 500 response_status)
          ⊎ ((exception_map (or_else 500 response_status) ≡ none)
              × (status (convert_to_api_exception response_status) ≡ 500)))
unfolding convert_to_api_exception create_exception_from_status exception_map
convert_to_api_exception-status response_status =
    (classes_agree (or_else 500 response_status), ground arith)
