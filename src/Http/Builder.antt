-- ===== src/Http/Builder.antt =====
-- infra/http/http-builder.ts: the request that is put together, and the two ways to send it. The
-- axios instance is a parameter, and so is the time that a call takes.
pub mod Laws
use nestjs_microservice_boil.Base.{
  codes, ℕ, Text, Bool, true, false, Option, none, some, List, [], ◌∷◌, put,
}
use nestjs_microservice_boil.Value.{Value}
use nestjs_microservice_boil.Entity.{or_else}
use nestjs_microservice_boil.Exception.{Result, ok, err, Exception, api, composed}
use nestjs_microservice_boil.Http.{convert_to_api_exception}

-- `requestConfig`
pub record RequestConfig : Type 0 where
  pub method : Text
  pub url : Text
  pub body_data : Option Value
  pub headers : List (Text × Text)
  pub axios_config : List (Text × Value)
  pub retries : ℕ

-- the constructor
abbrev pub initial : RequestConfig
initial = record {
  method = nestjs_microservice_boil.Base.codes "GET";
  url = [];
  body_data = none;
  headers = [];
  axios_config = [];
  retries = 0;
}

unfoldable pub method : Text → RequestConfig → RequestConfig
method m c = record c { method = m }

unfoldable pub url : Text → RequestConfig → RequestConfig
url u c = record c { url = u }

unfoldable pub body : Value → RequestConfig → RequestConfig
body data_value c = record c { body_data = some data_value }

-- `{ ...a, ...b }`
abbrev spread : {V : Type 0} → List (Text × V) → List (Text × V) → List (Text × V)
spread a [] = a
spread a ((key, value) ∷ b) = spread (put key value a) b

unfoldable pub headers : List (Text × Text) → RequestConfig → RequestConfig
headers more c = record c { headers = spread c.headers more }

unfoldable pub header : (key value : Text) → RequestConfig → RequestConfig
header key value c = record c { headers = put key value c.headers }

unfoldable pub config : List (Text × Value) → RequestConfig → RequestConfig
config more c = record c { axios_config = spread c.axios_config more }

unfoldable pub timeout : (ms : Value) → RequestConfig → RequestConfig
timeout ms c = record c {
  axios_config = put (nestjs_microservice_boil.Base.codes "timeout") ms c.axios_config;
}

unfoldable pub retry : ℕ → RequestConfig → RequestConfig
retry n c = record c { retries = n }

-- What axios is called with: the fields of the request, and the configuration over them.
pub record AxiosRequest : Type 0 where
  pub method : Text
  pub url : Text
  pub body_data : Option Value
  pub headers : List (Text × Text)
  pub overrides : List (Text × Value)

abbrev axios_request : RequestConfig → AxiosRequest
axios_request c = record {
  method = c.method;
  url = c.url;
  body_data = c.body_data;
  headers = c.headers;
  overrides = c.axios_config;
}

-- What axios answers: a response, or an error that may carry one.
pub record Response (A : Type 0) : Type 0 where
  pub content : A
  pub headers : List (Text × Text)
  pub status : ℕ

pub record AxiosError : Type 0 where
  pub message : Text
  pub response_status : Option ℕ
  pub response_message : Option Text
  pub response_headers : Option (List (Text × Text))

pub data Outcome (A : Type 0) : Type 0 where
  fulfilled : Response A → Outcome A
  rejected : AxiosError → Outcome A

-- `convertToApiException`
unfoldable pub api_exception : AxiosError → Exception
api_exception e =
    api (convert_to_api_exception e.response_status)
      (composed (or_else e.message e.response_message))

pub record HttpResponse (A : Type 0) : Type 0 where
  pub content : Option A
  pub error : Option Exception
  pub headers : List (Text × Text)
  pub status : ℕ
  pub success : Bool
  pub duration : ℕ

module _ {A : Type 0} (axios : AxiosRequest → Outcome A) where
  abbrev answered : Outcome A → Result A
  answered (fulfilled r) = ok r.content
  answered (rejected e) = err (api_exception e)

  unfoldable pub execute : RequestConfig → Result A
  unfolding api_exception
  execute c = answered (axios (axios_request c))

  abbrev reported : ℕ → Outcome A → HttpResponse A
  reported duration (fulfilled r) = record {
    content = some r.content;
    error = none;
    headers = r.headers;
    status = r.status;
    success = true;
    duration = duration;
  }
  reported duration (rejected e) = record {
    content = none;
    error = some (api_exception e);
    headers = or_else [] e.response_headers;
    status = or_else 500 e.response_status;
    success = false;
    duration = duration;
  }

  unfoldable pub safe_execute : (duration : ℕ) → RequestConfig → HttpResponse A
  unfolding api_exception
  safe_execute duration c = reported duration (axios (axios_request c))
