-- ===== src/Http/Builder/Laws.antt =====
-- The two ways to send a request agree, and a number of retries changes neither.
use nestjs_microservice_boil.Base.{ℕ, true, false, none, some, ◌≡◌, refl}
use nestjs_microservice_boil.Exception.{Result, ok, err}
use nestjs_microservice_boil.Http.Builder.{
  RequestConfig, AxiosRequest, Outcome, fulfilled, rejected, HttpResponse, execute, safe_execute,
  answered, reported, axios_request, retry,
}

-- A report tells of a result: the content of a success, or the error of a failure, and never both.
abbrev TellsOf : {A : Type 0} → HttpResponse A → Result A → Type 0
TellsOf r (ok a) = (r.content ≡ some a) × (r.error ≡ none) × (r.success ≡ true)
TellsOf r (err e) = (r.content ≡ none) × (r.error ≡ some e) × (r.success ≡ false)

module _ {A : Type 0} (axios : AxiosRequest → Outcome A) where
  reported-TellsOf :
      (duration : ℕ) (o : Outcome A) → TellsOf (reported axios duration o) (answered axios o)
  reported-TellsOf duration (fulfilled r) = (refl, refl, refl)
  reported-TellsOf duration (rejected e) = (refl, refl, refl)

  -- `safeExecute` never throws, and what it reports is what `execute` returns or throws for the same
  -- request. The number given to `retry` changes neither of the two.
  safe_execute-execute :
      (duration n : ℕ) (c : RequestConfig)
      → TellsOf (safe_execute axios duration c) (execute axios c)
        × (execute axios (retry n c) ≡ execute axios c)
        × (safe_execute axios duration (retry n c) ≡ safe_execute axios duration c)
  unfolding safe_execute execute retry
  safe_execute-execute duration n c =
      (reported-TellsOf duration (axios (axios_request c)), refl, refl)
