-- ===== src/Token.antt =====
-- libs/token/service.ts: `TokenService` over `jsonwebtoken`, with the secrets that it reads.
use nestjs_microservice_boil.Base.{Text, inl, inr, Option, some}
use nestjs_microservice_boil.Exception.{Result, ok, err, api, literal, unauthorized}
use nestjs_microservice_boil.Platform.{Platform, Claims, Expiration}
use nestjs_microservice_boil.Entity.{or_else}

-- The fields of `ISecretsAdapter` that the core reads.
pub record Secrets : Type 0 where
  pub jwt_secret_key : Text
  pub jwt_refresh_secret_key : Text
  pub token_expiration : Expiration
  pub host : Text

module _ (p : Platform) (secret : Secrets) where
  unfoldable pub refresh_secret : Text
  refresh_secret = secret.jwt_refresh_secret_key

  -- `sign`, with the `expiresIn` of the options where there are options.
  unfoldable pub sign : Claims → Option Text → (options : Option (Option Expiration)) → Text
  sign body given options =
      p.jwt_sign body (or_else secret.jwt_secret_key given)
        (or_else (some secret.token_expiration) options)

  -- `verify`; the callback rejects with a 401 that has the library's message.
  unfoldable pub verify : Text → Option Text → Result Claims
  verify token given = elim (p.jwt_verify token (or_else secret.jwt_secret_key given)) [
    | inl message ↦ err (api unauthorized (literal message))
    | inr claims ↦ ok claims
  ]
