-- ===== src/User/Sessions.antt =====
-- core/user/use-cases/: user-login, user-refresh-token and user-logout.
use nestjs_microservice_boil.Base.{
  leb, length, Text, truthy, trim, ℕ, Bool, true, false, not, Option, none, some, List, [], ◌∷◌,
}
use nestjs_microservice_boil.Exception.{
  ◌>>=◌ as bind, Result, err, foreign, ok, bad_request, not_found, literal,
}
use nestjs_microservice_boil.Exec.{
  ◌>>=◌, ◌>>◌, Exec, command, lift, query, validate_schema, or_throw, perform, log_event, pure,
  throw_if,
}
use nestjs_microservice_boil.Token.{Secrets, sign, verify, refresh_secret}
use nestjs_microservice_boil.User.{UserEntity, parse_email, Platform, required, check}
use nestjs_microservice_boil.User.Password
use nestjs_microservice_boil.User.Password.{UserPasswordEntity, verify_password}
use nestjs_microservice_boil.Platform.{Claims, Expiration}
use nestjs_microservice_boil.Repository.{Repository, by_email, by_id}
use nestjs_microservice_boil.Entity.{construct}

pub record LoginInput : Type 0 where
  pub email : Text
  pub password : Text

pub record LoginOutput : Type 0 where
  pub access_token : Text
  pub refresh_token : Text

-- `user.password.password`, which fails where the password is missing
abbrev stored_password : Option UserPasswordEntity → Result Text
stored_password none = err (foreign "Cannot read properties of undefined (reading 'password')")
stored_password (some w) = ok w.password

-- The bodies of the two tokens of a session.
abbrev pub access_claims : UserEntity → Claims
access_claims user = record {
  email = some user.email;
  name = some user.name;
  id = some user.id;
  user_id = none;
}

abbrev pub refresh_claims : UserEntity → Claims
refresh_claims user = record { email = none; name = none; id = none; user_id = some user.id }

abbrev pub tokens_of : Platform → Secrets → UserEntity → LoginOutput
tokens_of p secret user = record {
  access_token = sign p secret (access_claims user) none none;
  refresh_token = sign p secret (refresh_claims user) (some (refresh_secret p secret)) none;
}

-- `userToken.userId`, as a condition and where it holds
abbrev given : Option Text → Option Text
given none = none
given (some s) = elim (truthy s) [ true ↦ some s | false ↦ none ]

abbrev is_nonempty : {A : Type 0} → List A → Bool
is_nonempty [] = false
is_nonempty (_ ∷ _) = true

module _ {D : Type 0} (p : Platform) (secret : Secrets)
    (user_repository : Repository D UserEntity) where
  -- `LoginSchema`
  unfoldable pub login_schema : (email password : Option Text) → Result LoginInput
  login_schema email password =
      bind (bind (required email) (parse_email p))
        λ e. bind (required password) λ w. ok (record { email = e; password = w })

  -- `LoginUsecase`
  login_execute : (uuid : Text) (now : ℕ) → LoginInput → Exec D LoginOutput
  login_execute uuid now input = do
    found ← query (user_repository.find_one_with_relation (by_email input.email))
    user ← or_throw found not_found "userNotFound"
    password_entity ← lift (
        construct (Password.shape p) now
          (record Password.empty { id = some uuid; password = some input.password }))
    stored ← lift (stored_password user.password)
    lift (verify_password stored (Password.create_password p password_entity))
    perform (log_event "user-login" "login" user.id user.id)
    pure (tokens_of p secret user)

  unfoldable pub login : Text → ℕ → (email password : Option Text) → Exec D LoginOutput
  unfolding login_schema login_execute
  login uuid now email password =
      validate_schema (login_schema email password) (login_execute uuid now)

  -- `RefreshTokenSchema`: `string().trim().min(1)`
  unfoldable pub refresh_schema : Option Text → Result Text
  refresh_schema token =
      bind (required token) λ t. bind (check (leb 1 (length (trim t)))) λ _. ok (trim t)

  -- `RefreshTokenUsecase`
  refresh_execute : (token : Text) → Exec D LoginOutput
  refresh_execute token = do
    user_token ← lift (verify p secret token (some (refresh_secret p secret)))
    user_id ← or_throw (given user_token.user_id) bad_request "incorrectToken"
    found ← query (user_repository.find_one (by_id user_id))
    user ← or_throw found not_found "userNotFound"
    throw_if (not (is_nonempty user.roles)) not_found (literal "roleNotFound")
    pure (tokens_of p secret user)

  unfoldable pub refresh : Option Text → Exec D LoginOutput
  unfolding refresh_schema refresh_execute
  refresh token = validate_schema (refresh_schema token) refresh_execute

-- `set(key, value, { PX })` of the cache, over the same database of the host
module _ {D : Type 0} (secret : Secrets)
    (set : (key value : Text) → (px : Expiration) → D → Result (Unit {0}) × D) where
  -- `LogoutSchema`: `string().trim().min(10)`
  unfoldable pub logout_schema : Option Text → Result Text
  logout_schema token =
      bind (required token) λ t. bind (check (leb 10 (length (trim t)))) λ _. ok (trim t)

  -- `LogoutUsecase`
  logout_execute : (actor token : Text) → Exec D (Unit {0})
  logout_execute actor token = do
    command (set token token secret.token_expiration)
    perform (log_event "user-logout" "logout" actor token)
    pure tt

  unfoldable pub logout : Text → Option Text → Exec D (Unit {0})
  unfolding logout_schema logout_execute
  logout actor token = validate_schema (logout_schema token) (logout_execute actor)
