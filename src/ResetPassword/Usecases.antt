-- ===== src/ResetPassword/Usecases.antt =====
-- core/reset-password/use-cases/: the two use cases.
use nestjs_microservice_boil.Base.{
  codes, leb, length, Text, ◌===◌, not, ℕ, Option, none, some, ◌&&◌, ◌++◌,
}
use mathlib.Core.Option
use nestjs_microservice_boil.Exception.{
  ◌>>=◌ as bind, Result, ok, not_found, literal, bad_request, unauthorized,
}
use nestjs_microservice_boil.Entity.{construct, construct_nullable, to_object, check, required}
use nestjs_microservice_boil.Exec.{
  ◌>>=◌, ◌>>◌, Exec, pure, query, validate_schema, throw_if, or_throw, lift, command, perform, emit,
  Effect,
}
use nestjs_microservice_boil.Token.{Secrets, sign, verify}
use nestjs_microservice_boil.User
use nestjs_microservice_boil.User.{UserEntity, parse_email}
use nestjs_microservice_boil.Platform.{Platform}
use nestjs_microservice_boil.User.Password
use nestjs_microservice_boil.Repository.{
  Repository, Criteria, by_id, by_email, by_user_id, unfiltered,
}
use nestjs_microservice_boil.ResetPassword.{ResetPasswordEntity, empty, shape}

pub record ResetPasswordConfirmInput : Type 0 where
  pub token : Text
  pub password : Text
  pub confirm_password : Text

-- `{ id: token.id }`
abbrev pub by_optional_id : Option Text → Criteria
by_optional_id none = unfiltered
by_optional_id (some id) = by_id id

-- `sendEmail`
unfoldable pub reset_email : Secrets → UserEntity → Text → Effect
reset_email secret user token = emit (record {
  email = user.email;
  subject = "Reset password";
  template = "reque-reset-password";
  name = user.name;
  link = some (secret.host ++ codes "/api/v1/reset-password/" ++ token);
})

unfoldable pub changed_email : UserEntity → Effect
changed_email user = emit (record {
  email = user.email;
  subject = "Password has been changed successfully";
  template = "reset-password";
  name = user.name;
  link = none;
})

module _ {D : Type 0} (p : Platform) (secret : Secrets)
    (reset_password_repository : Repository D ResetPasswordEntity)
    (find_by_id_user_id : Text → D → Result (Option ResetPasswordEntity))
    (user_repository : Repository D UserEntity) where
  abbrev or_create :
      (uuid : Text) (now : ℕ) (user : UserEntity) → Option ResetPasswordEntity → Exec D (Unit {0})
  or_create uuid now user (some reset_password) =
      perform (reset_email secret user reset_password.token)
  or_create uuid now user none = do
    let hash =
        sign p secret (record { email = none; name = none; id = some user.id; user_id = none }) none
          none
    entity ← lift (
        construct (shape p) now
          (record empty { id = some uuid; token = some hash; user = some user }))
    command (reset_password_repository.create (to_object (shape p) entity))
    perform (reset_email secret user hash)

  -- `ResetPasswordSendEmailUsecase`
  send_email_execute : (uuid : Text) (now : ℕ) (email : Text) → Exec D (Unit {0})
  send_email_execute uuid now email = do
    found ← query (user_repository.find_one (by_email email))
    user ← or_throw found not_found "user not found"
    reset_password ← query (find_by_id_user_id user.id)
    or_create uuid now user reset_password

  unfoldable pub send_email : (uuid : Text) (now : ℕ) → Option Text → Exec D (Unit {0})
  unfolding send_email_execute
  send_email uuid now email =
      validate_schema (bind (required email) (parse_email p)) (send_email_execute uuid now)

  -- `ResetPasswordConfirmSchema`
  unfoldable pub confirm_schema :
      (token password confirm_password : Option Text) → Result ResetPasswordConfirmInput
  confirm_schema token password confirm_password = bind (required token) λ t.
      bind (required password) λ w. bind (check (leb 5 (length w) && leb (length w) 200)) λ _.
        bind (required confirm_password) λ c.
          bind (check (leb 5 (length c) && leb (length c) 200))
            λ _. ok (record { token = t; password = w; confirm_password = c })

  -- `ResetPasswordConfirmUsecase`. `passwordEntity` is an object of its own, made from the fields
  -- of `userEntity.password`.
  confirm_execute : (now : ℕ) → ResetPasswordConfirmInput → Exec D (Unit {0})
  confirm_execute now input = do
    throw_if (not (input.password === input.confirm_password)) bad_request
        (literal "passwords are different")
    token ← lift (verify p secret input.token none)
    found ← query (user_repository.find_one_with_relation (by_optional_id token.id))
    user ← or_throw found not_found "user not found"
    user_entity ← lift (construct (User.shape p) now (User.object user))
    stored ← query (find_by_id_user_id user_entity.id)
    reset_password_token ← or_throw stored unauthorized "token was expired"
    password_entity ← lift (
        construct_nullable (Password.shape p) now (Option.map Password.object user_entity.password))
    changed_password ← pure (Password.create_password p password_entity)
    command (user_repository.create (to_object (User.shape p) user_entity))
    perform (changed_email user_entity)
    command (reset_password_repository.remove (by_user_id user_entity.id))
    pure tt

  unfoldable pub confirm : ℕ → (token password confirm_password : Option Text) → Exec D (Unit {0})
  unfolding confirm_schema confirm_execute
  confirm now token password confirm_password =
      validate_schema (confirm_schema token password confirm_password) (confirm_execute now)
