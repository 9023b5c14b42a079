-- ===== src/Tests/Resets.antt =====
-- Runs of the use cases on resets of passwords.
use nestjs_microservice_boil.Base.{
  ◌===◌, underscores, trim, codes, ℕ, Text, true, false, Option, none, some, List, [], ◌∷◌, ◌++◌,
  ◌≡◌, ◌≢◌, ◌⊎◌, refl,
}
use nestjs_microservice_boil.Exec.{World}
use nestjs_microservice_boil.Exception.{ok, Result}
use nestjs_microservice_boil.Entity.{construct, to_object, value, no_stamps, undefined}
use nestjs_microservice_boil.Repository.{Repository}
use nestjs_microservice_boil.Token.{verify}
use nestjs_microservice_boil.User
use nestjs_microservice_boil.User.{UserEntity}
use nestjs_microservice_boil.User.SessionLaws.{JwtLaws}
use nestjs_microservice_boil.ResetPassword.{ResetPasswordEntity}
use nestjs_microservice_boil.ResetPassword.Usecases.{confirm, send_email, reset_email}
use nestjs_microservice_boil.ResetPassword.Laws.{
  confirm_ignores_password, send_email-ok, reset_claims,
}
use nestjs_microservice_boil.Tests.World.{u1, platform, secret, ann, fixed, start}

abbrev users : Repository (Unit {0}) UserEntity
users = fixed (some ann) []

abbrev resets : Repository (Unit {0}) ResetPasswordEntity
resets = fixed none []

abbrev none_stored : Text → Unit {0} → Result (Option ResetPasswordEntity)
none_stored id d = ok none

abbrev reset : ResetPasswordEntity
reset = record { id = codes "x1"; token = codes "t"; user = none; stamps = no_stamps }

abbrev one_stored : Text → Unit {0} → Result (Option ResetPasswordEntity)
one_stored id d = ok (some reset)

jwt_laws : JwtLaws platform (reset_claims u1) secret.jwt_secret_key secret.token_expiration
unfolding trim nestjs_microservice_boil.Base.◌===◌
jwt_laws = record { verify_sign = refl; trim-sign = refl; nonempty = refl }

abbrev sent : World (Unit {0})
sent =
    (send_email platform secret resets none_stored users (codes "x1") 7 (some (codes "a@b"))
      (start tt)).1

send_runs :
    send_email platform secret resets none_stored users
      (codes "x1")
      7
      (some (codes "a@b"))
      (start tt)
    ≡ (ok tt, sent)
unfolding send_email nestjs_microservice_boil.Exec.◌>>=◌ nestjs_microservice_boil.User.parse_email
    nestjs_microservice_boil.Entity.construct nestjs_microservice_boil.ResetPassword.parse
    nestjs_microservice_boil.ResetPassword.parse_user nestjs_microservice_boil.User.parse
    nestjs_microservice_boil.User.parse_roles nestjs_microservice_boil.User.parse_password
    nestjs_microservice_boil.User.Password.parse nestjs_microservice_boil.Role.parse
    nestjs_microservice_boil.Role.parse_permissions nestjs_microservice_boil.Permission.parse
    nestjs_microservice_boil.Base.trim nestjs_microservice_boil.Base.underscores
    nestjs_microservice_boil.Base.◌===◌ nestjs_microservice_boil.Token.sign
    nestjs_microservice_boil.Entity.to_object
send_runs = refl

send_email-ok_example :
    (token : Text) × (sent.effects ≡ [] ++ reset_email secret ann token ∷ [])
    × (((r : ResetPasswordEntity) × (none_stored u1 tt ≡ ok (some r))
          × (token ≡ r.token)
          × (sent.db ≡ tt))
        ⊎ ((none_stored u1 tt ≡ ok none)
            × (verify platform secret token none ≡ ok (reset_claims u1))))
send_email-ok_example =
    send_email-ok platform secret resets none_stored users (codes "x1") (codes "a@b") 7 ann
      (start tt) sent jwt_laws refl send_runs

abbrev token : Text
token = codes "token-of-access"

abbrev new : Text
new = codes "new-password"

abbrev confirmed : World (Unit {0})
confirmed =
    (confirm platform secret resets one_stored users 7 (some token) (some new) (some new)
      (start tt)).1

confirm_ignores_password_example :
    confirm platform secret resets one_stored users 7 (some token) (some new) (some new) (start tt)
    ≡ confirm platform secret resets one_stored users 7
        (some token)
        (some (codes "other"))
        (some (codes "other"))
        (start tt)
confirm_ignores_password_example =
    confirm_ignores_password platform secret resets one_stored users 7 (some token) new
      (codes "other") (start tt) refl refl
