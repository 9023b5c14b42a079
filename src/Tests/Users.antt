-- ===== src/Tests/Users.antt =====
-- Runs of the use cases on users.
use nestjs_microservice_boil.Base.{
  ◌===◌, trim, underscores, codes, ℕ, Text, true, false, Option, none, some, List, [], ◌∷◌, ◌++◌,
  ◌≡◌, ◌≤◌, refl, length,
}
use nestjs_microservice_boil.Exec.{World, info, emit, log_event}
use nestjs_microservice_boil.Exec.Clean.{FailsCleanly, Reads}
use nestjs_microservice_boil.Exception.{ok}
use nestjs_microservice_boil.Repository.{Repository, CreatedModel, by_email}
use nestjs_microservice_boil.User.{UserEntity}
use nestjs_microservice_boil.User.Password.{UserPasswordEntity}
use nestjs_microservice_boil.Role.{RoleEntity}
use nestjs_microservice_boil.User.Usecases.{
  create, delete, change_password, get_by_id, UserCreateObject,
}
use nestjs_microservice_boil.User.Written.{IsKept}
use nestjs_microservice_boil.User.Laws.{
  create-welcome, change_password-ok, change_password_ignores_new, user_usecases-FailsCleanly,
  welcome, FailedWrite, Saved,
}
use nestjs_microservice_boil.Tests.World.{u1, platform, ann, user_role, fixed, start}

abbrev users : Repository (Unit {0}) UserEntity
users = fixed (some ann) []

abbrev no_users : Repository (Unit {0}) UserEntity
no_users = fixed none []

abbrev roles : Repository (Unit {0}) RoleEntity
roles = fixed none (user_role ∷ [])

abbrev object : UserCreateObject
object = record {
  email = some (codes "a@b");
  name = some (codes "Ann");
  password = some (codes "secret");
  roles = some (codes "USER" ∷ []);
}

abbrev created : World (Unit {0})
created = (create platform no_users roles (codes "me") u1 (codes "w1") 7 object (start tt)).1

abbrev model : CreatedModel
model = record { created = true; id = codes "x1" }

create_runs :
    create platform no_users roles (codes "me") u1 (codes "w1") 7 object (start tt)
    ≡ (ok model, created)
unfolding create nestjs_microservice_boil.Exec.validate_schema
    nestjs_microservice_boil.User.parse_email nestjs_microservice_boil.Base.◌===◌
    nestjs_microservice_boil.Exec.◌>>=◌ nestjs_microservice_boil.Entity.construct
    nestjs_microservice_boil.User.parse nestjs_microservice_boil.User.parse_roles
    nestjs_microservice_boil.Role.parse nestjs_microservice_boil.Permission.parse_id
    nestjs_microservice_boil.Role.parse_permissions nestjs_microservice_boil.Permission.parse
    nestjs_microservice_boil.Base.underscores nestjs_microservice_boil.Base.trim
    nestjs_microservice_boil.User.parse_password nestjs_microservice_boil.User.Password.parse
create_runs = refl

user_role-IsKept : IsKept platform user_role
unfolding nestjs_microservice_boil.Role.parse nestjs_microservice_boil.Role.parse_permissions
    nestjs_microservice_boil.Permission.parse_id nestjs_microservice_boil.Permission.parse
    nestjs_microservice_boil.Base.underscores nestjs_microservice_boil.Base.trim
user_role-IsKept = refl

create-welcome_example :
    (length (codes "USER" ∷ []) ≤ length (user_role ∷ []))
    × (no_users.find_one (by_email (codes "a@b")) tt ≡ ok none)
    × Saved platform no_users u1
        (codes "w1")
        (codes "a@b")
        (codes "Ann")
        (codes "secret")
        (user_role ∷ [])
        model
        tt
        created.db
    × (created.effects
        ≡ []
          ++ info "user created successfully"
            ∷ emit (welcome (codes "a@b") (codes "Ann"))
            ∷ log_event "user-created" "created" (codes "me") u1
            ∷ [])
create-welcome_example =
    create-welcome platform no_users roles (codes "me") u1 (codes "w1") 7 (codes "a@b")
      (codes "Ann") (codes "secret") (codes "USER" ∷ []) (user_role ∷ []) model (start tt) created
      refl (user_role-IsKept, tt) create_runs

abbrev changed : World (Unit {0})
changed =
    (change_password platform users 7 (some u1) (some (codes "secret")) (some (codes "new"))
      (some (codes "new")) (start tt)).1

change_runs :
    change_password platform users 7
      (some u1)
      (some (codes "secret"))
      (some (codes "new"))
      (some (codes "new"))
      (start tt)
    ≡ (ok tt, changed)
unfolding change_password nestjs_microservice_boil.Exec.validate_schema
    nestjs_microservice_boil.User.parse_id nestjs_microservice_boil.Exec.◌>>=◌
    nestjs_microservice_boil.Entity.construct_nullable nestjs_microservice_boil.User.Password.parse
    nestjs_microservice_boil.User.Password.verify_password nestjs_microservice_boil.Base.◌===◌
change_runs = refl

change_password-ok_example :
    (stored : UserPasswordEntity) × (ann.password ≡ some stored)
    × (stored.password ≡ platform.hash (codes "secret"))
    × (codes "new" ≡ codes "new")
    × (changed ≡ record (start tt) { db = (users.create (some ann) tt).1 })
change_password-ok_example =
    change_password-ok platform users 7 u1 (codes "secret") (codes "new") (codes "new") ann
      (start tt) changed refl change_runs

change_password_ignores_new_example :
    change_password platform users 7
      (some u1)
      (some (codes "secret"))
      (some (codes "new"))
      (some (codes "new"))
      (start tt)
    ≡ change_password platform users 7
        (some u1)
        (some (codes "secret"))
        (some (codes "old"))
        (some (codes "old"))
        (start tt)
change_password_ignores_new_example =
    change_password_ignores_new platform users 7 (some u1) (some (codes "secret")) (codes "new")
      (codes "old") (start tt)

user_usecases-FailsCleanly_example :
    FailsCleanly
      (FailedWrite platform users roles)
      (create platform users roles (codes "me") u1 (codes "w1") 7 object)
    × FailsCleanly
        (FailedWrite platform users roles)
        (delete platform users (codes "me") 7 (some u1))
    × FailsCleanly (FailedWrite platform users roles) (
        change_password platform users 7
          (some u1)
          (some (codes "secret"))
          (some (codes "new"))
          none)
    × Reads (get_by_id platform users 7 (some u1))
user_usecases-FailsCleanly_example =
    user_usecases-FailsCleanly platform users roles (codes "me") u1 (codes "w1") 7 object (some u1)
      (some (codes "secret")) (some (codes "new")) none
