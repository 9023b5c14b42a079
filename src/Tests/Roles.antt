-- ===== src/Tests/Roles.antt =====
-- Runs of the use cases on roles.
use nestjs_microservice_boil.Base.{
  trim, underscores, codes, ℕ, Text, true, false, Option, none, some, List, [], ◌∷◌, ◌++◌, ◌≡◌,
  refl, map, if◌then◌else◌,
}
use nestjs_microservice_boil.Exec.{World}
use nestjs_microservice_boil.Exec.Clean.{FailsCleanly, Reads}
use nestjs_microservice_boil.Exception.{ok}
use nestjs_microservice_boil.Entity.{value, construct, to_object, undefined}
use nestjs_microservice_boil.Repository.{Repository}
use nestjs_microservice_boil.Permission.{PermissionEntity}
use nestjs_microservice_boil.Role.{
  RoleEntity, object, shape, find_name, add_permission, remove_permission_by_name,
}
use nestjs_microservice_boil.Role.Usecases.{
  create, delete, get_by_id, add_permissions, delete_permissions, PermissionsInput,
}
use nestjs_microservice_boil.Role.Changes.{removes}
use nestjs_microservice_boil.Role.Laws.{
  role_usecases-FailsCleanly, delete_permissions-ok, FailedWrite,
}
use nestjs_microservice_boil.Tests.World.{platform, cat_list, user_role, bare_role, fixed, start}

abbrev roles : Repository (Unit {0}) RoleEntity
roles = fixed (some user_role) []

abbrev bare_roles : Repository (Unit {0}) RoleEntity
bare_roles = fixed (some bare_role) []

abbrev permissions : Repository (Unit {0}) PermissionEntity
permissions = fixed none (cat_list ∷ [])

abbrev r1 : Text
r1 = codes "r1"

abbrev names : List Text
names = codes "cat:list" ∷ []

abbrev uuid : ℕ → Text
uuid n = codes "fresh"

abbrev input : PermissionsInput
input = record { id = some r1; permissions = some names }

abbrev stamped : RoleEntity → RoleEntity
stamped r = record r {
  stamps = record { created_at = value 7; updated_at = value 7; deleted_at = undefined };
}

abbrev added : World (Unit {0})
added = (add_permissions platform bare_roles permissions uuid 7 input (start tt)).1

construct_role : construct (shape platform) 7 (object user_role) ≡ ok (stamped user_role)
unfolding construct nestjs_microservice_boil.Role.parse nestjs_microservice_boil.Permission.parse_id
    nestjs_microservice_boil.Role.parse_permissions nestjs_microservice_boil.Permission.parse
    nestjs_microservice_boil.Base.underscores nestjs_microservice_boil.Base.trim
construct_role = refl

abbrev removed : World (Unit {0})
removed = (delete_permissions platform roles permissions 7 input (start tt)).1

remove_runs : delete_permissions platform roles permissions 7 input (start tt) ≡ (ok tt, removed)
unfolding delete_permissions nestjs_microservice_boil.Exec.validate_schema
    nestjs_microservice_boil.Permission.parse_id nestjs_microservice_boil.Exec.◌>>=◌ construct
    nestjs_microservice_boil.Role.parse nestjs_microservice_boil.Role.parse_permissions
    nestjs_microservice_boil.Permission.parse nestjs_microservice_boil.Base.underscores
    nestjs_microservice_boil.Base.trim
remove_runs = refl

delete_permissions-ok_example :
    (role : RoleEntity) × ((m : Text)
      → find_name m role.permissions
        ≡ (if removes (cat_list ∷ []) names m then none else find_name m (cat_list ∷ [])))
    × (removed ≡ record (start tt) { db = (roles.create (to_object (shape platform) role) tt).1 })
delete_permissions-ok_example =
    delete_permissions-ok platform roles permissions 7 r1 names (start tt) removed (cat_list ∷ [])
      user_role (stamped user_role) refl refl construct_role remove_runs

role_usecases-FailsCleanly_example :
    FailsCleanly
      (FailedWrite platform roles)
      (create platform roles (codes "fresh") 7 false (some (codes "USER")))
    × FailsCleanly (FailedWrite platform roles) (delete platform roles 7 (some r1))
    × FailsCleanly
        (FailedWrite platform roles)
        (add_permissions platform roles permissions uuid 7 input)
    × FailsCleanly
        (FailedWrite platform roles)
        (delete_permissions platform roles permissions 7 input)
    × Reads (get_by_id platform roles 7 (some r1))
role_usecases-FailsCleanly_example =
    role_usecases-FailsCleanly platform roles permissions uuid 7 false (some (codes "USER"))
      (some r1) input
