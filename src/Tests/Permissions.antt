-- ===== src/Tests/Permissions.antt =====
-- Runs of the use cases on permissions.
use nestjs_microservice_boil.Base.{
  trim, underscores, codes, ℕ, Text, true, Option, none, some, List, [], ◌∷◌, ◌++◌, ◌≡◌, ◌⊎◌, refl,
  includes,
}
use nestjs_microservice_boil.Exec.{World, info}
use nestjs_microservice_boil.Exec.Clean.{FailsCleanly, Reads}
use nestjs_microservice_boil.Exception.{ok}
use nestjs_microservice_boil.Entity.{value, construct, to_object, undefined}
use nestjs_microservice_boil.Repository.{Repository, by_name}
use nestjs_microservice_boil.Permission.{
  PermissionEntity, PermissionObject, normalize_name, empty, shape,
}
use nestjs_microservice_boil.Permission.Usecases.{create, delete, update, get_by_id}
use nestjs_microservice_boil.Permission.Laws.{
  create-unused_name, permission_usecases-FailsCleanly, FailedWrite,
}
use nestjs_microservice_boil.Tests.World.{platform, case_laws, cat_list, fixed, start}

abbrev permissions : Repository (Unit {0}) PermissionEntity
permissions = fixed (some cat_list) []

abbrev no_permissions : Repository (Unit {0}) PermissionEntity
no_permissions = fixed none []

abbrev name : Text
name = codes " cat:list "

abbrev p2 : Text
p2 = codes "p2"

abbrev made : PermissionEntity
made = record {
  id = p2;
  name = codes "cat:list";
  roles = none;
  stamps = record { created_at = value 7; updated_at = value 7; deleted_at = undefined };
}

abbrev created : World (Unit {0})
created = (create platform no_permissions p2 7 (some name) (start tt)).1

create_runs : create platform no_permissions p2 7 (some name) (start tt) ≡ (ok (some made), created)
unfolding create nestjs_microservice_boil.Exec.validate_schema
    nestjs_microservice_boil.Permission.parse_name nestjs_microservice_boil.Base.underscores
    nestjs_microservice_boil.Base.trim nestjs_microservice_boil.Exec.◌>>=◌ construct
    nestjs_microservice_boil.Permission.parse to_object
create_runs = refl

create-unused_name_example :
    (raw : Text) × (some name ≡ some raw)
    × (includes b':' (normalize_name platform raw) ≡ true)
    × (no_permissions.find_one (by_name (normalize_name platform raw)) tt ≡ ok none)
    × ((e : PermissionEntity) × (some made ≡ some e)
        × (e.id ≡ p2)
        × (e.name ≡ normalize_name platform raw))
    × (created.db ≡ (no_permissions.create (some made) tt).1)
    × (created.effects ≡ [] ++ info "permission created." ∷ [])
create-unused_name_example =
    create-unused_name platform no_permissions case_laws p2 7 (some name) (start tt) created
      (some made) create_runs

abbrev input : PermissionObject
input = record empty { id = some p2; name = some name }

abbrev updated : World (Unit {0})
updated = (update platform permissions 7 input (start tt)).1

permission_usecases-FailsCleanly_example :
    FailsCleanly (FailedWrite platform permissions) (create platform permissions p2 7 (some name))
    × FailsCleanly (FailedWrite platform permissions) (delete platform permissions 7 (some p2))
    × FailsCleanly (FailedWrite platform permissions) (update platform permissions 7 input)
    × Reads (get_by_id platform permissions 7 (some p2))
permission_usecases-FailsCleanly_example =
    permission_usecases-FailsCleanly platform permissions p2 7 (some name) (some p2) input
