-- ===== src/Role/Usecases.antt =====
-- core/role/use-cases/*.ts. `uuid n` is what `IDGeneratorUtils.uuid()` returns where `n` requested
-- names are still to be handled; `now` is the time of the call.
use nestjs_microservice_boil.Base.{
  length, Text, ℕ, Bool, true, false, not, Option, none, some, List, [], ◌∷◌, map,
}
use nestjs_microservice_boil.Exception.{◌>>=◌ as bind, Result, ok, not_found, conflict, listing}
use nestjs_microservice_boil.Exec.{
  ◌>>=◌, ◌>>◌, Exec, query, validate_schema, lift, or_throw, command, pure, throw_if, perform, info,
}
use mathlib.Core.Option
use nestjs_microservice_boil.Permission
use nestjs_microservice_boil.Permission.{PermissionEntity, normalize_name}
use nestjs_microservice_boil.Permission.Usecases.{optional}
use nestjs_microservice_boil.Role.{
  RoleEntity, empty, object, shape, Platform, find_name, remove_permission_by_name, required,
  add_permission,
}
use nestjs_microservice_boil.Repository.{Repository, CreatedModel, by_id}
use nestjs_microservice_boil.Entity.{
  check, construct, merge, to_object, deactivate, construct_nullable,
}

-- `role.permissions?.length`, as a condition
abbrev is_nonempty : List PermissionEntity → Bool
is_nonempty [] = false
is_nonempty (_ ∷ _) = true

-- `{ id, permissions }`, the input of the two use cases on the permissions of a role
pub record PermissionsInput : Type 0 where
  pub id : Option Text
  pub permissions : Option (List Text)

module _ {D : Type 0} (p : Platform) (role_repository : Repository D RoleEntity) where
  -- `RoleCreateSchema`, with its `strict`: an object with other keys is refused.
  unfoldable pub create_schema : (unknown_keys : Bool) → Option Text → Result Text
  create_schema unknown_keys name =
      bind (check (not unknown_keys)) λ _. bind (required name) λ s. ok (normalize_name p s)

  -- `RoleCreateUsecase`
  create_execute : (uuid : Text) (now : ℕ) (name : Text) → Exec D CreatedModel
  create_execute uuid now name = do
    entity ← lift (construct (shape p) now (record empty { id = some uuid; name = some name }))
    role ← command (role_repository.create (to_object (shape p) entity))
    perform (info "role created.")
    pure role

  unfoldable pub create : Text → ℕ → Bool → Option Text → Exec D CreatedModel
  unfolding create_schema create_execute
  create uuid now unknown_keys name =
      validate_schema (create_schema unknown_keys name) (create_execute uuid now)

  -- `RoleDeleteSchema`, and the other schemas that pick the id alone
  unfoldable pub id_schema : Option Text → Result Text
  id_schema id = bind (required id) (Permission.parse_id p)

  -- `RoleDeleteUsecase`
  delete_execute : (now : ℕ) (id : Text) → Exec D (Option RoleEntity)
  delete_execute now id = do
    found ← query (role_repository.find_by_id id)
    role ← or_throw found not_found "roleNotFound"
    throw_if (is_nonempty role.permissions) conflict
        (listing "roleHasAssociationWithPermission: " "," (map (λ q. q.name) role.permissions))
    entity ← lift (construct (shape p) now (object role))
    let removed = record entity { stamps = deactivate now entity.stamps }
    command (role_repository.create (to_object (shape p) removed))
    pure (to_object (shape p) removed)

  unfoldable pub delete : ℕ → Option Text → Exec D (Option RoleEntity)
  unfolding id_schema delete_execute
  delete now id = validate_schema (id_schema id) (delete_execute now)

  -- `RoleGetByIdUsecase`
  get_by_id_execute : (now : ℕ) (id : Text) → Exec D (Option RoleEntity)
  get_by_id_execute now id = do
    found ← query (role_repository.find_by_id id)
    role ← or_throw found not_found "roleNotFound"
    entity ← lift (construct (shape p) now (object role))
    pure (to_object (shape p) entity)

  unfoldable pub get_by_id : ℕ → Option Text → Exec D (Option RoleEntity)
  unfolding id_schema get_by_id_execute
  get_by_id now id = validate_schema (id_schema id) (get_by_id_execute now)

  -- `RoleUpdateSchema`
  unfoldable pub update_schema : (id name : Option Text) → Result (Text × Option Text)
  update_schema id name =
      bind (id_schema id) λ i. bind (optional (λ s. ok (normalize_name p s)) name) λ n. ok (i, n)

  -- `RoleUpdateUsecase`; a row that is gone when it is read back is `null`.
  update_execute : (now : ℕ) → Text × Option Text → Exec D (Option RoleEntity)
  update_execute now (id, name) = do
    found ← query (role_repository.find_by_id id)
    role ← or_throw found not_found "roleNotFound"
    entity ← lift (construct (shape p) now (object role))
    after ← lift (merge (shape p) entity (record empty { id = some id; name = name }))
    command (role_repository.create (to_object (shape p) after))
    perform (info "role updated.")
    updated ← query (role_repository.find_by_id after.id)
    result ← lift (construct_nullable (shape p) now (Option.map object updated))
    pure (to_object (shape p) result)

  unfoldable pub update : ℕ → (id name : Option Text) → Exec D (Option RoleEntity)
  unfolding update_schema update_execute
  update now id name = validate_schema (update_schema id name) (update_execute now)

  -- `RoleAddPermissionSchema` and `RoleDeletePermissionSchema`
  unfoldable pub permissions_schema : PermissionsInput → Result (Text × List Text)
  permissions_schema input =
      bind (id_schema input.id) λ id. bind (required input.permissions) λ names. ok (id, names)

-- The permission that a requested name stands for: the stored one, or a new one.
unfoldable pub resolve :
    Platform → (uuid : Text) (now : ℕ) → List PermissionEntity → Text → Result PermissionEntity
resolve p uuid now stored name = elim (find_name name stored) [
  | some permission ↦ ok permission
  | none ↦
      construct (Permission.shape p) now
        (record Permission.empty { id = some uuid; name = some name })
]

-- The loop of `RoleAddPermissionUsecase`
unfoldable pub add_all :
    Platform
    → (uuid : ℕ → Text) (now : ℕ) → List PermissionEntity
    → List Text
    → RoleEntity
    → Result RoleEntity
add_all p uuid now stored [] role = ok role
add_all p uuid now stored (name ∷ names) role =
    bind (resolve p (uuid (length names)) now stored name)
      λ permission. add_all p uuid now stored names (add_permission permission role)

-- The loop of `RoleDeletePermissionUsecase`
unfoldable pub remove_all : List PermissionEntity → List Text → RoleEntity → RoleEntity
remove_all stored [] role = role
remove_all stored (name ∷ names) role =
    remove_all stored names
      (elim (find_name name stored) [ none ↦ role | some _ ↦ remove_permission_by_name name role ])

module _ {D : Type 0} (p : Platform) (role_repository : Repository D RoleEntity)
    (permission_repository : Repository D PermissionEntity) where
  -- `RoleAddPermissionUsecase`
  add_permission_execute : (uuid : ℕ → Text) (now : ℕ) → Text × List Text → Exec D (Unit {0})
  add_permission_execute uuid now (id, names) = do
    found ← query (role_repository.find_one (by_id id))
    role ← or_throw found not_found "roleNotFound"
    entity ← lift (construct (shape p) now (object role))
    stored ← query (permission_repository.find_in names)
    after ← lift (add_all p uuid now stored names entity)
    command (role_repository.create (to_object (shape p) after))
    pure tt

  unfoldable pub add_permissions : (ℕ → Text) → ℕ → PermissionsInput → Exec D (Unit {0})
  unfolding add_permission_execute permissions_schema id_schema
  add_permissions uuid now input =
      validate_schema (permissions_schema p role_repository input) (add_permission_execute uuid now)

  -- `RoleDeletePermissionUsecase`
  delete_permission_execute : (now : ℕ) → Text × List Text → Exec D (Unit {0})
  delete_permission_execute now (id, names) = do
    found ← query (role_repository.find_one (by_id id))
    role ← or_throw found not_found "roleNotFound"
    entity ← lift (construct (shape p) now (object role))
    stored ← query (permission_repository.find_in names)
    command (role_repository.create (to_object (shape p) (remove_all stored names entity)))
    pure tt

  unfoldable pub delete_permissions : ℕ → PermissionsInput → Exec D (Unit {0})
  unfolding delete_permission_execute permissions_schema id_schema
  delete_permissions now input =
      validate_schema (permissions_schema p role_repository input) (delete_permission_execute now)
