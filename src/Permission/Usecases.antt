-- ===== src/Permission/Usecases.antt =====
-- core/permission/use-cases/*.ts. `uuid` is what `IDGeneratorUtils.uuid()` returns in the call and
-- `now` the time of the call. Each `execute` runs behind its `ValidateSchema`.
use nestjs_microservice_boil.Base.{
  ℕ, Text, Bool, true, false, Option, none, some, List, [], ◌∷◌, truthy,
}
use nestjs_microservice_boil.Exception.{
  not_found, conflict, literal, listing, Result, ok, ◌>>=◌ as bind,
}
use nestjs_microservice_boil.Exec.{
  Exec, info, pure, lift, query, command, or_throw, perform, throw_if, ◌>>=◌, ◌>>◌, validate_schema,
}
use nestjs_microservice_boil.Repository.{Repository, by_id, by_name}
use nestjs_microservice_boil.Platform.{Platform}
use nestjs_microservice_boil.Entity.{required, construct, to_object, merge, deactivate}
use nestjs_microservice_boil.Permission.{
  PermissionEntity, PermissionObject, empty, object, parse_id, parse_name, shape,
}

abbrev is_some : {A : Type 0} → Option A → Bool
is_some none = false
is_some (some _) = true

-- `permission.roles?.length`, as a condition
abbrev any_of : Option (List Text) → Bool
any_of (some (_ ∷ _)) = true
any_of _ = false

abbrev names_of : Option (List Text) → List Text
names_of none = []
names_of (some names) = names

-- A field that may be left out, checked where it is there.
abbrev pub optional : {A : Type 0} → (A → Result A) → Option A → Result (Option A)
optional parse none = ok none
optional parse (some a) = bind (parse a) (λ b. ok (some b))

-- `input.name`, as a condition and where it holds
abbrev given : Option Text → Option Text
given none = none
given (some s) = elim (truthy s) [ true ↦ some s | false ↦ none ]

module _ {D : Type 0} (p : Platform) (repository : Repository D PermissionEntity) where
  -- `PermissionCreateSchema`
  unfoldable pub create_schema : Option Text → Result Text
  create_schema name = bind (required name) (parse_name p)

  -- `PermissionCreateUsecase`
  create_execute : (uuid : Text) (now : ℕ) (name : Text) → Exec D (Option PermissionEntity)
  create_execute uuid now name = do
    permission ← query (repository.find_one (by_name name))
    throw_if (is_some permission) conflict (literal "permissionExists")
    entity ← lift (construct (shape p) now (record empty { id = some uuid; name = some name }))
    command (repository.create (to_object (shape p) entity))
    perform (info "permission created.")
    pure (to_object (shape p) entity)

  unfoldable pub create : Text → ℕ → Option Text → Exec D (Option PermissionEntity)
  unfolding create_schema create_execute
  create uuid now name = validate_schema (create_schema name) (create_execute uuid now)

  -- `PermissionDeleteSchema`, and the other schemas that pick the id alone
  unfoldable pub id_schema : Option Text → Result Text
  id_schema id = bind (required id) (parse_id p)

  -- `PermissionDeleteUsecase`
  delete_execute : (now : ℕ) (id : Text) → Exec D (Option PermissionEntity)
  delete_execute now id = do
    found ← query (repository.find_one_with_relation (by_id id))
    permission ← or_throw found not_found "permissionNotFound"
    throw_if (any_of permission.roles) conflict
        (listing "permissionHasAssociationWithRole: " ", " (names_of permission.roles))
    entity ← lift (construct (shape p) now (object permission))
    let removed = record entity { stamps = deactivate now entity.stamps }
    command (repository.create (to_object (shape p) removed))
    pure (to_object (shape p) removed)

  unfoldable pub delete : ℕ → Option Text → Exec D (Option PermissionEntity)
  unfolding id_schema delete_execute
  delete now id = validate_schema (id_schema id) (delete_execute now)

  -- `PermissionGetByIdUsecase`
  get_by_id_execute : (now : ℕ) (id : Text) → Exec D (Option PermissionEntity)
  get_by_id_execute now id = do
    found ← query (repository.find_by_id id)
    permission ← or_throw found not_found "permissionNotFound"
    entity ← lift (construct (shape p) now (object permission))
    pure (to_object (shape p) entity)

  unfoldable pub get_by_id : ℕ → Option Text → Exec D (Option PermissionEntity)
  unfolding id_schema get_by_id_execute
  get_by_id now id = validate_schema (id_schema id) (get_by_id_execute now)

  -- `PermissionUpdateSchema`
  unfoldable pub update_schema : PermissionObject → Result (Text × PermissionObject)
  update_schema o = bind (bind (required o.id) (parse_id p)) λ id.
      bind (optional (parse_name p) o.name) λ name. ok (id, record o { id = some id; name = name })

  -- the guard under `if (input.name)`
  unfoldable pub refuse_taken_name : Option Text → Text → Exec D (Unit {0})
  refuse_taken_name none id = pure tt
  refuse_taken_name (some name) id = do
    exists ← query (repository.exists_on_update (by_name name) id)
    throw_if exists conflict (literal "permissionExists")

  -- `PermissionUpdateUsecase`
  update_execute : (now : ℕ) → Text × PermissionObject → Exec D (Option PermissionEntity)
  update_execute now (id, input) = do
    found ← query (repository.find_by_id id)
    permission ← or_throw found not_found "permissionNotFound"
    refuse_taken_name (given input.name) id
    entity ← lift (construct (shape p) now (object permission))
    after ← lift (merge (shape p) entity input)
    command (repository.update_one (by_id after.id) (to_object (shape p) after))
    perform (info "permission updated.")
    pure (to_object (shape p) after)

  unfoldable pub update : ℕ → PermissionObject → Exec D (Option PermissionEntity)
  unfolding update_schema update_execute
  update now o = validate_schema (update_schema o) (update_execute now)
