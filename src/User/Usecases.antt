-- ===== src/User/Usecases.antt =====
-- core/user/use-cases/: user-create, user-update, user-delete, user-get-by-id and
-- user-change-password. `actor` is the id of the user who makes the request, `now` the time of the
-- call, and `uuid`, `password_uuid` what `IDGeneratorUtils.uuid()` returns.
use nestjs_microservice_boil.Base.{
  ltb, leb, length, every, Text, codes, ◌===◌, ℕ, Bool, true, false, not, ◌&&◌, ◌||◌, Option, none,
  some, List, [],
}
use mathlib.Core.Option
use nestjs_microservice_boil.Exception.{
  ◌>>=◌ as bind, Result, ok, not_found, literal, bad_request, conflict,
}
use nestjs_microservice_boil.Entity.{
  or_else, construct_nullable, construct, deactivate, merge, to_object,
}
use nestjs_microservice_boil.Exec.{
  ◌>>=◌, ◌>>◌, Exec, pure, query, validate_schema, throw_if, or_throw, lift, command, perform, info,
  log_event, emit,
}
use nestjs_microservice_boil.Permission.Usecases.{optional}
use nestjs_microservice_boil.Role.{RoleEntity}
use nestjs_microservice_boil.User.{
  UserEntity, empty, object, shape, parse_id, parse_email, Platform, check, required,
}
use nestjs_microservice_boil.User.Password
use nestjs_microservice_boil.User.Password.{UserPasswordEntity, verify_password}
use nestjs_microservice_boil.Repository.{Repository, CreatedModel, by_id, by_email}

-- `InputValidator.enum(RoleEnum)`
unfoldable pub is_role_enum : Text → Bool
is_role_enum s = s === codes "USER" || s === codes "BACKOFFICE"

pub record UserCreateInput : Type 0 where
  pub email : Text
  pub name : Text
  pub password : Text
  pub roles : List Text

pub record UserCreateObject : Type 0 where
  pub email : Option Text
  pub name : Option Text
  pub password : Option Text
  pub roles : Option (List Text)

pub record UserUpdateInput : Type 0 where
  pub id : Text
  pub name : Option Text
  pub email : Option Text
  pub roles : Option (List Text)

pub record ChangePasswordInput : Type 0 where
  pub id : Text
  pub password : Text
  pub new_password : Text
  pub confirm_password : Text

abbrev is_some : {A : Type 0} → Option A → Bool
is_some none = false
is_some (some _) = true

module _ {D : Type 0} (p : Platform) (user_repository : Repository D UserEntity) where
  -- `UserCreateSchema`
  unfoldable pub create_schema : UserCreateObject → Result UserCreateInput
  unfolding is_role_enum
  create_schema o = bind (bind (required o.email) (parse_email p)) λ email.
      bind (required o.name) λ name. bind (required o.password) λ password.
        bind (required o.roles) λ roles.
          bind (check (leb 1 (length roles) && every is_role_enum roles))
            λ _. ok (record { email = email; name = name; password = password; roles = roles })

  -- `UserDeleteSchema` and the other schemas that pick the id alone
  unfoldable pub id_schema : Option Text → Result Text
  id_schema id = bind (required id) (parse_id p)

  -- `UserDeleteUsecase`
  delete_execute : (actor : Text) (now : ℕ) (id : Text) → Exec D (Option UserEntity)
  delete_execute actor now id = do
    found ← query (user_repository.find_one_with_relation (by_id id))
    user ← or_throw found not_found "userNotFound"
    entity ← lift (construct (shape p) now (object user))
    let removed = record entity { stamps = deactivate now entity.stamps }
    command (user_repository.soft_remove (by_id removed.id))
    perform (log_event "user-deleted" "deleted" actor user.id)
    pure (to_object (shape p) removed)

  unfoldable pub delete : Text → ℕ → Option Text → Exec D (Option UserEntity)
  unfolding id_schema delete_execute
  delete actor now id = validate_schema (id_schema id) (delete_execute actor now)

  -- `UserGetByIdUsecase`
  get_by_id_execute : (now : ℕ) (id : Text) → Exec D (Option UserEntity)
  get_by_id_execute now id = do
    found ← query (user_repository.find_one (by_id id))
    user ← or_throw found not_found "userNotFound"
    entity ← lift (construct (shape p) now (object user))
    pure (to_object (shape p) entity)

  unfoldable pub get_by_id : ℕ → Option Text → Exec D (Option UserEntity)
  unfolding id_schema get_by_id_execute
  get_by_id now id = validate_schema (id_schema id) (get_by_id_execute now)

  -- `UserChangePasswordUsecase`. `entityPassword` is an object of its own, made from the fields of
  -- `user.password`: what is written is `user`, as it was read.
  change_password_execute : (now : ℕ) → ChangePasswordInput → Exec D (Unit {0})
  change_password_execute now input = do
    found ← query (user_repository.find_one_with_relation (by_id input.id))
    user ← or_throw found not_found "userNotFound"
    entity_password ←
        lift (construct_nullable (Password.shape p) now (Option.map Password.object user.password))
    let password = p.hash input.password
    lift (verify_password password entity_password)
    throw_if (not (input.new_password === input.confirm_password)) bad_request
        (literal "passwordIsDifferent")
    changed_password ← pure (Password.change_password p input.new_password entity_password)
    command (user_repository.create (some user))
    pure tt

  unfoldable pub change_password_schema :
      (id password new_password confirm_password : Option Text) → Result ChangePasswordInput
  change_password_schema id password new_password confirm_password = bind (id_schema id) λ i.
      bind (required password) λ old. bind (required new_password) λ new.
        bind (required confirm_password) λ confirm.
          ok (record { id = i; password = old; new_password = new; confirm_password = confirm })

  unfoldable pub change_password :
      ℕ → (id password new_password confirm_password : Option Text) → Exec D (Unit {0})
  unfolding change_password_schema change_password_execute id_schema
  change_password now id password new_password confirm_password =
      validate_schema (change_password_schema id password new_password confirm_password)
        (change_password_execute now)

module _ {D : Type 0} (p : Platform) (user_repository : Repository D UserEntity)
    (role_repository : Repository D RoleEntity) where
  -- `UserCreateUsecase`
  create_execute :
      (actor uuid password_uuid : Text) (now : ℕ) → UserCreateInput → Exec D CreatedModel
  create_execute actor uuid password_uuid now input = do
    roles ← query (role_repository.find_in input.roles)
    throw_if (ltb (length roles) (length input.roles)) not_found (literal "roleNotFound")
    entity ← lift (
        construct (shape p) now (record empty {
          id = some uuid;
          name = some input.name;
          email = some input.email;
          roles = some roles;
        }))
    password_entity ← lift (
        construct (Password.shape p) now
          (record Password.empty { id = some password_uuid; password = some input.password }))
    let new_user = record entity { password = some (Password.create_password p password_entity) }
    user_exists ← query (user_repository.find_one (by_email new_user.email))
    throw_if (is_some user_exists) conflict (literal "userExists")
    user ← command (user_repository.create (to_object (shape p) new_user))
    perform (info "user created successfully")
    perform (
        emit (record {
          email = input.email;
          subject = "Welcome";
          template = "welcome";
          name = input.name;
          link = none;
        }))
    perform (log_event "user-created" "created" actor new_user.id)
    pure user

  unfoldable pub create :
      (actor uuid password_uuid : Text) → ℕ → UserCreateObject → Exec D CreatedModel
  unfolding create_schema create_execute
  create actor uuid password_uuid now o =
      validate_schema (create_schema p user_repository o)
        (create_execute actor uuid password_uuid now)

  -- `UserUpdateSchema`
  unfoldable pub update_schema :
      (id name email : Option Text) → Option (List Text) → Result UserUpdateInput
  unfolding is_role_enum
  update_schema id name email roles = bind (id_schema p user_repository id) λ i.
      bind (optional (parse_email p) email) λ e.
        bind (check (every is_role_enum (or_else [] roles)))
          λ _. ok (record { id = i; name = name; email = e; roles = roles })

  -- `getRoles`
  unfoldable pub get_roles : UserUpdateInput → List RoleEntity → Exec D (List RoleEntity)
  get_roles input current_roles = elim input.roles [
    | none ↦ pure current_roles
    | some names ↦ do
      roles ← query (role_repository.find_in names)
      throw_if (ltb (length roles) (length names)) not_found (literal "roleNotFound")
      pure roles
  ]

  -- `UserUpdateUsecase`
  update_execute : (actor : Text) (now : ℕ) → UserUpdateInput → Exec D (Option UserEntity)
  update_execute actor now input = do
    found ← query (user_repository.find_one (by_id input.id))
    user ← or_throw found not_found "userNotFound"
    roles ← get_roles input user.roles
    entity ← lift (construct (shape p) now (object user))
    after ← lift (
        merge (shape p) entity (record empty {
          id = some input.id;
          name = input.name;
          email = input.email;
          roles = some roles;
        }))
    user_exists ← query (user_repository.exists_on_update (by_email after.email) after.id)
    throw_if user_exists conflict (literal "userExists")
    command (user_repository.create (to_object (shape p) after))
    perform (info "user updated.")
    updated ← query (user_repository.find_one (by_id after.id))
    entity_updated ← lift (construct_nullable (shape p) now (Option.map object updated))
    perform (log_event "user-updated" "updated" actor entity_updated.id)
    pure (to_object (shape p) entity_updated)

  unfoldable pub update :
      Text → ℕ → (id name email : Option Text) → Option (List Text) → Exec D (Option UserEntity)
  unfolding update_schema update_execute
  update actor now id name email roles =
      validate_schema (update_schema id name email roles) (update_execute actor now)
