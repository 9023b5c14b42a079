-- ===== src/Cat/Usecases.antt =====
-- core/cat/use-cases/*.ts. `actor` is the id of the user of the request.
use nestjs_microservice_boil.Base.{ℕ, Text, Option, some}
use nestjs_microservice_boil.Exception.{not_found, Result, ok, ◌>>=◌ as bind}
use nestjs_microservice_boil.Exec.{
  Exec, info, pure, lift, query, command, or_throw, perform, log_event, ◌>>=◌, ◌>>◌,
  validate_schema,
}
use nestjs_microservice_boil.Repository.{Repository, by_id, CreatedModel}
use nestjs_microservice_boil.Platform.{Platform}
use nestjs_microservice_boil.Entity.{
  required, construct, construct_nullable, to_object, merge, deactivate,
}
use nestjs_microservice_boil.Permission.Usecases.{optional}
use mathlib.Core.Option
use nestjs_microservice_boil.Cat.{
  CatEntity, CatObject, empty, object, parse_id, parse_name, parse_age, shape,
}

module _ {D : Type 0} (p : Platform) (cat_repository : Repository D CatEntity) where
  -- `CatCreateSchema`
  unfoldable pub create_schema : CatObject → Result CatObject
  create_schema o = bind (bind (required o.name) parse_name) λ name.
      bind (bind (required o.breed) parse_name) λ breed.
        bind (bind (required o.age) parse_age)
          λ age. ok (record empty { name = some name; breed = some breed; age = some age })

  -- `CatCreateUsecase`
  create_execute : (actor uuid : Text) (now : ℕ) → CatObject → Exec D CreatedModel
  create_execute actor uuid now input = do
    entity ← lift (construct (shape p) now (record input { id = some uuid }))
    created ← command (cat_repository.create (to_object (shape p) entity))
    perform (log_event "cat-created" "created" actor created.id)
    pure created

  unfoldable pub create : (actor uuid : Text) → ℕ → CatObject → Exec D CreatedModel
  unfolding create_schema create_execute
  create actor uuid now o = validate_schema (create_schema o) (create_execute actor uuid now)

  -- `CatDeleteSchema` and `CatGetByIdSchema`
  unfoldable pub id_schema : Option Text → Result Text
  id_schema id = bind (required id) (parse_id p)

  -- `CatDeleteUsecase`
  delete_execute : (actor : Text) (now : ℕ) (id : Text) → Exec D (Option CatEntity)
  delete_execute actor now id = do
    found ← query (cat_repository.find_by_id id)
    cat ← or_throw found not_found "ApiNotFoundException"
    entity ← lift (construct (shape p) now (object cat))
    let removed = record entity { stamps = deactivate now entity.stamps }
    command (cat_repository.soft_remove (by_id removed.id))
    perform (log_event "cat-deleted" "deleted" actor id)
    pure (to_object (shape p) removed)

  unfoldable pub delete : Text → ℕ → Option Text → Exec D (Option CatEntity)
  unfolding id_schema delete_execute
  delete actor now id = validate_schema (id_schema id) (delete_execute actor now)

  -- `CatGetByIdUsecase`
  get_by_id_execute : (now : ℕ) (id : Text) → Exec D (Option CatEntity)
  get_by_id_execute now id = do
    found ← query (cat_repository.find_by_id id)
    cat ← or_throw found not_found "ApiNotFoundException"
    entity ← lift (construct (shape p) now (object cat))
    pure (to_object (shape p) entity)

  unfoldable pub get_by_id : ℕ → Option Text → Exec D (Option CatEntity)
  unfolding id_schema get_by_id_execute
  get_by_id now id = validate_schema (id_schema id) (get_by_id_execute now)

  -- `CatUpdateSchema`
  unfoldable pub update_schema : CatObject → Result (Text × CatObject)
  update_schema o = bind (bind (required o.id) (parse_id p)) λ id.
      bind (optional parse_name o.name) λ name. bind (optional parse_name o.breed) λ breed.
        bind (optional parse_age o.age)
          λ age. ok (id, record o { id = some id; name = name; breed = breed; age = age })

  -- `CatUpdateUsecase`
  unfoldable pub update_execute :
      (actor : Text) (now : ℕ) → Text × CatObject → Exec D (Option CatEntity)
  update_execute actor now (id, input) = do
    found ← query (cat_repository.find_by_id id)
    cat ← or_throw found not_found "ApiNotFoundException"
    entity ← lift (construct (shape p) now (object cat))
    after ← lift (merge (shape p) entity input)
    command (cat_repository.update_one (by_id after.id) (to_object (shape p) after))
    perform (info "cat updated.")
    updated ← query (cat_repository.find_by_id after.id)
    perform (log_event "cat-updated" "updated" actor after.id)
    entity_updated ← lift (construct_nullable (shape p) now (Option.map object updated))
    pure (to_object (shape p) entity_updated)

  unfoldable pub update : Text → ℕ → CatObject → Exec D (Option CatEntity)
  unfolding update_schema update_execute
  update actor now o = validate_schema (update_schema o) (update_execute actor now)
