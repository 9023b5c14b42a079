-- ===== src/Bird/Usecases.antt =====
-- core/bird/use-cases/*.ts.
use nestjs_microservice_boil.Base.{ℕ, Text, Option, some}
use nestjs_microservice_boil.Exception.{not_found, Result, ok, ◌>>=◌ as bind}
use nestjs_microservice_boil.Exec.{
  Exec, info, pure, lift, query, command, or_throw, perform, ◌>>=◌, ◌>>◌, validate_schema,
}
use nestjs_microservice_boil.Repository.{Repository, by_id, CreatedModel}
use nestjs_microservice_boil.Platform.{Platform}
use nestjs_microservice_boil.Entity.{required, construct, construct_nullable, to_object, deactivate}
use nestjs_microservice_boil.Permission.Usecases.{optional}
use mathlib.Core.Option
use nestjs_microservice_boil.Bird.{
  BirdEntity, BirdObject, empty, object, spread, parse_id, parse_name, shape,
}

module _ {D : Type 0} (p : Platform) (bird_repository : Repository D BirdEntity) where
  -- `BirdCreateSchema`
  unfoldable pub create_schema : Option Text → Result Text
  create_schema name = bind (required name) parse_name

  -- `BirdCreateUsecase`
  create_execute : (uuid : Text) (now : ℕ) (name : Text) → Exec D CreatedModel
  create_execute uuid now name = do
    entity ← lift (construct (shape p) now (record empty { id = some uuid; name = some name }))
    created ← command (bird_repository.create (to_object (shape p) entity))
    pure created

  unfoldable pub create : Text → ℕ → Option Text → Exec D CreatedModel
  unfolding create_schema create_execute
  create uuid now name = validate_schema (create_schema name) (create_execute uuid now)

  -- `BirdDeleteSchema` and `BirdGetByIdSchema`
  unfoldable pub id_schema : Option Text → Result Text
  id_schema id = bind (required id) (parse_id p)

  -- `BirdDeleteUsecase`
  delete_execute : (now : ℕ) (id : Text) → Exec D (Option BirdEntity)
  delete_execute now id = do
    found ← query (bird_repository.find_by_id id)
    bird ← or_throw found not_found "ApiNotFoundException"
    entity ← lift (construct (shape p) now (object bird))
    let removed = record entity { stamps = deactivate now entity.stamps }
    command (bird_repository.update_one (by_id removed.id) (to_object (shape p) removed))
    pure (to_object (shape p) removed)

  unfoldable pub delete : ℕ → Option Text → Exec D (Option BirdEntity)
  unfolding id_schema delete_execute
  delete now id = validate_schema (id_schema id) (delete_execute now)

  -- `BirdGetByIdUsecase`
  get_by_id_execute : (now : ℕ) (id : Text) → Exec D (Option BirdEntity)
  get_by_id_execute now id = do
    found ← query (bird_repository.find_by_id id)
    bird ← or_throw found not_found "ApiNotFoundException"
    entity ← lift (construct (shape p) now (object bird))
    pure (to_object (shape p) entity)

  unfoldable pub get_by_id : ℕ → Option Text → Exec D (Option BirdEntity)
  unfolding id_schema get_by_id_execute
  get_by_id now id = validate_schema (id_schema id) (get_by_id_execute now)

  -- `BirdUpdateSchema`
  unfoldable pub update_schema : BirdObject → Result (Text × BirdObject)
  update_schema o = bind (bind (required o.id) (parse_id p)) λ id.
      bind (optional parse_name o.name) λ name. ok (id, record o { id = some id; name = name })

  -- `BirdUpdateUsecase`
  unfoldable pub update_execute : (now : ℕ) → Text × BirdObject → Exec D (Option BirdEntity)
  update_execute now (id, input) = do
    found ← query (bird_repository.find_by_id id)
    bird ← or_throw found not_found "ApiNotFoundException"
    entity ← lift (construct (shape p) now (spread (object bird) input))
    command (bird_repository.update_one (by_id entity.id) (to_object (shape p) entity))
    perform (info "bird updated.")
    updated ← query (bird_repository.find_by_id entity.id)
    entity_updated ← lift (construct_nullable (shape p) now (Option.map object updated))
    pure (to_object (shape p) entity_updated)

  unfoldable pub update : ℕ → BirdObject → Exec D (Option BirdEntity)
  unfolding update_schema update_execute
  update now o = validate_schema (update_schema o) (update_execute now)
