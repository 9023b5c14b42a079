-- ===== src/Store/Mongo.antt =====
-- infra/repository/mongo/repository.ts, over a Mongoose model. The callers pass no options, and
-- the model leaves them out; `$set` and `returnDocument: 'after'` are part of the model's calls.
pub mod Cats
pub mod Laws
pub mod Port
use nestjs_microservice_boil.Base.{
  filter, codes, ℕ, Text, Bool, true, false, not, Option, none, some, List, [], ◌∷◌, ◌++◌, map,
  truthy, join, ◌==◌,
}
use nestjs_microservice_boil.Store.Document.{
  Model, Host, Join, set_option, first_id, not_equal_to, apply_filter, get_populate_paths, as_names,
  any_filter,
}
use nestjs_microservice_boil.Entity.{or_else}
use nestjs_microservice_boil.Exception.{Result, ok, err, api, bad_request, literal, foreign}
use nestjs_microservice_boil.Exec.{Exec, pure, throw, lift, query, command, ◌>>=◌, ◌>>◌}
use nestjs_microservice_boil.Repository.{CreatedModel}
use nestjs_microservice_boil.Value.{
  Value, null, text, array, object, Fields, end, field, is_truthy, get, set, delete, assign,
}
use nestjs_microservice_boil.Store.{handle_database_error, try_catch}
use nestjs_microservice_boil.Store.Filter.{
  Argument, plain, names, deleted_at, id_key, mongo_id, convert_filter, convert_argument,
}
use nestjs_microservice_boil.Store.Commands.{
  OperationCommand, items, mongo_key, build_command_filter,
}
use nestjs_microservice_boil.Store.Models.{UpdatedModel, RemovedModel, CreatedOrUpdateModel}
use nestjs_microservice_boil.Store.Page.{PaginationInput, PaginationOutput, SortOrder}
use mathlib.Core.Option

module _ {D M O : Type 0} (host : Host D M O) where
  open host use {model, to_object, to_plain, to_string, digits}

  -- the `catch` of each method
  abbrev pub caught : {A : Type 0} → Exec D A → Exec D A
  caught m = try_catch m (λ error. throw (handle_database_error error))

  unfoldable pub apply_pagination : PaginationInput Fields → Exec D (PaginationOutput O)
  apply_pagination input = do
    (docs, total_docs) ←
        query (model.paginate (or_else end input.search) input.page input.limit input.sort)
    pure (record {
      docs = map to_object docs;
      limit = input.limit;
      page = input.page;
      total = total_docs;
    })

  unfoldable pub insert_many : List Fields → Exec D (Unit {0})
  insert_many documents = caught (command (model.insert_many documents))

  unfoldable pub create : Fields → Exec D CreatedModel
  create document = caught do
    id ← command (
        model.save
          (set_option mongo_id (first_id (get mongo_id document) (get id_key document)) document))
    pure (record { id = id; created = truthy id })

  unfoldable pub find : Fields → Exec D (List O)
  find filter =
      caught do results ← query (model.find (convert_filter filter)); pure (map to_object results)

  unfoldable pub find_by_id : Text → Exec D (Option O)
  find_by_id id = caught do found ← query (model.find_by_id id); pure (Option.map to_object found)

  unfoldable pub find_one : Fields → Exec D (Option O)
  find_one filter =
      caught
        do found ← query (model.find_one (convert_filter filter)); pure (Option.map to_object found)

  unfoldable pub find_all : Option Fields → Exec D (List O)
  find_all filter =
      caught do results ← query (model.find (any_filter filter)); pure (map to_object results)

  -- the document by the id that it must have
  create_or_update_id : Fields → (id : Value) → Exec D CreatedOrUpdateModel
  create_or_update_id document id = do
    exists ← find_by_id (to_string id)
    elim exists [
      | none ↦ do
        saved ← command (model.save (set mongo_id id document))
        pure (record { id = saved; created = true; updated = false })
      | some _ ↦ do
        command (model.update_one (field mongo_id id end) document)
        pure (record { id = to_string id; created = false; updated = true })
    ]

  unfoldable pub create_or_update : Fields → Exec D CreatedOrUpdateModel
  unfolding create_or_update_id find_by_id
  create_or_update document = caught (elim (get id_key document) [
    | none ↦ throw (api bad_request (literal "id is required"))
    | some id ↦ elim (is_truthy id) [
      | true ↦ create_or_update_id document id
      | false ↦ throw (api bad_request (literal "id is required"))
    ]
  ])

  unfoldable pub remove : Fields → Exec D RemovedModel
  remove filter = caught do
    deleted_count ← command (model.delete_one (convert_filter filter))
    pure (record { deleted_count = deleted_count; deleted = not (deleted_count == 0) })

  unfoldable pub update_one : Fields → Fields → Exec D UpdatedModel
  update_one filter updated =
      caught (command (model.update_one (convert_filter filter) (assign end updated)))

  unfoldable pub find_one_and_update : Fields → Fields → Exec D (Option O)
  find_one_and_update filter updated = caught do
    found ← command (model.find_one_and_update (convert_filter filter) updated)
    pure (Option.map to_object found)

  unfoldable pub update_many : Fields → Fields → Exec D UpdatedModel
  update_many filter updated = caught (command (model.update_many (convert_filter filter) updated))

  -- the filter of `findIn`
  abbrev in_filter : List (Text × List Value) → Fields → Fields
  in_filter [] where_filter = where_filter
  in_filter ((key, values) ∷ input) where_filter =
      in_filter input
        (set (mongo_key key) (object (field (codes "$in") (array (items values)) end)) where_filter)

  unfoldable pub find_in : List (Text × List Value) → Exec D (List O)
  find_in input = caught do
    results ← query (model.find (in_filter input (field deleted_at null end)))
    pure (map to_object results)

  unfoldable pub find_or : List Text → Text → Exec D (List O)
  find_or property_list value = caught do
    results ← query (
        model.find (
          field (codes "$or")
            (array
              (items (map (λ key. object (field (mongo_key key) (text value) end)) property_list)))
            (field deleted_at null end)))
    pure (map to_object results)

  unfoldable pub find_one_by_commands : List OperationCommand → Exec D (Option O)
  find_one_by_commands filter_list = caught do
    search_list ← lift (build_command_filter to_string filter_list)
    found ← query (model.find_one search_list)
    pure (Option.map to_object found)

  unfoldable pub find_by_commands : List OperationCommand → Exec D (List O)
  find_by_commands filter_list = caught do
    search_list ← lift (build_command_filter to_string filter_list)
    results ← query (model.find search_list)
    pure (map to_object results)

  abbrev excluded : List Text → Text
  excluded properties = join (codes " ") (map (λ e. 0x2d ∷ e) properties)

  unfoldable pub find_one_with_exclude_fields : Fields → List Text → Exec D (Option O)
  find_one_with_exclude_fields filter properties = caught do
    found ← query (model.find_one_select (convert_filter filter) (excluded properties))
    pure (Option.map to_object found)

  unfoldable pub find_all_with_exclude_fields : List Text → Option Fields → Exec D (List O)
  find_all_with_exclude_fields properties filter = caught do
    results ← query (model.find_select (apply_filter filter) (excluded properties))
    pure (map to_object results)

  unfoldable pub find_one_with_select_fields : Fields → List Text → Exec D (Option O)
  find_one_with_select_fields filter properties = caught do
    found ← query (model.find_one_select (convert_filter filter) (join (codes " ") properties))
    pure (Option.map to_object found)

  -- The method whose first argument is the list, after the decorator has changed it.
  select_fields : Argument → Option Fields → Exec D (List O)
  select_fields properties filter = caught do
    include ← lift (as_names properties)
    results ← query (model.find_select (apply_filter filter) (join (codes " ") include))
    pure (map to_object results)

  unfoldable pub find_all_with_select_fields : List Text → Option Fields → Exec D (List O)
  unfolding select_fields
  find_all_with_select_fields properties filter =
      select_fields (convert_argument digits (names properties)) filter

  unfoldable pub find_one_with_relation : Fields → List (Text × Join) → Exec D (Option O)
  find_one_with_relation filter joins = do
    found ← query (model.find_one_populate (convert_filter filter) (get_populate_paths joins))
    pure (Option.map to_plain found)

  unfoldable pub find_all_with_relation : Option Fields → List (Text × Join) → Exec D (List O)
  find_all_with_relation filter joins = do
    results ← query (model.find_populate (any_filter filter) (get_populate_paths joins))
    pure (map to_plain results)

  unfoldable pub exists : Fields → Exec D Bool
  exists filter = query (model.exists (convert_filter filter))

  unfoldable pub exists_on_update : Fields → Text → Exec D Bool
  exists_on_update filter id =
      query (model.exists (set mongo_id (not_equal_to id) (convert_filter filter)))

  -- `findOneAndUpdate` is decorated too, so the filter is converted twice.
  unfoldable pub soft_remove : (now : Value) → Fields → Exec D (Option O)
  unfolding find_one_and_update
  soft_remove now entity = find_one_and_update (convert_filter entity) (field deleted_at now end)
